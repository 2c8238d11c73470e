-- ===== src/Market/Runtime/Orders/Run.antt =====
-- What the operations on the orders of a vendor keep, from their commits up.
use fibernuts.Common.{ℕ, String, Bool, true, false, Option, none, some, List, ◌++◌, ◌≡◌, refl}
use fibernuts.Market.Types.{Proof, OrderState, OrderItem, VendorOrder, MarketRole}
use fibernuts.Market.Errors.{Failure}
use fibernuts.Market.Ports.{MarketContext}
use fibernuts.Market.Runtime.{
  Call, completes_receive, Session, Runtime, assert_role, fails_if, and_then, ◌>>=◌, ◌>>◌,
  commit_order, or_else,
}
use fibernuts.Market.Runtime.Rules.{Ends}
use fibernuts.Market.Runtime.Run.{
  Kind, Keyed, At, Good, Good-of, commit-Ends, recommit_exact-Ends, recommit-Ends,
}
use fibernuts.Market.Runtime.Orders.{commit_state, stored_order, recoverable_with}

-- What an order is about: its items and their sum, its expiry, the vendor and its key.
abbrev pub Terms : Type 0
Terms = List OrderItem × ℕ × ℕ × String × Option String

-- An order backs the completion of the swap that it holds.
abbrev OrderBacks : VendorOrder → Call → Type 0
OrderBacks order (completes_receive swap) = order.incoming_swap ≡ some swap
OrderBacks order _ = ⊥

abbrev pub orders : Kind VendorOrder
orders = record {
  id = λ o. o.id;
  Mark = Terms;
  mark = λ o. (o.items, o.amount, o.expires_at, o.vendor_id, o.public_key);
  records = λ s. s.orders;
  put = λ s proofs records. record s { proofs = proofs; orders = records };
  Same = λ a b.
      (b.role ≡ a.role)
      × (b.event_id ≡ a.event_id)
      × (b.mint_url ≡ a.mint_url)
      × (b.payments ≡ a.payments)
      × (b.add_cash ≡ a.add_cash)
      × (b.cash_out ≡ a.cash_out);
  Backs = OrderBacks;
  records_put = λ s ps rs. refl;
  proofs_put = λ s ps rs. refl;
  same_refl = λ s. (refl, refl, refl, refl, refl, refl);
  same_put = λ a s ps rs h. h;
}

module _ (origin : VendorOrder) (start : Session) (c : MarketContext) where
  pub commit_order-Ends :
      (current next : VendorOrder) (proofs : Option (List Proof)) (more : List Proof) (s : Session)
      → At orders origin start current s
      → Keyed orders origin start next
      → or_else proofs s.snapshot.proofs ≡ s.snapshot.proofs ++ more
      → Ends
          (At orders origin start)
          (At orders origin start current)
          (commit_order c next proofs s)
  unfolding commit_order
  commit_order-Ends current next proofs more s =
      commit-Ends orders origin start c current next proofs more s

  pub recommit_order_exact-Ends :
      (current next : VendorOrder) (s : Session)
      → At orders origin start current s
      → Keyed orders origin start next
      → Ends
          (λ o t. At orders origin start o t × (o ≡ next))
          (At orders origin start current)
          (commit_order c next none s)
  unfolding commit_order
  recommit_order_exact-Ends current next s =
      recommit_exact-Ends orders origin start c current next s

  pub recommit_order-Ends :
      (current next : VendorOrder) (s : Session)
      → At orders origin start current s
      → Keyed orders origin start next
      → Ends (At orders origin start) (At orders origin start current) (commit_order c next none s)
  unfolding commit_order
  recommit_order-Ends current next s at same =
      recommit-Ends orders origin start c current next s at same

  pub commit_state-Ends :
      (order : VendorOrder) (state : OrderState) (error : Option String) (s : Session)
      → At orders origin start order s
      → Ends
          (At orders origin start)
          (At orders origin start order)
          (commit_state c order state error s)
  unfolding commit_state
  commit_state-Ends order state error s at = recommit_order-Ends order _ _ at at.1

  pub recoverable_with-Good :
      (order : VendorOrder) (e : Failure) (s : Session)
      → At orders origin start order s
      → Good orders origin start (recoverable_with c order e s)
  recoverable_with-Good order e s at =
      Good-of orders origin start order _ (commit_state-Ends order OrderState.recoverable _ s at)

  -- An operation begins with the role and the stored order.
  pub begins-Good :
      (role : MarketRole) (input order : VendorOrder) (s : Session)
      (next : VendorOrder → Runtime VendorOrder)
      → input.id ≡ origin.id
      → At orders origin start order s
      → Good orders origin start (next order s)
      → Good orders origin start ((assert_role role >> (stored_order c input >>= next)) s)
  unfolding assert_role
  begins-Good role input order s next same at h = begin _ _
    where
      begin :
          (bad : Bool) (text : String)
          → Good orders origin start
              (and_then (λ done. stored_order c input >>= next) (fails_if bad text s))
      begin true text = at.0
      begin false text = rw (same, at.2) h
