-- ===== src/Market/Runtime/Settlement/Keeps.antt =====
-- What settling an order keeps.
use fibernuts.Common.{
  ok, err, String, Bool, true, false, not, Option, none, some, List, ◌++◌, ◌≡◌, refl, ap, ◌==◌,
  ◌||◌, Bool-cases, inl, inr,
}
use fibernuts.Market.Types.{Proof, StoredSwapPreview, MarketRole, OrderState, VendorOrder, given}
use fibernuts.Market.Errors.{Attempt}
use fibernuts.Market.Payment.{InspectedToken}
use fibernuts.Market.Ports.{MarketContext, TokenSpendState}
use fibernuts.Market.Runtime.{Session, completes_receive}
use fibernuts.Market.Runtime.Rules.{Ends, Ends-weaken}
use fibernuts.Market.Runtime.Orders.{recoverable_with}
use fibernuts.Market.Runtime.Run.{
  At, Good, tries-Good, tries_asked-Good, tries_last-Good, sends-Ends,
}
use fibernuts.Market.Runtime.Orders.Run.{
  orders, commit_order-Ends, recommit_order_exact-Ends, commit_state-Ends, recoverable_with-Good,
  begins-Good,
}
use fibernuts.Market.Runtime.Settlement.{
  ends_with, commit_settled, settle_swap, commit_swapping, settle_prepared, settle_checked,
  settle_locked, settle_matched, settle_inspected, settle_token, settle_stored, settle_order,
}

module _ (origin : VendorOrder) (start : Session) (c : MarketContext) where
  open c use {wallet}

  ends_with-Good :
      (order : VendorOrder) (state : OrderState) (error : String) (s : Session)
      → At orders origin start order s
      → Good orders origin start (ends_with c order state error s)
  ends_with-Good order state error s at =
      tries_last-Good orders origin start (recoverable_with c order) order
        (recoverable_with-Good origin start c order) _
        (commit_state-Ends origin start c order state (some error) s at)

  commit_settled-Ends :
      (order : VendorOrder) (proofs : List Proof) (s : Session)
      → At orders origin start order s
      → Ends
          (At orders origin start)
          (At orders origin start order)
          (commit_settled c order proofs s)
  unfolding commit_settled
  commit_settled-Ends order proofs s at =
      commit_order-Ends origin start c order _ (some (s.snapshot.proofs ++ proofs)) proofs _ at at.1
        refl

  settle_swap-Good :
      (order : VendorOrder) (swap : StoredSwapPreview) (s : Session)
      → At orders origin start order s
      → order.incoming_swap ≡ some swap
      → Good orders origin start (settle_swap c order swap s)
  unfolding settle_swap
  settle_swap-Good order swap s at held =
      tries-Good orders origin start (recoverable_with c order) order
        (recoverable_with-Good origin start c order) (λ a t. At orders origin start order t) _ _
        (sends-Ends orders origin start order (completes_receive swap) _ s at held)
        (λ proofs t at'.
          tries_last-Good orders origin start (recoverable_with c order) order
            (recoverable_with-Good origin start c order) _ (commit_settled-Ends order proofs t at'))

  commit_swapping-Ends :
      (order : VendorOrder) (swap : StoredSwapPreview) (s : Session)
      → At orders origin start order s
      → Ends
          (λ o t. At orders origin start o t × (o.incoming_swap ≡ some swap))
          (At orders origin start order)
          (commit_swapping c order swap s)
  unfolding commit_swapping
  commit_swapping-Ends order swap s at =
      Ends-weaken (commit_swapping c order swap s)
        (recommit_order_exact-Ends origin start c order _ _ at at.1)
        (λ o t h. (h.0, ap (λ (x : VendorOrder). x.incoming_swap) h.1)) (λ t h. h)

  settle_prepared-Good :
      (order : VendorOrder) (swap : StoredSwapPreview) (s : Session)
      → At orders origin start order s
      → Good orders origin start (settle_prepared c order swap s)
  unfolding settle_prepared
  settle_prepared-Good order swap s at = elim (Bool-cases (not (swap.amount == order.amount))) [
    | inl differs ↦ rw differs (ends_with-Good order OrderState.rejected _ s at)
    | inr equal ↦ rw equal (
        tries-Good orders origin start (recoverable_with c order) order
          (recoverable_with-Good origin start c order)
          (λ o t. At orders origin start o t × (o.incoming_swap ≡ some swap)) _ _
          (commit_swapping-Ends order swap s at) (λ o t h. settle_swap-Good o swap t h.0 h.1))
  ]

  settle_checked-Good :
      (order : VendorOrder) (state : TokenSpendState) (s : Session)
      → At orders origin start order s
      → Good orders origin start (settle_checked c order state s)
  unfolding settle_checked
  settle_checked-Good order TokenSpendState.spent s at =
      ends_with-Good order OrderState.rejected _ s at
  settle_checked-Good order TokenSpendState.mixed s at =
      ends_with-Good order OrderState.rejected _ s at
  settle_checked-Good order TokenSpendState.pending s at =
      ends_with-Good order OrderState.recoverable _ s at
  settle_checked-Good order TokenSpendState.unspent s at =
      tries_asked-Good orders origin start (recoverable_with c order) order
        (recoverable_with-Good origin start c order) _ s _ at (settle_prepared-Good order)

  settle_locked-Good :
      (order : VendorOrder) (locked : Bool) (s : Session)
      → At orders origin start order s
      → Good orders origin start (settle_locked c order locked s)
  unfolding settle_locked
  settle_locked-Good order false s at = ends_with-Good order OrderState.rejected _ s at
  settle_locked-Good order true s at =
      tries_asked-Good orders origin start (recoverable_with c order) order
        (recoverable_with-Good origin start c order) _ s _ at (settle_checked-Good order)

  settle_matched-Good :
      (order : VendorOrder) (wrong : Bool) (s : Session)
      → At orders origin start order s
      → Good orders origin start (settle_matched c order wrong s)
  unfolding settle_matched
  settle_matched-Good order true s at = ends_with-Good order OrderState.rejected _ s at
  settle_matched-Good order false s at =
      tries_asked-Good orders origin start (recoverable_with c order) order
        (recoverable_with-Good origin start c order) _ s _ at (settle_locked-Good order)

  settle_inspected-Good :
      (order : VendorOrder) (token : Attempt InspectedToken) (s : Session)
      → At orders origin start order s
      → Good orders origin start (settle_inspected c order token s)
  unfolding settle_inspected
  settle_inspected-Good order (err e) s at = ends_with-Good order OrderState.rejected _ s at
  settle_inspected-Good order (ok token) s at =
      tries_asked-Good orders origin start (recoverable_with c order) order
        (recoverable_with-Good origin start c order) _ s _ at (settle_matched-Good order)

  settle_token-Good :
      (order : VendorOrder) (s : Session)
      → At orders origin start order s
      → Good orders origin start (settle_token c order s)
  unfolding settle_token
  settle_token-Good order s at =
      elim (Bool-cases (
        not (given order.incoming_token)
        || not (given order.private_key)
        || not (given order.public_key))) [
          | inl missing ↦ rw missing (recoverable_with-Good origin start c order _ s at)
          | inr complete ↦ rw complete (
              tries-Good orders origin start (recoverable_with c order) order
                (recoverable_with-Good origin start c order) (At orders origin start) _ _
                (commit_state-Ends origin start c order OrderState.validating none s at)
                (λ o t at'. settle_inspected-Good o _ t at'))
        ]

  settle_stored-Good :
      (order : VendorOrder) (stored : Option StoredSwapPreview) (s : Session)
      → At orders origin start order s
      → order.incoming_swap ≡ stored
      → Good orders origin start (settle_stored c order stored s)
  unfolding settle_stored
  settle_stored-Good order none s at e = settle_token-Good order s at
  settle_stored-Good order (some swap) s at e = settle_swap-Good order swap s at e

  -- Settling an order that is stored touches this order alone, adds proofs and removes none, and
  -- completes no swap that is not stored in the order.
  pub settle_order-Good :
      (input order : VendorOrder) (s : Session)
      → input.id ≡ origin.id
      → At orders origin start order s
      → Good orders origin start (settle_order c input s)
  unfolding settle_order
  settle_order-Good input order s same at =
      begins-Good origin start c MarketRole.vendor input order s
        (λ o. settle_stored c o o.incoming_swap) same at
        (settle_stored-Good order order.incoming_swap s at refl)
