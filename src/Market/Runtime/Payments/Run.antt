-- ===== src/Market/Runtime/Payments/Run.antt =====
-- What the operations on the payments of an attendee keep, from their commits up.
use fibernuts.Common.{ℕ, String, Bool, true, false, Option, none, some, List, ◌++◌, ◌≡◌, refl}
use fibernuts.Market.Types.{Proof, PaymentState, AttendeePayment, MarketRole}
use fibernuts.Market.Ports.{MarketContext}
use fibernuts.Market.Runtime.{
  Call, completes_send, delivers, Session, Runtime, assert_role, fails_if, and_then, ◌>>=◌, ◌>>◌,
  commit_payment, or_else,
}
use fibernuts.Market.Runtime.Rules.{Ends}
use fibernuts.Market.Runtime.Run.{
  Kind, Keyed, At, Good, commit-Ends, recommit_exact-Ends, recommit-Ends,
}
use fibernuts.Market.Runtime.Payments.{stored_payment}

-- A payment backs the completion of the swap that it holds, and the delivery of its payload to its slot
-- while it is being delivered.
abbrev PaymentBacks : AttendeePayment → Call → Type 0
PaymentBacks payment (completes_send swap) = payment.swap ≡ some swap
PaymentBacks payment (delivers url payload) =
    (payment.state ≡ PaymentState.delivering)
    × (payment.delivery_url ≡ some url)
    × (payment.payload_json ≡ some payload)
PaymentBacks payment _ = ⊥

abbrev pub payments : Kind AttendeePayment
payments = record {
  id = λ p. p.id;
  Mark = String × ℕ × String;
  mark = λ p. (p.order_id, p.amount, p.vendor_name);
  records = λ s. s.payments;
  put = λ s proofs records. record s { proofs = proofs; payments = records };
  Same = λ a b.
      (b.role ≡ a.role)
      × (b.event_id ≡ a.event_id)
      × (b.mint_url ≡ a.mint_url)
      × (b.orders ≡ a.orders)
      × (b.add_cash ≡ a.add_cash)
      × (b.cash_out ≡ a.cash_out);
  Backs = PaymentBacks;
  records_put = λ s ps rs. refl;
  proofs_put = λ s ps rs. refl;
  same_refl = λ s. (refl, refl, refl, refl, refl, refl);
  same_put = λ a s ps rs h. h;
}

module _ (origin : AttendeePayment) (start : Session) (c : MarketContext) where
  pub commit_payment-Ends :
      (current next : AttendeePayment) (proofs : Option (List Proof)) (more : List Proof)
      (s : Session)
      → At payments origin start current s
      → Keyed payments origin start next
      → or_else proofs s.snapshot.proofs ≡ s.snapshot.proofs ++ more
      → Ends
          (At payments origin start)
          (At payments origin start current)
          (commit_payment c next proofs s)
  unfolding commit_payment
  commit_payment-Ends current next proofs more s =
      commit-Ends payments origin start c current next proofs more s

  pub recommit_payment_exact-Ends :
      (current next : AttendeePayment) (s : Session)
      → At payments origin start current s
      → Keyed payments origin start next
      → Ends
          (λ p t. At payments origin start p t × (p ≡ next))
          (At payments origin start current)
          (commit_payment c next none s)
  unfolding commit_payment
  recommit_payment_exact-Ends current next s =
      recommit_exact-Ends payments origin start c current next s

  pub recommit_payment-Ends :
      (current next : AttendeePayment) (s : Session)
      → At payments origin start current s
      → Keyed payments origin start next
      → Ends
          (At payments origin start)
          (At payments origin start current)
          (commit_payment c next none s)
  unfolding commit_payment
  recommit_payment-Ends current next s = recommit-Ends payments origin start c current next s

  -- An operation begins with the role and the stored payment.
  pub begins-Good :
      (role : MarketRole) (input payment : AttendeePayment) (s : Session)
      (next : AttendeePayment → Runtime AttendeePayment)
      → input.id ≡ origin.id
      → At payments origin start payment s
      → Good payments origin start (next payment s)
      → Good payments origin start ((assert_role role >> (stored_payment c input >>= next)) s)
  unfolding assert_role
  begins-Good role input payment s next same at h = begin _ _
    where
      begin :
          (bad : Bool) (text : String)
          → Good payments origin start
              (and_then (λ done. stored_payment c input >>= next) (fails_if bad text s))
      begin true text = at.0
      begin false text = rw (same, at.2) h
