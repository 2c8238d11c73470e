-- ===== src/Market/Runtime/Payments/Delivery.antt =====
-- What becomes of a delivery, and when the payment is offered for another one.
use fibernuts.Common.{
  ok, err, ℕ, Option, String, true, false, not, none, some, is_some, ◌∷◌, ◌≡◌, ◌≢◌, ◌≤◌, ◌<◌, refl,
  arith, ◌&&◌, ◌||◌, ◌==◌, leb, ◌⊎◌, inl, inr, Bool, Bool-cases,
}
use fibernuts.Market.Types.{
  MarketRole, PaymentState, AttendeePayment, MarketSnapshot, given, is_set, payment_can_retry,
  payment_can_check,
}
use fibernuts.Market.Errors.{
  Failure, plain_error, request_error, relay_error, storage_error, Attempt,
}
use fibernuts.Market.Ports.{MarketContext}
use fibernuts.Market.Runtime.{
  Session, and_then, delivers, find_by, return, sends, tries, commit_payment, assert_role,
}
use fibernuts.Market.Runtime.Rules.{Ends, either-Ends, and_then-Ends, in_role-Ends}
use fibernuts.Market.Runtime.Payments.{
  text_of, delivery_can_retry, commit_delivered, delivery_failed, commit_delivering, deliver_ready,
  deliver_found, deliver_stored_payment, stored_payment,
}

-- Whether a payment is offered for another delivery after an error. After an answer with a status it is
-- just for 408, 429 and 500 or more; after any other error it is.
abbrev pub Offered : Failure → Bool → Type 0
Offered (relay_error text (some status)) retry =
    (((status ≡ 408) ⊎ (status ≡ 429) ⊎ (500 ≤ status)) × (retry ≡ true))
    ⊎ ((status < 500) × (status ≢ 408) × (status ≢ 429) × (retry ≡ false))
Offered _ retry = retry ≡ true

delivery_can_retry-Offered :
    (e : Failure) (retry : Bool) → retry ≡ delivery_can_retry e → Offered e retry
unfolding delivery_can_retry
delivery_can_retry-Offered (plain_error text) retry h = h
delivery_can_retry-Offered (request_error e) retry h = h
delivery_can_retry-Offered (storage_error text) retry h = h
delivery_can_retry-Offered (relay_error text none) retry h = h
delivery_can_retry-Offered (relay_error text (some status)) retry h =
    elim (Bool-cases (status == 408 || status == 429 || leb 500 status)) [
      | inl e ↦ inl (ground arith, ground arith)
      | inr e ↦ inr (ground arith, ground arith, ground arith, ground arith)
    ]

-- What the payment comes to, by the relay's answer.
abbrev pub DeliveryOf : Attempt (Unit {0}) → AttendeePayment → Type 0
DeliveryOf (ok done) p =
    (p.state ≡ PaymentState.delivered)
    × (payment_can_retry p ≡ false)
    × (payment_can_check p ≡ true)
DeliveryOf (err e) p =
    (p.state ≡ PaymentState.recoverable)
    × Offered e (payment_can_retry p)
    × (payment_can_check p ≡ true)

-- A payment that is ready for its first delivery.
pub record IsReady (p : AttendeePayment) : Type 0 where
  pub url : given p.delivery_url ≡ true
  pub payload : given p.payload_json ≡ true
  pub token : given p.token ≡ true
  pub swapped : p.swap ≡ none
  pub undelivered : is_set p.delivered_at ≡ false

abbrev Never : Session → Type 0
Never t = ⊥

returns_with :
    (Q : AttendeePayment → Session → Type 0) (r : Attempt AttendeePayment × Session)
    → Ends Q Never r
    → (q : AttendeePayment) × (t : Session) × (r ≡ (ok q, t)) × Q q t
returns_with Q (ok q, t) h = (q, t, refl, h)
returns_with Q (err e, t) h = absurd h

-- A payment that could not be delivered is offered again as its flag says.
can_retry_flag :
    (p : AttendeePayment) (retry : Bool) (time : ℕ) (error : Option String)
    → IsReady p
    → payment_can_retry (record p {
      state = PaymentState.recoverable;
      delivery_retryable = some retry;
      updated_at = time;
      error = error;
    })
      ≡ retry
unfolding payment_can_retry
can_retry_flag p retry time error h =
    ground (arith, h.url, h.payload, h.token, h.swapped, h.undelivered)

module _ (c : MarketContext) (accepts : (next : MarketSnapshot) → c.commit next ≡ ok tt) where
  commits-Ends :
      (Q : AttendeePayment → Session → Type 0) (p : AttendeePayment) (s : Session)
      → ((t : Session) → Q p t)
      → Ends Q Never (commit_payment c p none s)
  unfolding commit_payment
  commits-Ends Q p s h = rw (accepts _) (h _)

  module _ (payment : AttendeePayment) (ready : IsReady payment) where
    abbrev url : String
    url = text_of payment.delivery_url

    abbrev payload : String
    payload = text_of payment.payload_json

    delivering-DeliveryOf :
        (p : AttendeePayment) (r : Attempt (Unit {0})) (s : Session)
        → IsReady p
        → Ends
            (λ q t. DeliveryOf r q)
            Never
            (tries
              (delivery_failed c p)
              (sends (delivers url payload) r)
              (λ done. tries (delivery_failed c p) (commit_delivered c p) return)
              s)
    unfolding delivery_failed commit_delivered payment_can_retry payment_can_check
    delivering-DeliveryOf p (ok done) s is_ready =
        either-Ends (λ q t. DeliveryOf (ok tt) q) (λ q t. DeliveryOf (ok tt) q) Never Never
          (commit_delivered c p (record s { calls = (delivers url payload, s.snapshot) ∷ s.calls }))
          (delivery_failed c p) return
          (commits-Ends (λ q t. DeliveryOf (ok tt) q) _ _
            (λ t. (refl, ground (arith, is_ready.token), ground (arith, is_ready.token))))
          (λ e t k. absurd k) (λ q t h. h)
    delivering-DeliveryOf p (err e) s is_ready =
        commits-Ends (λ q t. DeliveryOf (err e) q) _ _
          (λ t. (
            refl,
            delivery_can_retry-Offered e _
                (can_retry_flag p (delivery_can_retry e) 0 none is_ready),
            ground (arith, is_ready.token),
          ))

    -- The answer of the relay to the stored payload.
    abbrev pub answer : Attempt (Unit {0})
    answer = c.relay.deliver url payload

    abbrev Delivered : AttendeePayment → Session → Type 0
    Delivered q t = DeliveryOf answer q

    commit_delivering-Ends :
        (s : Session) → Ends (λ p t. IsReady p) Never (commit_delivering c payment s)
    unfolding commit_delivering
    commit_delivering-Ends s =
        commits-Ends (λ p t. IsReady p) _ _
          (λ t. record {
            url = ready.url;
            payload = ready.payload;
            token = ready.token;
            swapped = ready.swapped;
            undelivered = ready.undelivered;
          })

    deliver_ready-Delivered : (s : Session) → Ends Delivered Never (deliver_ready c payment s)
    unfolding deliver_ready
    deliver_ready-Delivered s =
        rw (ready.url, ready.payload, ready.token)
          (and_then-Ends (λ p t. IsReady p) Delivered Never (commit_delivering c payment s) _
            (commit_delivering-Ends s) (λ p t is_ready. delivering-DeliveryOf p answer t is_ready))

    deliver_found-Delivered : (s : Session) → Ends Delivered Never (deliver_found c payment s)
    unfolding deliver_found
    deliver_found-Delivered s =
        let whole : (is_some payment.swap && not (given payment.token)) ≡ false =
          ground (arith, ready.swapped) in
        rw whole (deliver_ready-Delivered s)

  -- Where the storage accepts what is committed, the delivery of a stored payment that is ready returns.
  -- If the relay took the payload, the payment is delivered, is not offered for another delivery and
  -- can be checked. If it did not, the payment is recoverable and can be checked; after an answer with a
  -- status it is offered for another delivery just if this is 408, 429 or at least 500, and after any
  -- other error it is offered.
  pub deliver_stored_payment-DeliveryOf :
      (input payment : AttendeePayment) (s : Session)
      → s.snapshot.role ≡ MarketRole.attendee
      → find_by (λ (p : AttendeePayment). p.id) input.id s.snapshot.payments ≡ some payment
      → (ready : IsReady payment)
      → (q : AttendeePayment) × (t : Session) × (deliver_stored_payment c input s ≡ (ok q, t))
        × DeliveryOf
            (c.relay.deliver (text_of payment.delivery_url) (text_of payment.payload_json))
            q
  unfolding deliver_stored_payment assert_role
  deliver_stored_payment-DeliveryOf input payment s role found ready =
      returns_with (Delivered payment ready) (deliver_stored_payment c input s) (
        in_role-Ends (Delivered payment ready) Never MarketRole.attendee
          (λ u v. and_then (deliver_found c) (stored_payment c input v)) s role
          (rw found (deliver_found-Delivered payment ready s)))
