-- ===== src/Market/Runtime/Payments/Once.antt =====
-- An order is paid for once: `confirmPayment` of market/src/domain/market-runtime.ts, now and after later
-- confirmations, deliveries and checks.
use mathlib.Core.Option.{some-injective}
use mathlib.Core.Path.{subst}
use text.Mathlib.TextPositions.{eq_refl}
use fibernuts.Common.{
  ok, err, ℕ, ◌+◌, String, true, not, some, List, [], ◌∷◌, ◌≡◌, ◌≢◌, refl, sym, ap, ◌∙◌, arith,
  eq_iff, str_eq, any, none, Bool-cases, inl, inr, ◌⊎◌,
}
use fibernuts.Market.Types.{MarketRole, AttendeePayment, MarketSnapshot}
use fibernuts.Market.Errors.{Failure, plain_error, Attempt}
use fibernuts.Market.Payment.{ValidatedEventRequest}
use fibernuts.Market.Ports.{MarketContext}
use fibernuts.Market.Runtime.{Session, asked, find_by, and_then, commit_payment, assert_role}
use fibernuts.Market.Runtime.Records.{find-replace, find-replace_other, find_by-id}
use fibernuts.Market.Runtime.Rules.{Ends, Ends-weaken, committed-Ends, and_then-Ends, role-Ends}
use fibernuts.Market.Runtime.Run.{Run, At, Good, start-Run, Good-of, tries-Good}
use fibernuts.Market.Runtime.Payments.{
  PaymentReview, is_paid_in, new_payment, preparation_failed, finish_payment_preparation,
  prepare_and_deliver, commit_confirmed, confirm_checked, confirm_from, deliver_stored_payment,
  confirm_payment, check_payment,
}
use fibernuts.Market.Runtime.Payments.Run.{payments, recommit_payment-Ends}
use fibernuts.Market.Runtime.Payments.Keeps.{
  finish_payment_preparation-Ends, deliver_stored_payment-Good, deliver_and_check-Run,
}

-- A payment that is found is a payment of its order.
found-paid :
    (key : String) (ps : List AttendeePayment) {p : AttendeePayment}
    → find_by (λ (x : AttendeePayment). x.id) key ps ≡ some p
    → any (λ (x : AttendeePayment). str_eq x.order_id p.order_id) ps ≡ true
unfolding find_by
found-paid key [] h = cc
found-paid key (x ∷ ps) {p} h = elim (Bool-cases (str_eq x.id key)) [
  | inl e ↦ ground (arith, eq_refl p.order_id)
  | inr e ↦ ground (arith, found-paid key ps {p = p})
]

-- A stored payment is found by its own identifier.
found_by_own_id :
    (s : Session) (input payment : AttendeePayment)
    → find_by (λ (p : AttendeePayment). p.id) input.id s.snapshot.payments ≡ some payment
    → find_by (λ (p : AttendeePayment). p.id) payment.id s.snapshot.payments ≡ some payment
found_by_own_id s input payment found =
    subst (λ key. find_by (λ (p : AttendeePayment). p.id) key s.snapshot.payments ≡ some payment)
      (sym (find_by-id (λ (p : AttendeePayment). p.id) input.id s.snapshot.payments found)) found

module _ (c : MarketContext) where
  preparation_failed-Good :
      (origin payment : AttendeePayment) (start : Session) (e : Failure) (s : Session)
      → At payments origin start payment s
      → Good payments origin start (preparation_failed c payment e s)
  unfolding preparation_failed
  preparation_failed-Good origin payment start e s at =
      Good-of payments origin start payment _
        (recommit_payment-Ends origin start c payment _ _ at at.1)

  prepare_and_deliver-Good :
      (payment : AttendeePayment) (s : Session)
      → find_by (λ (p : AttendeePayment). p.id) payment.id s.snapshot.payments ≡ some payment
      → Good payments payment s (prepare_and_deliver c payment s)
  unfolding prepare_and_deliver
  prepare_and_deliver-Good payment s found =
      tries-Good payments payment s (preparation_failed c payment) payment
        (preparation_failed-Good payment payment s) (At payments payment s)
        (finish_payment_preparation c payment s) (deliver_stored_payment c)
        (finish_payment_preparation-Ends payment s c payment s
          (start-Run payments payment s found, (refl, refl), found))
        (λ p t at. deliver_stored_payment-Good payment s c p p t at.1.0 at)

  -- What an attempt to pay has done if it has not left everything as it was: a payment of the order is
  -- stored under the new identifier, beside the others, and the session has run for it.
  record Confirmed (review : PaymentReview) (s t : Session) : Type 0 where
    payment : AttendeePayment
    stored : Session
    named : payment.id ≡ c.new_id
    order : payment.order_id ≡ review.validated.order_id
    found :
        find_by (λ (p : AttendeePayment). p.id) payment.id stored.snapshot.payments ≡ some payment
    others :
        (key : String)
        → key ≢ c.new_id
        → find_by (λ (p : AttendeePayment). p.id) key stored.snapshot.payments
          ≡ find_by (λ (p : AttendeePayment). p.id) key s.snapshot.payments
    run : Run payments payment stored t

  abbrev Unchanged : Session → Session → Type 0
  Unchanged s t = (t.snapshot ≡ s.snapshot) × (t.calls ≡ s.calls)

  abbrev Tried : PaymentReview → Session → Session → Type 0
  Tried review s t = Unchanged s t ⊎ Confirmed review s t

  module _ (review : PaymentReview) (s : Session) where
    abbrev Stored : AttendeePayment → Session → Type 0
    Stored p u =
        (p.id ≡ c.new_id)
        × (p.order_id ≡ review.validated.order_id)
        × (find_by (λ (x : AttendeePayment). x.id) p.id u.snapshot.payments ≡ some p)
        × ((key : String)
            → key ≢ c.new_id
            → find_by (λ (x : AttendeePayment). x.id) key u.snapshot.payments
              ≡ find_by (λ (x : AttendeePayment). x.id) key s.snapshot.payments)

    abbrev Outcome : AttendeePayment → Session → Type 0
    Outcome p u = Tried review s u

    -- The first commit: it throws, and nothing has changed, or the payment is stored.
    commit_confirmed-Ends :
        (readings : ℕ)
        → Ends Stored (Unchanged s) (commit_confirmed c review (record s { readings = readings }))
    unfolding commit_confirmed commit_payment new_payment
    commit_confirmed-Ends readings =
        committed-Ends c Stored (Unchanged s) (new_payment c review (c.now readings)) _
          (record s { readings = readings + 1 }) _
          (
            refl,
            refl,
            find-replace (λ (x : AttendeePayment). x.id) s.snapshot.payments
                (new_payment c review (c.now readings)),
            λ key other.
                find-replace_other (λ (x : AttendeePayment). x.id) s.snapshot.payments
                  (new_payment c review (c.now readings)) key other,
          )
          (refl, refl)

    Stored-Tried :
        (p : AttendeePayment) (u : Session)
        → Stored p u
        → Ends Outcome (Tried review s) (prepare_and_deliver c p u)
    Stored-Tried p u (named, order, found, others) =
        Ends-weaken (prepare_and_deliver c p u) (prepare_and_deliver-Good p u found)
          (λ q v at. confirmed v at.0) confirmed
      where
        confirmed : (v : Session) → Run payments p u v → Tried review s v
        confirmed v run = inr (record {
          payment = p;
          stored = u;
          named = named;
          order = order;
          found = found;
          others = others;
          run = run;
        })

    confirmed-Tried :
        (readings : ℕ)
        → Ends Outcome (Tried review s) (
            and_then
              (prepare_and_deliver c)
              (commit_confirmed c review (record s { readings = readings })))
    confirmed-Tried readings =
        and_then-Ends Stored Outcome (Tried review s)
          (commit_confirmed c review (record s { readings = readings })) (prepare_and_deliver c)
          (Ends-weaken (commit_confirmed c review (record s { readings = readings }))
            (commit_confirmed-Ends readings) (λ p u h. h) (λ u h. inl h))
          Stored-Tried

    confirm_checked-Tried : Ends Outcome (Tried review s) (confirm_checked c review s.snapshot s)
    unfolding confirm_checked
    confirm_checked-Tried = validated _
      where
        validated :
            (r : Attempt ValidatedEventRequest)
            → Ends Outcome (Tried review s) (
                and_then
                  (λ v t. and_then (prepare_and_deliver c) (commit_confirmed c review t))
                  (asked r (record s { readings = s.readings + 1 })))
        validated (ok v) = confirmed-Tried (s.readings + 1)
        validated (err e) = inl (refl, refl)

    confirm_from-Tried : Ends Outcome (Tried review s) (confirm_from c review s.snapshot s)
    unfolding confirm_from
    confirm_from-Tried = elim (Bool-cases (is_paid_in c review.validated.order_id s.snapshot)) [
      | inl paid ↦ rw paid (inl (refl, refl))
      | inr new ↦
          rw new
            (elim (Bool-cases
              (not (str_eq (c.fingerprint s.snapshot.proofs) review.proof_fingerprint))) [
                | inl changed ↦ rw changed (inl (refl, refl))
                | inr same ↦ rw same confirm_checked-Tried
              ])
    ]

    confirm_payment-Tried : Ends Outcome (Tried review s) (confirm_payment c review s)
    unfolding confirm_payment
    confirm_payment-Tried =
        role-Ends Outcome (Tried review s) MarketRole.attendee
          (λ done t. confirm_from c review t.snapshot t) s (inl (refl, refl)) confirm_from-Tried

    tried : Tried review s (confirm_payment c review s).1
    tried = after (confirm_payment c review s) confirm_payment-Tried
      where
        after :
            (r : Attempt AttendeePayment × Session)
            → Ends Outcome (Tried review s) r
            → Tried review s r.1
        after (ok p, t) h = h
        after (err e, t) h = h

  -- An order with a stored payment is refused.
  Paid-refused :
      (review : PaymentReview) (s : Session)
      → is_paid_in c review.validated.order_id s.snapshot ≡ true
      → (e : Failure) × (confirm_payment c review s ≡ (err e, s))
  unfolding confirm_payment confirm_from assert_role
  Paid-refused review s paid = by_role s.snapshot.role refl
    where
      by_role :
          (r : MarketRole)
          → s.snapshot.role ≡ r
          → (e : Failure) × (confirm_payment c review s ≡ (err e, s))
      by_role MarketRole.attendee e = (
        plain_error "This single-use order already has a payment. Open Activity to inspect it.",
        rw (e, paid) refl,
      )
      by_role MarketRole.vendor e =
          (plain_error "This action requires the attendee application.", rw e refl)

-- A call on the payments of an attendee: a confirmation under an identifier that no stored payment has,
-- a delivery, or a check, of a payment that is stored.
pub data PaymentStep (s : Session) : Session → Type 0 where
  confirming :
      (c : MarketContext) (review : PaymentReview)
      → find_by (λ (p : AttendeePayment). p.id) c.new_id s.snapshot.payments ≡ none
      → PaymentStep s (confirm_payment c review s).1
  delivering_again :
      (c : MarketContext) (input payment : AttendeePayment)
      → find_by (λ (p : AttendeePayment). p.id) input.id s.snapshot.payments ≡ some payment
      → PaymentStep s (deliver_stored_payment c input s).1
  checking :
      (c : MarketContext) (input payment : AttendeePayment)
      → find_by (λ (p : AttendeePayment). p.id) input.id s.snapshot.payments ≡ some payment
      → PaymentStep s (check_payment c input s).1

pub data Later : Session → Session → Type 0 where
  at_once : {s : Session} → Later s s
  after_step : {s t u : Session} → PaymentStep s t → Later t u → Later s u

-- A payment of the order is stored.
abbrev HasPayment : String → Session → Type 0
HasPayment order_id s =
    (p : AttendeePayment) × (find_by (λ (x : AttendeePayment). x.id) p.id s.snapshot.payments
      ≡ some p)
    × (p.order_id ≡ order_id)

-- A run for a stored payment keeps the payments of all orders.
Run-HasPayment :
    (origin : AttendeePayment) (order_id : String) (s t : Session)
    → find_by (λ (x : AttendeePayment). x.id) origin.id s.snapshot.payments ≡ some origin
    → Run payments origin s t
    → HasPayment order_id s
    → HasPayment order_id t
Run-HasPayment origin order_id s t stored run (p, found, order) =
    elim (Bool-cases (str_eq p.id origin.id)) [
      | inl same ↦
          let is_origin : p ≡ origin =
            some-injective p origin (sym found ∙ (rw ((eq_iff p.id origin.id).0 same) stored)) in
          (
            run.kept,
            subst
                (λ key.
                  find_by (λ (x : AttendeePayment). x.id) key t.snapshot.payments ≡ some run.kept)
                (sym (
                  find_by-id (λ (x : AttendeePayment). x.id) origin.id t.snapshot.payments
                    run.kept_found))
                run.kept_found,
            ap (λ (m : String × ℕ × String). m.0) run.kept_mark
                ∙ (sym (ap (λ (x : AttendeePayment). x.order_id) is_origin) ∙ order),
          )
      | inr differs ↦
          (p, run.others p.id (λ e. cc (differs, (eq_iff p.id origin.id).1 e)) ∙ found, order)
    ]

Good-Run :
    (origin : AttendeePayment) (s : Session) (r : Attempt AttendeePayment × Session)
    → Good payments origin s r
    → Run payments origin s r.1
Good-Run origin s (ok p, t) at = at.0
Good-Run origin s (err e, t) run = run

Step-HasPayment :
    (order_id : String) {s t : Session}
    → PaymentStep s t
    → HasPayment order_id s
    → HasPayment order_id t
Step-HasPayment order_id {s} (confirming c review unused) h = kept h (tried c review s)
  where
    kept :
        HasPayment order_id s
        → Tried c review s (confirm_payment c review s).1
        → HasPayment order_id (confirm_payment c review s).1
    kept (p, found, order) (inl unchanged) = (
      p,
      ap (λ (m : MarketSnapshot). find_by (λ (x : AttendeePayment). x.id) p.id m.payments)
            unchanged.0
          ∙ found,
      order,
    )
    kept (p, found, order) (inr confirmed) =
        Run-HasPayment confirmed.payment order_id confirmed.stored (confirm_payment c review s).1
          confirmed.found confirmed.run
          (p, confirmed.others p.id (λ e. cc (unused, found, e)) ∙ found, order)
Step-HasPayment order_id {s} (delivering_again c input payment found) h =
    Run-HasPayment payment order_id s (deliver_stored_payment c input s).1
      (found_by_own_id s input payment found)
      (Good-Run payment s (deliver_stored_payment c input s)
        (deliver_and_check-Run c input payment s found).0)
      h
Step-HasPayment order_id {s} (checking c input payment found) h =
    Run-HasPayment payment order_id s (check_payment c input s).1
      (found_by_own_id s input payment found)
      (Good-Run payment s (check_payment c input s)
        (deliver_and_check-Run c input payment s found).1)
      h

Later-HasPayment :
    (order_id : String) {s t : Session} → Later s t → HasPayment order_id s → HasPayment order_id t
Later-HasPayment order_id at_once h = h
Later-HasPayment order_id (after_step step rest) h =
    Later-HasPayment order_id rest (Step-HasPayment order_id step h)

-- An attempt to pay for an order changes nothing and moves no value, or every later attempt to pay for
-- that order is refused and changes nothing: under whatever identifier, whatever the wallet, the relay
-- and the storage answer, and after any confirmations under identifiers that are not in use, deliveries
-- and checks of stored payments in between.
pub confirm_payment-once :
    (c c' : MarketContext) (review again : PaymentReview) (s u : Session)
    → Later (confirm_payment c review s).1 u
    → again.validated.order_id ≡ review.validated.order_id
    → (((confirm_payment c review s).1.snapshot ≡ s.snapshot)
        × ((confirm_payment c review s).1.calls ≡ s.calls))
      ⊎ ((e : Failure) × (confirm_payment c' again u ≡ (err e, u)))
confirm_payment-once c c' review again s u later same = by_outcome (tried c review s)
  where
    by_outcome :
        Tried c review s (confirm_payment c review s).1
        → (((confirm_payment c review s).1.snapshot ≡ s.snapshot)
            × ((confirm_payment c review s).1.calls ≡ s.calls))
          ⊎ ((e : Failure) × (confirm_payment c' again u ≡ (err e, u)))
    by_outcome (inl unchanged) = inl unchanged
    by_outcome (inr confirmed) =
        let (p, found, order) = Later-HasPayment review.validated.order_id later (
          Run-HasPayment confirmed.payment review.validated.order_id confirmed.stored
            (confirm_payment c review s).1 confirmed.found confirmed.run
            (confirmed.payment, confirmed.found, confirmed.order)) in
        inr (
          Paid-refused c' again u
            (rw (same ∙ sym order) (found-paid p.id u.snapshot.payments found)))
