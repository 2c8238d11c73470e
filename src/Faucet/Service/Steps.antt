-- ===== src/Faucet/Service/Steps.antt =====
-- A claim as a sequence of steps on the table and the payments sent, each taken only where the
-- service has tested that it may be.
use mathlib.Core.Path.{subst}
use fibernuts.Common.{
  ℕ, ◌<◌, String, false, not, Option, none, some, List, [], ◌∷◌, ◌++◌, ◌≡◌, refl, sym, ap, arith,
  eq_iff, leb, str_eq, ◌||◌, Bool-cases, inl, inr, Result, ok, err,
}
use fibernuts.Table.Rows.{select_match, select-update}
use text.Mathlib.TextPositions.{eq_refl}
use fibernuts.Faucet.Store.{
  ClaimState, ClaimRecord, ReserveClaim, Reservation, find, is_quote, attempt_row, reserve,
  mark_attempt, transition, new_claim, column_is, is_issued,
}
use fibernuts.Faucet.Store.Reserving.{
  Reserving, refused, on_record, granted, reserve-Reserving, find-new_claim,
}
use fibernuts.Faucet.Upstream.{QuotePhase, MintQuoteView, FiberPayment, ParsedFiberInvoice}
use fibernuts.Faucet.Service.{
  Context, World, Answer, given, text_of, settle, reply_with, apply_payment, dispatch, send_marked,
  sent_payment, recover_unknown, after_check, is_failed,
}
use fibernuts.Faucet.Service.Reconcile.{
  validate_quote, assert_owner, quote_changed, attempted_recently, retry_claim, checked_payment,
  reconcile_unpaid, reconcile_phase, reconcile, reconcile_stored,
}
use fibernuts.Faucet.Service.Claims.{
  check_claim, reservation_of, reserved_claim, claim_existing, claim_new, claim_found,
  claim_exclusive,
}

module _ (c : Context) where
  open c use {config, ports, clock}

  -- When a payment may be sent for a claim: at once for a new claim whose quote and invoice have
  -- passed every test, and again at most once, for an unpaid quote in time, when the Fiber node
  -- knows no payment of it and the last attempt is old enough.
  pub data MayPay (r : ClaimRecord) : Type 0 where
    first_attempt :
        (quote_id : String) (quote : MintQuoteView) (decoded : ParsedFiberInvoice)
        → check_claim c quote_id ≡ ok (quote, decoded)
        → r.invoice ≡ some quote.invoice
        → r.payment_hash ≡ some decoded.payment_hash
        → r.attempt_count ≡ 0
        → MayPay r
    second_attempt :
        (quote : MintQuoteView)
        → quote.phase ≡ QuotePhase.unpaid
        → quote_changed c r quote ≡ false
        → clock.checked < quote.expiry
        → is_failed r.state ≡ false
        → ports.get_payment (text_of r.payment_hash) ≡ ok none
        → attempted_recently c r ≡ false
        → r.attempt_count < 2
        → MayPay r

  pub data Step (w : World) : World → Type 0 where
    moves :
        (hash : String) (state : ClaimState) (code : Option String)
        → Step w (record w { claims = (transition hash state code clock.settled_at w.claims).1 })
    pays :
        (r : ClaimRecord)
        → find r.quote_hash w.claims ≡ some r
        → MayPay r
        → Step w (record {
          claims = (mark_attempt r.quote_hash clock.attempted w.claims).1;
          sent = (r.quote_hash, text_of r.invoice) ∷ w.sent;
        })
    reserves :
        (quote_hash quote_id client network : String) (quote : MintQuoteView)
        (decoded : ParsedFiberInvoice)
        → check_claim c quote_id ≡ ok (quote, decoded)
        → Step w (record w {
          claims =
              (reserve
                (reservation_of c quote_hash quote_id client network quote decoded)
                clock.reserved
                w.claims).1;
        })

  pub data Steps (w : World) : World → Type 0 where
    here : Steps w w
    next : {u v : World} → Steps w u → Step u v → Steps w v

  one : {w v : World} → Step w v → Steps w v
  one s = next here s

  andthen : {w u v : World} → Steps w u → Steps u v → Steps w v
  andthen s here = s
  andthen s (next t st) = next (andthen s t) st

  reply_with-world :
      (retry : Option ℕ) (w : World) (x : Result ClaimRecord × List ClaimRecord)
      → (reply_with retry w x).1 ≡ record w { claims = x.1 }
  reply_with-world retry w (ok r, claims) = refl
  reply_with-world retry w (err e, claims) = refl

  settle-Steps :
      (hash : String) (state : ClaimState) (code : Option String) (retry : Option ℕ) (w : World)
      → Steps w (settle c hash state code retry w).1
  settle-Steps hash state code retry w =
      rw (reply_with-world retry w (transition hash state code clock.settled_at w.claims))
        (one (moves hash state code))

  apply_payment-Steps :
      (r : ClaimRecord) (payment : FiberPayment) (w : World)
      → Steps w (apply_payment c r payment w).1
  unfolding apply_payment
  apply_payment-Steps r payment w = settle-Steps _ _ _ _ w

  sent_payment-Steps :
      (input marked : ClaimRecord) (answer : Result FiberPayment) (w : World)
      → Steps w (sent_payment c input marked answer w).1
  unfolding sent_payment
  sent_payment-Steps input marked (err e) w = here
  sent_payment-Steps input marked (ok payment) w =
      elim (Bool-cases (str_eq payment.payment_hash (text_of input.payment_hash))) [
        | inl e ↦ rw e (apply_payment-Steps marked payment w)
        | inr e ↦ rw e (settle-Steps _ _ _ _ w)
      ]

  recover_unknown-Steps :
      (hash : String) (w : World) (x : Answer) → Steps w x.1 → Steps w (recover_unknown c hash x).1
  recover_unknown-Steps hash w (ok a, v) s = s
  recover_unknown-Steps hash w (err e, v) s = andthen s (settle-Steps _ _ _ _ v)

  -- The mark finds the claim that is on record.
  pub mark_attempt-found :
      (r : ClaimRecord) (now : ℕ) (claims : List ClaimRecord)
      → find r.quote_hash claims ≡ some r
      → (mark_attempt r.quote_hash now claims).0 ≡ ok (attempt_row now r)
  unfolding mark_attempt find
  mark_attempt-found r now claims e =
      rw
        (select-update (is_quote r.quote_hash) (is_quote r.quote_hash) (attempt_row now) (λ x. refl)
          claims)
        (rw e (rw eq_refl))

  send_marked-Steps :
      (r : ClaimRecord) (w : World) (x : Result ClaimRecord × List ClaimRecord)
      → x ≡ mark_attempt r.quote_hash clock.attempted w.claims
      → find r.quote_hash w.claims ≡ some r
      → MayPay r
      → Steps w (send_marked c r w x).1
  unfolding send_marked
  send_marked-Steps r w (err e, claims) same found may = cc (
    mark_attempt-found r clock.attempted w.claims found,
    ap (λ (y : Result ClaimRecord × List ClaimRecord). y.0) same,
  )
  send_marked-Steps r w (ok marked, claims) same found may =
      let paying : World = record {
        claims = claims;
        sent = (r.quote_hash, text_of r.invoice) ∷ w.sent;
      } in
      let step : Step w paying =
        rw (ap (λ (y : Result ClaimRecord × List ClaimRecord). y.1) same) (pays r found may) in
      recover_unknown-Steps r.quote_hash w _ (
        andthen (one step)
          (sent_payment-Steps r marked (ports.send_payment (text_of r.invoice)) paying))

  dispatch-Steps :
      (r : ClaimRecord) (w : World)
      → find r.quote_hash w.claims ≡ some r
      → MayPay r
      → Steps w (dispatch c r w).1
  unfolding dispatch
  dispatch-Steps r w found may =
      elim (Bool-cases (not (given r.invoice) || not (given r.payment_hash))) [
        | inl e ↦ rw e (settle-Steps _ _ _ _ w)
        | inr e ↦ rw e (send_marked-Steps r w _ refl found may)
      ]

  module _ (r : ClaimRecord) (quote : MintQuoteView) (w : World)
      (found : find r.quote_hash w.claims ≡ some r) (unpaid : quote.phase ≡ QuotePhase.unpaid)
      (same : quote_changed c r quote ≡ false) (alive : is_failed r.state ≡ false) where
    retry_claim-Steps :
        ports.get_payment (text_of r.payment_hash) ≡ ok none → Steps w (retry_claim c r quote w).1
    unfolding retry_claim
    retry_claim-Steps unknown =
        elim (Bool-cases (column_is r.failure_code "payment_hash_mismatch")) [
          | inl e ↦ rw e here
          | inr e ↦ rw e (elim (Bool-cases (attempted_recently c r)) [
            | inl recent ↦ unfold attempted_recently in rw recent (settle-Steps _ _ _ _ w)
            | inr rested ↦ rw rested (elim (Bool-cases (leb quote.expiry clock.checked)) [
              | inl late ↦ rw late (settle-Steps _ _ _ _ w)
              | inr timely ↦
                  rw timely (elim (Bool-cases (leb 2 r.attempt_count || not (given r.invoice))) [
                    | inl stop ↦ rw stop (settle-Steps _ _ _ _ w)
                    | inr go ↦ rw go (
                        dispatch-Steps r w found (
                          second_attempt quote unpaid same (ground arith) alive unknown rested
                            (ground arith)))
                  ])
            ])
          ])
        ]

    checked_payment-Steps :
        (answer : Result (Option FiberPayment))
        → ports.get_payment (text_of r.payment_hash) ≡ answer
        → Steps w (checked_payment c r quote answer w).1
    unfolding checked_payment
    checked_payment-Steps (err e) asked = settle-Steps _ _ _ _ w
    checked_payment-Steps (ok none) asked = retry_claim-Steps asked
    checked_payment-Steps (ok (some payment)) asked =
        elim (Bool-cases (str_eq payment.payment_hash (text_of r.payment_hash))) [
          | inl e ↦ rw e (apply_payment-Steps r payment w)
          | inr e ↦ rw e (settle-Steps _ _ _ _ w)
        ]

  reconcile_unpaid-Steps :
      (r : ClaimRecord) (quote : MintQuoteView) (w : World)
      → find r.quote_hash w.claims ≡ some r
      → quote.phase ≡ QuotePhase.unpaid
      → quote_changed c r quote ≡ false
      → Steps w (reconcile_unpaid c r quote w).1
  unfolding reconcile_unpaid
  reconcile_unpaid-Steps r quote w found unpaid same = elim (Bool-cases (is_failed r.state)) [
    | inl e ↦ rw e here
    | inr alive ↦ rw alive (elim (Bool-cases (given r.payment_hash)) [
      | inl e ↦ rw e (checked_payment-Steps r quote w found unpaid same alive _ refl)
      | inr e ↦ rw e (settle-Steps _ _ _ _ w)
    ])
  ]

  reconcile_phase-Steps :
      (phase : QuotePhase) (r : ClaimRecord) (quote : MintQuoteView) (w : World)
      → quote.phase ≡ phase
      → find r.quote_hash w.claims ≡ some r
      → quote_changed c r quote ≡ false
      → Steps w (reconcile_phase c phase r quote w).1
  unfolding reconcile_phase
  reconcile_phase-Steps QuotePhase.issued r quote w e found same = settle-Steps _ _ _ _ w
  reconcile_phase-Steps QuotePhase.paid r quote w e found same = settle-Steps _ _ _ _ w
  reconcile_phase-Steps QuotePhase.unpaid r quote w e found same =
      reconcile_unpaid-Steps r quote w found e same

  -- A test that may throw before anything is done.
  after_check-Steps {ℓ} :
      {A : Type ℓ} (check : Result A) (w : World) (k : A → Answer)
      → ((a : A) → check ≡ ok a → Steps w (k a).1)
      → Steps w (after_check check w k).1
  after_check-Steps (ok a) w k h = h a refl
  after_check-Steps (err e) w k h = here

  reconcile-Steps :
      (r : ClaimRecord) (quote : MintQuoteView) (w : World)
      → find r.quote_hash w.claims ≡ some r
      → Steps w (reconcile c r quote w).1
  unfolding reconcile
  reconcile-Steps r quote w found =
      after_check-Steps (validate_quote c quote r.quote_id) w _ (λ _ valid.
        elim (Bool-cases (quote_changed c r quote)) [
          | inl e ↦ rw e (settle-Steps _ _ _ _ w)
          | inr same ↦ rw same (reconcile_phase-Steps quote.phase r quote w refl found same)
        ])

  reconcile_stored-Steps :
      (r : ClaimRecord) (w : World)
      → find r.quote_hash w.claims ≡ some r
      → Steps w (reconcile_stored c r w).1
  unfolding reconcile_stored
  reconcile_stored-Steps r w found = elim (Bool-cases (given r.quote_id)) [
    | inl e ↦ rw e (
        after_check-Steps (ports.get_quote (text_of r.quote_id)) w _
          (λ quote asked. reconcile-Steps r quote w found))
    | inr e ↦ rw e here
  ]

  claim_existing-Steps :
      (r : ClaimRecord) (client : String) (w : World)
      → find r.quote_hash w.claims ≡ some r
      → Steps w (claim_existing c r client w).1
  unfolding claim_existing
  claim_existing-Steps r client w found =
      after_check-Steps (assert_owner c r client) w _ (λ _ owned.
        elim (Bool-cases (is_issued r.state || not (given r.quote_id))) [
          | inl e ↦ rw e here
          | inr e ↦ rw e (reconcile_stored-Steps r w found)
        ])

  module _ (quote_hash quote_id client network : String) (quote : MintQuoteView)
      (decoded : ParsedFiberInvoice) (checked : check_claim c quote_id ≡ ok (quote, decoded))
      (w : World) (fresh : find quote_hash w.claims ≡ none) where
    abbrev input : ReserveClaim
    input = reservation_of c quote_hash quote_id client network quote decoded

    reserved_claim-Steps :
        {x : Result Reservation × List ClaimRecord}
        → Reserving input clock.reserved w.claims x
        → reserve input clock.reserved w.claims ≡ x
        → Steps w (reserved_claim c client quote w x).1
    unfolding reserved_claim
    reserved_claim-Steps (refused e) same = here
    reserved_claim-Steps (on_record claim found) same = cc (fresh, found)
    reserved_claim-Steps (granted g) same =
        let new = new_claim input clock.reserved in
        let added : World = record w { claims = w.claims ++ new ∷ [] } in
        let step : Step w added =
          rw (← ap (λ (y : Result Reservation × List ClaimRecord). y.1) same)
            (reserves quote_hash quote_id client network quote decoded checked) in
        andthen (one step) (
          after_check-Steps (assert_owner c new client) added _ (λ _ owned.
            dispatch-Steps new added (find-new_claim input clock.reserved w.claims fresh)
              (first_attempt quote_id quote decoded checked refl refl refl)))

  claim_new-Steps :
      (quote_hash quote_id client network : String) (w : World)
      → find quote_hash w.claims ≡ none
      → Steps w (claim_new c quote_hash quote_id client network w).1
  unfolding claim_new
  claim_new-Steps quote_hash quote_id client network w fresh =
      after_check-Steps (check_claim c quote_id) w _ (λ checked e.
        reserved_claim-Steps quote_hash quote_id client network checked.0 checked.1 e w fresh
          (reserve-Reserving _ clock.reserved w.claims) refl)

  claim_found-Steps :
      (on_record : Option ClaimRecord) (quote_hash quote_id client network : String) (w : World)
      → find quote_hash w.claims ≡ on_record
      → Steps w (claim_found c on_record quote_hash quote_id client network w).1
  unfolding claim_found find
  claim_found-Steps none quote_hash quote_id client network w e =
      claim_new-Steps quote_hash quote_id client network w e
  claim_found-Steps (some r) quote_hash quote_id client network w e =
      let same : r.quote_hash ≡ quote_hash =
        (eq_iff r.quote_hash quote_hash).0 (select_match (is_quote quote_hash) w.claims e) in
      claim_existing-Steps r client w (subst (λ h. find h w.claims ≡ some r) (sym same) e)

  -- Whatever the mint and the Fiber node answer, a claim is a sequence of steps, each of which
  -- moves the state of a claim, reserves a new one after every test of its quote and invoice, or
  -- counts an attempt and sends one payment for a claim on record, and that only at once for a
  -- new claim, or once again for an unpaid quote in time, when the node knows no payment of it
  -- and the last attempt is old enough.
  pub claim_exclusive-Steps :
      (quote_hash quote_id client network : String) (w : World)
      → Steps w (claim_exclusive c quote_hash quote_id client network w).1
  unfolding claim_exclusive
  claim_exclusive-Steps quote_hash quote_id client network w =
      claim_found-Steps (find quote_hash w.claims) quote_hash quote_id client network w refl
