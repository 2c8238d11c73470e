-- ===== src/Faucet/Service/Pays.antt =====
-- When a new claim is paid: `claimExclusive` of faucet/src/service.ts where every test passes.
use fibernuts.Common.{
  ℕ, String, true, Option, some, List, [], ◌∷◌, ◌++◌, ◌≡◌, refl, ap, ◌∙◌, arith, eq_iff, str_eq,
  Bool-cases, inl, inr, Result, ok, err,
}
use fibernuts.Faucet.Store.{ClaimState, ClaimRecord, find, mark_attempt, transition, new_claim}
use fibernuts.Faucet.Store.Reserving.{Granted, reserve-Granted, find-new_claim}
use fibernuts.Faucet.Upstream.{MintQuoteView, ParsedFiberInvoice, FiberPayment}
use fibernuts.Faucet.Service.{
  reply_with, Context, World, Answer, given, text_of, settle, dispatch, send_marked, sent_payment,
  recover_unknown, apply_payment,
}
use fibernuts.Faucet.Service.Reconcile.{assert_owner}
use fibernuts.Faucet.Service.Claims.{
  check_claim, reservation_of, reserved_claim, claim_new, claim_found, claim_exclusive,
}
use fibernuts.Faucet.Service.Steps.{mark_attempt-found}

module _ (c : Context) where
  open c use {config, ports, clock}

  settle-sent :
      (hash : String) (state : ClaimState) (code : Option String) (retry : Option ℕ) (w : World)
      → (settle c hash state code retry w).1.sent ≡ w.sent
  settle-sent hash state code retry w =
      of_reply (transition hash state code clock.settled_at w.claims)
    where
      of_reply :
          (x : Result ClaimRecord × List ClaimRecord) → (reply_with retry w x).1.sent ≡ w.sent
      of_reply (ok r, claims) = refl
      of_reply (err e, claims) = refl

  sent_payment-sent :
      (input marked : ClaimRecord) (answer : Result FiberPayment) (w : World)
      → (sent_payment c input marked answer w).1.sent ≡ w.sent
  unfolding sent_payment apply_payment
  sent_payment-sent input marked (err e) w = refl
  sent_payment-sent input marked (ok payment) w =
      elim (Bool-cases (str_eq payment.payment_hash (text_of input.payment_hash))) [
        | inl e ↦ rw e (settle-sent _ _ _ _ w)
        | inr e ↦ rw e (settle-sent _ _ _ _ w)
      ]

  recover_unknown-sent : (hash : String) (x : Answer) → (recover_unknown c hash x).1.sent ≡ x.1.sent
  recover_unknown-sent hash (ok a, w) = refl
  recover_unknown-sent hash (err e, w) = settle-sent _ _ _ _ w

  -- A claim on record with an invoice and a payment hash is paid.
  dispatch-sent :
      (r : ClaimRecord) (w : World)
      → find r.quote_hash w.claims ≡ some r
      → given r.invoice ≡ true
      → given r.payment_hash ≡ true
      → (dispatch c r w).1.sent ≡ (r.quote_hash, text_of r.invoice) ∷ w.sent
  unfolding dispatch send_marked
  dispatch-sent r w found invoice hash =
      rw (invoice, hash) (of_mark (mark_attempt r.quote_hash clock.attempted w.claims) refl)
    where
      of_mark :
          (x : Result ClaimRecord × List ClaimRecord)
          → mark_attempt r.quote_hash clock.attempted w.claims ≡ x
          → (send_marked c r w x).1.sent ≡ (r.quote_hash, text_of r.invoice) ∷ w.sent
      of_mark (err e, claims) same = cc (
        mark_attempt-found c r clock.attempted w.claims found,
        ap (λ (y : Result ClaimRecord × List ClaimRecord). y.0) same,
      )
      of_mark (ok marked, claims) same =
          recover_unknown-sent r.quote_hash (
            sent_payment c r marked (ports.send_payment (text_of r.invoice))
              (record { claims = claims; sent = (r.quote_hash, text_of r.invoice) ∷ w.sent }))
          ∙ sent_payment-sent r marked (ports.send_payment (text_of r.invoice))
              (record { claims = claims; sent = (r.quote_hash, text_of r.invoice) ∷ w.sent })

  owner :
      (r : ClaimRecord) (client : String)
      → r.client_hash ≡ some client
      → assert_owner c r client ≡ ok tt
  unfolding assert_owner
  owner r client mine = rw mine (ground (arith, eq_iff client client))

  module _ (quote_hash quote_id client network : String) (quote : MintQuoteView)
      (decoded : ParsedFiberInvoice) (w : World) where
    -- A claim of a quote that is not on record is paid at once, if its quote and its invoice pass every
    -- test, the limits grant the reservation, and the invoice and the payment hash are not empty:
    -- the quote's invoice is sent to the Fiber node, whatever the node then answers.
    pub claim_exclusive-sent :
        check_claim c quote_id ≡ ok (quote, decoded)
        → Granted
            (reservation_of c quote_hash quote_id client network quote decoded)
            clock.reserved
            w.claims
        → given (some quote.invoice) ≡ true
        → given (some decoded.payment_hash) ≡ true
        → (claim_exclusive c quote_hash quote_id client network w).1.sent
          ≡ (quote_hash, quote.invoice) ∷ w.sent
    unfolding claim_exclusive claim_found claim_new reserved_claim
    claim_exclusive-sent checked granted invoice hash =
        let input = reservation_of c quote_hash quote_id client network quote decoded in
        let new = new_claim input clock.reserved in
        rw
          (
            granted.fresh,
            checked,
            reserve-Granted input clock.reserved w.claims granted,
            owner new client refl,
          )
          (dispatch-sent new (record { claims = w.claims ++ new ∷ []; sent = w.sent })
            (find-new_claim input clock.reserved w.claims granted.fresh) invoice hash)
