-- ===== src/Faucet/Service/Reconcile.antt =====
-- `reconcile` and `reconcileStored` of faucet/src/service.ts, with the tests that they make.
use fibernuts.Common.{
  ◌+◌, String, Bool, true, false, not, Option, none, some, leb, ltb, ◌==◌, str_eq, ◌&&◌, ◌||◌,
  if◌then◌else◌, Result, ok, err, throw_if, ◌>>◌,
}
use fibernuts.Js.Text.{to_lower}
use text.Mathlib.Text.{starts_with}
use fibernuts.Faucet.Store.{paid, issued, failed, recoverable, ClaimRecord, column_is}
use fibernuts.Faucet.Upstream.{QuotePhase, MintQuoteView, FiberPayment}
use fibernuts.Faucet.Service.{
  Context, World, Answer, result, given, text_of, settle, apply_payment, dispatch, after_check,
  is_failed,
}

module _ (c : Context) where
  open c use {config, ports, clock}

  -- `expectedId !== undefined && quote.quoteId !== expectedId`.
  abbrev other_quote : Option String → MintQuoteView → Bool
  other_quote none quote = false
  other_quote (some id) quote = not (str_eq quote.quote_id id)

  unfoldable pub validate_quote : MintQuoteView → Option String → Result (Unit {0})
  validate_quote quote expected = do
    throw_if
        (other_quote expected quote
          || not (quote.amount == config.amount)
          || not (str_eq quote.unit config.unit))
        422 "quote_mismatch"
    throw_if (not (starts_with (to_lower quote.invoice) "fibt1")) 422 "wrong_network"

  -- `assertOwner`.
  unfoldable pub assert_owner : ClaimRecord → String → Result (Unit {0})
  assert_owner r client =
      throw_if (given r.client_hash && not (column_is r.client_hash client)) 404 "claim_not_found"

  -- A stored column that is not null and is no longer what the quote says.
  abbrev differs : Option String → Option String → Bool
  differs none now = false
  differs (some s) none = true
  differs (some s) (some t) = not (str_eq t s)

  unfoldable pub quote_changed : ClaimRecord → MintQuoteView → Bool
  quote_changed r quote =
      differs r.invoice (some quote.invoice)
      || differs r.quote_pubkey quote.pubkey
      || not (quote.expiry == r.expiry)

  unfoldable pub attempted_recently : ClaimRecord → Bool
  attempted_recently r = elim r.attempted_at [
    | none ↦ false
    | some t ↦ ltb clock.checked (t + config.recovery_delay_seconds)
  ]

  -- `reconcile` where the Fiber node knows no payment of the claim.
  unfoldable pub retry_claim : ClaimRecord → MintQuoteView → World → Answer
  unfolding attempted_recently
  retry_claim r quote w =
      if column_is r.failure_code "payment_hash_mismatch"
      then (ok (result r (some 30)), w)
      else if attempted_recently r
      then settle c r.quote_hash recoverable (some "dispatch_unconfirmed")
          (some config.recovery_delay_seconds) w
      else if leb quote.expiry clock.checked
      then settle c r.quote_hash failed (some "quote_expired") none w
      else if leb 2 r.attempt_count || not (given r.invoice)
      then settle c r.quote_hash recoverable (some "manual_review_required") (some 30) w
      else dispatch c r w

  unfoldable pub checked_payment :
      ClaimRecord → MintQuoteView → Result (Option FiberPayment) → World → Answer
  checked_payment r quote (err e) w =
      settle c r.quote_hash recoverable (some "payment_check_unknown") (some 10) w
  checked_payment r quote (ok none) w = retry_claim r quote w
  checked_payment r quote (ok (some payment)) w =
      if not (str_eq payment.payment_hash (text_of r.payment_hash))
      then settle c r.quote_hash recoverable (some "payment_hash_mismatch") (some 30) w
      else apply_payment c r payment w

  -- `reconcile` of a quote that the mint has not seen paid.
  unfoldable pub reconcile_unpaid : ClaimRecord → MintQuoteView → World → Answer
  reconcile_unpaid r quote w =
      if is_failed r.state
      then (ok (result r none), w)
      else if not (given r.payment_hash)
      then settle c r.quote_hash recoverable (some "missing_payment_hash") (some 10) w
      else checked_payment r quote (ports.get_payment (text_of r.payment_hash)) w

  unfoldable pub reconcile_phase : QuotePhase → ClaimRecord → MintQuoteView → World → Answer
  reconcile_phase QuotePhase.issued r quote w = settle c r.quote_hash issued none none w
  reconcile_phase QuotePhase.paid r quote w = settle c r.quote_hash paid none (some 2) w
  reconcile_phase QuotePhase.unpaid r quote w = reconcile_unpaid r quote w

  unfoldable pub reconcile : ClaimRecord → MintQuoteView → World → Answer
  unfolding reconcile_phase
  reconcile r quote w = after_check (validate_quote quote r.quote_id) w (λ _.
      if quote_changed r quote
      then settle c r.quote_hash recoverable (some "quote_changed") (some 30) w
      else reconcile_phase quote.phase r quote w)

  unfoldable pub reconcile_stored : ClaimRecord → World → Answer
  reconcile_stored r w =
      if not (given r.quote_id)
      then (ok (result r none), w)
      else after_check (ports.get_quote (text_of r.quote_id)) w (λ quote. reconcile r quote w)
