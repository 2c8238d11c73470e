-- ===== src/Faucet/Service/Claims.antt =====
-- `claimExclusive` of faucet/src/service.ts.
use fibernuts.Common.{
  HttpError, ◌+◌, ◌*◌, String, Bool, true, false, not, Option, none, some, List, leb, ◌==◌, str_eq,
  ◌&&◌, ◌||◌, if◌then◌else◌, Result, ok, err, throw_if, ◌>>=◌, ◌>>◌,
}
use fibernuts.Js.Table.{Table, get, set, remove}
use fibernuts.Faucet.Protocol.{identifier_hash}
use fibernuts.Faucet.Store.{ClaimRecord, ReserveClaim, Reservation, find, reserve, is_issued}
use fibernuts.Faucet.Upstream.{QuotePhase, MintQuoteView, ParsedFiberInvoice}
use fibernuts.Faucet.Service.{
  Context, World, Answer, result, same_udt_script, given, text_of, dispatch, after_check,
}
use fibernuts.Faucet.Service.Reconcile.{validate_quote, assert_owner, reconcile, reconcile_stored}

module _ (c : Context) where
  open c use {config, ports, clock}

  -- `claimExclusive` where the claim is on record.
  unfoldable pub claim_existing : ClaimRecord → String → World → Answer
  claim_existing r client w = after_check (assert_owner c r client) w (λ _.
      if is_issued r.state || not (given r.quote_id)
      then (ok (result r none), w)
      else reconcile_stored c r w)

  abbrev is_unpaid : QuotePhase → Bool
  is_unpaid QuotePhase.unpaid = true
  is_unpaid _ = false

  -- What a new claim requires of its quote before the invoice is decoded.
  unfoldable pub quote_claimable : MintQuoteView → Result (Unit {0})
  quote_claimable quote = do
    validate_quote c quote none
    throw_if (not (given quote.pubkey)) 422 "quote_unlocked"
    throw_if (not (is_unpaid quote.phase)) 409 "quote_already_funded"
    throw_if (leb quote.expiry (clock.checked + 15)) 410 "quote_expired"

  unfoldable pub invoice_matches : ParsedFiberInvoice → Bool
  invoice_matches decoded =
      str_eq decoded.currency config.invoice_currency
      && (decoded.amount == config.amount * config.unit_scale)
      && same_udt_script decoded.udt_script config.udt_script

  -- The reads and tests of a claim that is not on record: its quote and its decoded invoice.
  unfoldable pub check_claim : String → Result (MintQuoteView × ParsedFiberInvoice)
  check_claim quote_id = do
    throw_if (not config.enabled) 503 "faucet_paused"
    quote ← ports.get_quote quote_id
    quote_claimable quote
    decoded ← ports.parse_invoice quote.invoice
    throw_if (not (invoice_matches decoded)) 422 "invoice_mismatch"
    ok (quote, decoded)

  abbrev pub reservation_of :
      String → String → String → String → MintQuoteView → ParsedFiberInvoice → ReserveClaim
  reservation_of quote_hash quote_id client network quote decoded = record {
    quote_hash = quote_hash;
    quote_id = quote_id;
    invoice = quote.invoice;
    payment_hash = decoded.payment_hash;
    quote_pubkey = text_of quote.pubkey;
    client_hash = client;
    network_hash = network;
    amount = quote.amount;
    unit = quote.unit;
    expiry = quote.expiry;
    cooldown_seconds = config.client_cooldown_seconds;
    network_daily_limit = config.network_daily_claim_limit;
    daily_limit = config.daily_claim_limit;
  }

  unfoldable pub reserved_claim :
      String → MintQuoteView → World → Result Reservation × List ClaimRecord → Answer
  reserved_claim client quote w (err e, claims) = (err e, record w { claims = claims })
  reserved_claim client quote w (ok reserved, claims) =
      let w' = record w { claims = claims } in
      after_check (assert_owner c reserved.claim client) w' (λ _.
        if reserved.created
        then dispatch c reserved.claim w'
        else reconcile c reserved.claim quote w')

  unfoldable pub claim_new : String → String → String → String → World → Answer
  unfolding reserved_claim
  claim_new quote_hash quote_id client network w = after_check (check_claim quote_id) w (λ checked.
      reserved_claim client checked.0 w (
        reserve (reservation_of quote_hash quote_id client network checked.0 checked.1)
          clock.reserved w.claims))

  unfoldable pub claim_found :
      Option ClaimRecord → String → String → String → String → World → Answer
  claim_found (some existing) quote_hash quote_id client network w =
      claim_existing existing client w
  claim_found none quote_hash quote_id client network w =
      claim_new quote_hash quote_id client network w

  -- `claimExclusive`.
  unfoldable pub claim_exclusive : String → String → String → String → World → Answer
  unfolding claim_found
  claim_exclusive quote_hash quote_id client network w =
      claim_found (find quote_hash w.claims) quote_hash quote_id client network w

-- What `claim` does at once: it rejects, answers with the claim that is running, or runs one.
pub data ClaimStart : Type 0 where
  rejects : HttpError → ClaimStart
  joins : (quote_hash : String) → ClaimStart
  runs : (quote_hash quote_id client network : String) → ClaimStart

pub record ClaimCall : Type 0 where
  pub quote_id : String
  pub client_id : String
  pub network_id : String

-- The `finally` of a claim's task.
unfoldable pub finish_claim : String → Table String → Table String
finish_claim quote_hash in_flight = remove quote_hash in_flight

module _ (hmac : String → String → String) (secret : String) where
  abbrev pub quote_hash_of : ClaimCall → String
  quote_hash_of call = identifier_hash hmac secret "quote" call.quote_id

  -- `this.inFlight`: the browser of each claim that runs, by its quote.
  abbrev start_for : Option String → String → ClaimCall → Table String → ClaimStart × Table String
  start_for none client call in_flight = (
    runs (quote_hash_of call) call.quote_id client
        (identifier_hash hmac secret "network" call.network_id),
    set (quote_hash_of call) client in_flight,
  )
  start_for (some active) client call in_flight =
      if not (str_eq active client)
      then (
        rejects (record { status = 404; code = "claim_not_found"; retry_after_seconds = none }),
        in_flight,
      )
      else (joins (quote_hash_of call), in_flight)

  -- `claim`.
  unfoldable pub start_claim : ClaimCall → Table String → ClaimStart × Table String
  start_claim call in_flight =
      start_for (get (quote_hash_of call) in_flight)
        (identifier_hash hmac secret "client" call.client_id) call in_flight

-- `claim` where no other claim of the quote runs.
unfoldable pub claim_alone :
    Context → (String → String → String) → String → ClaimCall → World → Answer
claim_alone c hmac secret call w =
    claim_exclusive c (quote_hash_of hmac secret call) call.quote_id
      (identifier_hash hmac secret "client" call.client_id)
      (identifier_hash hmac secret "network" call.network_id) w
