-- ===== src/Faucet/Tests.antt =====
-- Runs of the faucet (faucet/src) at a concrete configuration, quote and invoice, with the text itself
-- for its HMAC.
use fibernuts.Common.{
  ℕ, zero, suc, ◌-◌, ◌≤◌, String, true, false, none, some, List, [], ◌∷◌, ◌≡◌, refl, ok, arith, All,
}
use fibernuts.Table.{select, count}
use fibernuts.Js.{Value, num, nat, str, obj, arr, cons, nil, prop, end, max_safe_integer}
use fibernuts.Js.Table.{Table}
use fibernuts.Http.{Request}
use fibernuts.Http.Rate.Bounds.{seen}
use fibernuts.Faucet.Protocol.{start_of_utc_day, next_utc_day, day_seconds}
use fibernuts.Faucet.Store.{ClaimState, ClaimRecord, ReserveClaim, find, reserve, scrub, new_claim}
use fibernuts.Faucet.Store.Reserving.{Reserving, reserve-Reserving, Granted}
use fibernuts.Faucet.Store.Limits.{WithinLimits}
use fibernuts.Faucet.Upstream.{
  QuotePhase, MintQuoteView, FiberPaymentStatus, FiberPayment, HashType, FiberUdtScript,
  ParsedFiberInvoice, Ports, Fetched, answered,
}
use fibernuts.Faucet.Upstream.Script.{PackedScript, script_of_bytes}
use fibernuts.Faucet.Upstream.Packing.{pack, script_of_bytes-pack}
use fibernuts.Faucet.Upstream.Mint.{get_quote}
use fibernuts.Faucet.Upstream.Fiber.{send_payment}
use fibernuts.Faucet.Upstream.Answers.{send_payment-le-max_fee}
use fibernuts.Faucet.Service.{FaucetConfig, Clock, Context, World}
use fibernuts.Faucet.Service.Claims.{
  check_claim, claim_exclusive, ClaimCall, ClaimStart, start_claim, quote_hash_of,
}
use fibernuts.Faucet.Service.Pays.{claim_exclusive-sent}
use fibernuts.Faucet.Service.Steps.{Steps, claim_exclusive-Steps}
use fibernuts.Faucet.Service.Attempts.{Accounted, sends}
use fibernuts.Faucet.Service.InFlight.{
  FlightEvent, begins, ends, starts, runs_claim, ends_claim, runs-exclusive,
}
use fibernuts.Faucet.Server.{ServerConfig, State}
use fibernuts.Faucet.Server.Limits.{admitted, admitted-le-limit}
use fibernuts.Faucet.Server.Keeps.{Sound, Arrival, serve, serve-Sound}

abbrev hmac : String → String → String
hmac secret text = text

abbrev udt : FiberUdtScript
udt = record { code_hash = "0x11"; hash_type = HashType.type_hash; args = "0x87" }

abbrev settings : FaucetConfig
settings = record {
  enabled = true;
  amount = 1000;
  unit = "rusd";
  unit_scale = 1_000_000;
  invoice_currency = "Fibt";
  udt_script = udt;
  client_cooldown_seconds = 86_400;
  network_daily_claim_limit = 3;
  daily_claim_limit = 25;
  recovery_delay_seconds = 10;
}

abbrev quote : MintQuoteView
quote = record {
  quote_id = "quote-01";
  invoice = "fibt1invoice";
  amount = 1000;
  unit = "rusd";
  pubkey = some "02aa";
  expiry = 9000;
  phase = QuotePhase.unpaid;
}

abbrev payment : FiberPayment
payment = record { payment_hash = "0xabc"; status = FiberPaymentStatus.success; fee = 3 }

abbrev ports : Ports
ports = record {
  get_quote = λ id. ok quote;
  parse_invoice = λ invoice. ok (record {
    payment_hash = "0xabc";
    currency = "Fibt";
    amount = 1_000_000_000;
    udt_script = some udt;
  });
  get_payment = λ hash. ok none;
  send_payment = λ invoice. ok payment;
}

abbrev clock : Clock
clock = record { checked = 5000; reserved = 5001; attempted = 5002; settled_at = 5003 }

abbrev context : Context
context = record { config = settings; ports = ports; clock = clock }

abbrev nothing_yet : World
nothing_yet = record { claims = []; sent = [] }

nothing_yet-Accounted : Accounted nothing_yet
unfolding sends find select
nothing_yet-Accounted hash = (refl, omega arith)

nothing-WithinLimits : WithinLimits 86_400 3 25 []
unfolding count
nothing-WithinLimits = record {
  quotes = tt;
  payments = tt;
  rested = tt;
  each_network = λ n d. omega arith;
  each_day = λ d. omega arith;
}

abbrev input : ReserveClaim
input = record {
  quote_hash = "hash";
  quote_id = "quote-01";
  invoice = "fibt1invoice";
  payment_hash = "0xabc";
  quote_pubkey = "02aa";
  client_hash = "browser";
  network_hash = "network";
  amount = 1000;
  unit = "rusd";
  expiry = 9000;
  cooldown_seconds = 86_400;
  network_daily_limit = 3;
  daily_limit = 25;
}

input-Granted : Granted input 5001 []
unfolding find select fibernuts.Faucet.Store.latest count fibernuts.Faucet.Store.insert_allowed
input-Granted = record {
  fresh = refl;
  rested = refl;
  network = omega arith;
  daily = omega arith;
  allowed = refl;
}

quote_passes :
    check_claim context "quote-01"
    ≡ ok (
      quote,
      record {
        payment_hash = "0xabc";
        currency = "Fibt";
        amount = 1_000_000_000;
        udt_script = some udt;
      },
    )
unfolding check_claim fibernuts.Faucet.Service.Claims.quote_claimable
    fibernuts.Faucet.Service.Reconcile.validate_quote fibernuts.Js.Text.to_lower
    fibernuts.Faucet.Service.Claims.invoice_matches fibernuts.Faucet.Service.same_udt_script
quote_passes = refl

claim_exclusive-sent_example :
    (claim_exclusive context "hash" "quote-01" "browser" "network" nothing_yet).1.sent
    ≡ ("hash", "fibt1invoice") ∷ []
claim_exclusive-sent_example =
    claim_exclusive-sent context "hash" "quote-01" "browser" "network" quote
      (record {
        payment_hash = "0xabc";
        currency = "Fibt";
        amount = 1_000_000_000;
        udt_script = some udt;
      })
      nothing_yet quote_passes input-Granted refl refl

claim_exclusive-Steps_example :
    Steps context nothing_yet
      (claim_exclusive context "hash" "quote-01" "browser" "network" nothing_yet).1
claim_exclusive-Steps_example =
    claim_exclusive-Steps context "hash" "quote-01" "browser" "network" nothing_yet

reserve-Reserving_example : Reserving input 5001 [] (reserve input 5001 [])
reserve-Reserving_example = reserve-Reserving input 5001 []

abbrev one_claim : List ClaimRecord
one_claim = new_claim input 5001 ∷ []

abbrev call : ClaimCall
call = record { quote_id = "quote-01"; client_id = "browser"; network_id = "network" }

abbrev later_events : List FlightEvent
later_events = begins call ∷ ends "other" ∷ begins call ∷ []

call_runs :
    runs_claim (quote_hash_of hmac "secret" call) (start_claim hmac "secret" call []).0 ≡ true
unfolding start_claim fibernuts.Js.Table.get fibernuts.Faucet.Protocol.identifier_hash
call_runs = refl

still_runs : All (λ e. ends_claim (quote_hash_of hmac "secret" call) e ≡ false) later_events
unfolding fibernuts.Faucet.Protocol.identifier_hash
still_runs = (refl, (refl, (refl, tt)))

runs-exclusive_example :
    All
      (λ s. runs_claim (quote_hash_of hmac "secret" call) s ≡ false)
      (starts hmac "secret" later_events (start_claim hmac "secret" call []).1)
runs-exclusive_example = runs-exclusive hmac "secret" call [] later_events call_runs still_runs

abbrev server : ServerConfig
server = record {
  allowed_origins = [];
  trust_proxy = false;
  max_requests_per_minute = 2;
  body_limit_bytes = 4096;
  identifier_secret = "secret";
  mint_url = "https://mint.example";
}

abbrev claim_request : Request
claim_request = record {
  method = "POST";
  pathname = "/v1/claims";
  search = "";
  origin = none;
  authorization = none;
  content_type = some "application/json";
  forwarded_for = none;
  remote_address = some "10.0.0.1";
  chunks = 120 ∷ [];
  json = some (
      obj (
        prop "quote_id" (str "quote-01")
          (prop "client_id" (str "ccccccccccccccccccccccccccccccccccccccccccc") end)));
}

abbrev arrival : Arrival
arrival = record { request = claim_request; ports = ports; clock = clock; now = 5000 }

abbrev start : State
start = record { rate = []; world = nothing_yet }

serve-Sound_example :
    Sound settings (serve settings hmac server (arrival ∷ arrival ∷ []) start).world
serve-Sound_example =
    serve-Sound settings hmac server (arrival ∷ arrival ∷ []) start
      (record { accounted = nothing_yet-Accounted; limits = nothing-WithinLimits })

admitted-le-limit_example :
    admitted 2 83 "key" ("key" ∷ "other" ∷ "key" ∷ "key" ∷ []) [] ≤ 2 - seen 83 "key" []
admitted-le-limit_example = admitted-le-limit 2 83 "key" ("key" ∷ "other" ∷ "key" ∷ "key" ∷ []) []

abbrev bytes : ℕ → List ℕ
bytes zero = []
bytes (suc n) = 17 ∷ bytes n

abbrev packed : PackedScript
packed = record { code_hash = bytes 32; hash_type = HashType.type_hash; args = 1 ∷ 2 ∷ 3 ∷ [] }

script_of_bytes-pack_example : script_of_bytes (pack packed) ≡ ok packed
script_of_bytes-pack_example = script_of_bytes-pack packed refl (omega arith)

abbrev quote_json : Value
quote_json = obj (
    prop "quote" (str "quote-01") (
      prop "request" (str "fibt1invoice0000") (
        prop "amount" (num (nat 1000)) (
          prop "unit" (str "RUSD")
            (prop "expiry" (num (nat 9000)) (prop "state" (str "UNPAID") end))))))

abbrev seen_quote : MintQuoteView
seen_quote = record {
  quote_id = "quote-01";
  invoice = "fibt1invoice0000";
  amount = 1000;
  unit = "rusd";
  pubkey = none;
  expiry = 9000;
  phase = QuotePhase.unpaid;
}

mint_answers :
    get_quote (λ url. answered 200 (some quote_json)) (λ s. s) "https://mint.example" "quote-01"
    ≡ ok seen_quote
unfolding get_quote fibernuts.Faucet.Upstream.Mint.view_quote
    fibernuts.Faucet.Upstream.Decode.integer_like fibernuts.Js.property
    fibernuts.Js.Text.utf16_length fibernuts.Js.Text.to_lower
    fibernuts.Faucet.Upstream.Mint.phase_of fibernuts.Faucet.Upstream.Mint.view_fields
mint_answers = refl

abbrev payment_json : Value
payment_json = obj (
    prop "result"
      (obj (
        prop "payment_hash"
          (str "0xaaaaaaaaaaaaaaaaaaaaaaaaaaaaaaaaaaaaaaaaaaaaaaaaaaaaaaaaaaaaaaaa")
          (prop "status" (str "Success") (prop "fee" (str "0x3") end))))
      end)

abbrev sent_payment : FiberPayment
sent_payment = record {
  payment_hash = "0xaaaaaaaaaaaaaaaaaaaaaaaaaaaaaaaaaaaaaaaaaaaaaaaaaaaaaaaaaaaaaaaa";
  status = FiberPaymentStatus.success;
  fee = 3;
}

node_answers : send_payment 5 (answered 200 (some payment_json)) ≡ ok sent_payment
unfolding send_payment fibernuts.Faucet.Upstream.Fiber.rpc_answer fibernuts.Js.property
    fibernuts.Js.includes fibernuts.Js.keys fibernuts.Faucet.Upstream.Fiber.payment_of
    fibernuts.Faucet.Upstream.Decode.is_hash fibernuts.Js.Text.after_prefix
    fibernuts.Js.Text.to_lower fibernuts.Js.Text.matches fibernuts.Js.Text.every_char
    fibernuts.Js.Text.is_lower_hex fibernuts.Js.Text.utf16_length
    fibernuts.Faucet.Upstream.Fiber.payment_status fibernuts.Faucet.Upstream.Decode.hex_integer
    fibernuts.Faucet.Upstream.Decode.hex_from fibernuts.Faucet.Upstream.Decode.hex_digit
node_answers = refl

send_payment-le-max_fee_example : sent_payment.fee ≤ 5
send_payment-le-max_fee_example =
    send_payment-le-max_fee 5 (answered 200 (some payment_json)) node_answers
