-- ===== src/Faucet/Upstream/Fiber.antt =====
-- `HttpFiberClient` of faucet/src/upstream.ts. `FiberRpcError` is kept apart from the other errors,
-- with the node's message, until the call that asked has looked at it.

use fibernuts.Common.{
  ℕ, String, Bool, true, false, not, Option, none, some, ltb, ◌==◌, str_eq, ◌||◌, if◌then◌else◌,
  Result, ok, err, fail, HttpError, throw_if, ◌>>=◌, ◌>>◌,
}
use fibernuts.Js.{
  Value, undefined, null, bool, num, nat, str, arr, obj, nil, cons, Props, property, keys, includes,
}
use fibernuts.Js.Text.{to_lower}
use text.Mathlib.Text.{starts_with}
use fibernuts.Faucet.Upstream.{
  FiberPaymentStatus, FiberPayment, ParsedFiberInvoice, Fetched, unreachable, answered, is_ok,
}
use fibernuts.Faucet.Upstream.Decode.{record_of, hex_integer, is_hash}
use fibernuts.Faucet.Upstream.Script.{invoice_udt_script}
use fibernuts.Faucet.Upstream.Mint.{response_json}

pub data RpcAnswer : Type 0 where
  result : Value → RpcAnswer
  rpc_error : (message : String) → RpcAnswer
  failed_call : HttpError → RpcAnswer

-- Whether a JSON value counts as true.
abbrev truthy : Value → Bool
truthy undefined = false
truthy null = false
truthy (bool b) = b
truthy (num (nat n)) = not (n == 0)
truthy (str s) = not (str_eq s "")
truthy _ = true

abbrev text_or_unknown : Value → String
text_or_unknown (str s) = s
text_or_unknown _ = "Unknown Fiber RPC error"

-- `envelope.error.message`.
abbrev message_of : Value → String
message_of (obj ps) = text_or_unknown (property "message" ps)
message_of _ = "Unknown Fiber RPC error"

abbrev envelope_answer : Props → RpcAnswer
envelope_answer ps =
    if truthy (property "error" ps)
    then rpc_error (message_of (property "error" ps))
    else if not (includes (keys ps) "result")
    then failed_call (record { status = 502; code = "fiber_response"; retry_after_seconds = none })
    else result (property "result" ps)

abbrev envelope_or_error : Result Props → RpcAnswer
envelope_or_error (ok ps) = envelope_answer ps
envelope_or_error (err e) = failed_call e

-- `call`, from what `fetch` answered.
unfoldable pub rpc_answer : Fetched → RpcAnswer
rpc_answer unreachable =
    failed_call (record { status = 502; code = "fiber_unavailable"; retry_after_seconds = none })
rpc_answer (answered status body) =
    if not (is_ok status)
    then failed_call
        (record { status = 502; code = "fiber_unavailable"; retry_after_seconds = none })
    else envelope_or_error (response_json body >>= record_of)

-- An `RpcAnswer` as it is thrown: a `FiberRpcError` is an `HttpError`.
abbrev pub thrown : RpcAnswer → Result Value
thrown (result v) = ok v
thrown (rpc_error message) = fail 502 "fiber_rpc"
thrown (failed_call e) = err e

abbrev status_named : String → Option FiberPaymentStatus
status_named s =
    if str_eq s "Created"
    then some FiberPaymentStatus.created
    else if str_eq s "Inflight"
    then some FiberPaymentStatus.inflight
    else if str_eq s "Success"
    then some FiberPaymentStatus.success
    else if str_eq s "Failed"
    then some FiberPaymentStatus.failed
    else none

-- `String(value)` where it can be a name of a status: of an array of one element it is that of the
-- element.
unfoldable pub status_text : Value → String
status_text (str s) = s
status_text (arr (cons v nil)) = status_text v
status_text _ = ""

-- A status that is an array passes the test of the names, and is then neither "Success" nor
-- "Failed" to those who compare it, as an inflight payment is.
abbrev inflight_if : Option FiberPaymentStatus → Option FiberPaymentStatus
inflight_if none = none
inflight_if (some s) = some FiberPaymentStatus.inflight

unfoldable pub payment_status : Value → Option FiberPaymentStatus
payment_status (str s) = status_named s
payment_status v = inflight_if (status_named (status_text v))

abbrev required_status : Option FiberPaymentStatus → Result FiberPaymentStatus
required_status none = fail 502 "fiber_response"
required_status (some s) = ok s

-- A text of the pattern of a hash, in lower case.
abbrev hash_of : Value → Result String
hash_of (str s) = if is_hash s then ok (to_lower s) else fail 502 "fiber_response"
hash_of _ = fail 502 "fiber_response"

abbrev currency_of : Value → Result String
currency_of (str s) = ok s
currency_of _ = fail 502 "fiber_response"

-- `includes("payment session not found")`.
unfoldable pub contains : String → String → Bool
contains String.[] t = str_eq t ""
contains (String.◌∷◌ c s) t = starts_with (String.◌∷◌ c s) t || contains s t

module _ (max_fee : ℕ) where
  -- `payment`.
  unfoldable pub payment_of : Value → Result FiberPayment
  payment_of v = do
    ps ← record_of v
    payment_hash ← hash_of (property "payment_hash" ps)
    status ← required_status (payment_status (property "status" ps))
    fee ← hex_integer (property "fee" ps)
    throw_if (ltb max_fee fee) 502 "fee_exceeded"
    ok (record { payment_hash = payment_hash; status = status; fee = fee })

  abbrev payment_or_none : RpcAnswer → Result (Option FiberPayment)
  payment_or_none (rpc_error message) =
      if contains (to_lower message) "payment session not found"
      then ok none
      else fail 502 "fiber_rpc"
  payment_or_none answer = (do v ← thrown answer; p ← payment_of v; ok (some p))

  -- `getPayment` and `sendPayment`, from what the node answered.
  unfoldable pub get_payment : Fetched → Result (Option FiberPayment)
  get_payment fetched = payment_or_none (rpc_answer fetched)

  unfoldable pub send_payment : Fetched → Result FiberPayment
  send_payment fetched = thrown (rpc_answer fetched) >>= payment_of

-- What `parseInvoice` reads of the node's result.
unfoldable pub invoice_of : Value → Result ParsedFiberInvoice
invoice_of v = do
  outer ← record_of v
  decoded ← record_of (property "invoice" outer)
  fields ← record_of (property "data" decoded)
  payment_hash ← hash_of (property "payment_hash" fields)
  currency ← currency_of (property "currency" decoded)
  amount ← hex_integer (property "amount" decoded)
  udt_script ← invoice_udt_script (property "attrs" fields)
  ok (record {
    payment_hash = payment_hash;
    currency = currency;
    amount = amount;
    udt_script = udt_script;
  })

unfoldable pub parse_invoice : Fetched → Result ParsedFiberInvoice
parse_invoice fetched = thrown (rpc_answer fetched) >>= invoice_of
