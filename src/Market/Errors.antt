-- ===== src/Market/Errors.antt =====
-- What the code of market/src throws, and market/src/domain/errors.ts, which makes a message of it.
use Prim.Native.Char.{code}
use fibernuts.Common.{
  Throwing, ok, err, Option, ℕ, ◌-◌, String, Bool, ltb, str_eq, if◌then◌else◌, throw_when,
}
use fibernuts.Js.Text.{◌⧺◌, utf16_length}
use fibernuts.Wallet.PaymentRequest.{RequestError, Outcome}

-- An `Error` by its text, the errors of wallet/src/lib/payment-request.ts, a `RelayError` by its text
-- and the status of the relay's answer, and a `MarketStorageError` by its text.
pub data Failure : Type 0 where
  plain_error : String → Failure
  request_error : RequestError → Failure
  relay_error : String → Option ℕ → Failure
  storage_error : String → Failure

abbrev pub Attempt {ℓ} : Type ℓ → Type ℓ
Attempt A = Throwing Failure A

abbrev pub refuse_if : Bool → String → Attempt (Unit {0})
refuse_if bad text = throw_when bad (plain_error text)

abbrev pub of_request {ℓ} : {A : Type ℓ} → Outcome A → Attempt A
of_request (ok a) = ok a
of_request (err e) = err (request_error e)

-- `s.slice(0, n)`, where a pair of surrogates that does not fit whole is left out.
unfoldable pub take_units : ℕ → String → String
take_units n String.[] = ""
take_units n (String.◌∷◌ c s) =
    let width = if ltb (code c) 0x10000 then 1 else 2 in
    let rest = take_units (n - width) s in if ltb n width then "" else String.◌∷◌ c rest

-- `safeErrorMessage`: `message` is the text of an error, and `redact` replaces each of the
-- `SENSITIVE_PATTERNS` in it.
module _ (message : Failure → String) (redact : String → String) where
  unfoldable pub safe_error_message : Failure → String
  safe_error_message reason =
      let raw = message reason in
      let safe = redact (if str_eq raw "" then "The operation could not be completed." else raw) in
      if ltb 500 (utf16_length safe) then take_units 497 safe ⧺ "..." else safe
