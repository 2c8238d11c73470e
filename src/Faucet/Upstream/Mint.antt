-- ===== src/Faucet/Upstream/Mint.antt =====
-- `HttpMintClient` of faucet/src/upstream.ts.
use fibernuts.Common.{
  ℕ, String, Bool, true, false, not, Option, none, some, ltb, leb, ◌==◌, str_eq, ◌&&◌, ◌||◌,
  if◌then◌else◌, Result, ok, fail, throw_if, ◌>>=◌, ◌>>◌,
}
use fibernuts.Js.{Value, str, undefined, Props, property, safe_natural, is_undefined}
use fibernuts.Js.Text.{to_lower, matches, is_lower_hex, utf16_length, ◌⧺◌}
use text.Mathlib.Text.{starts_with}
use fibernuts.Faucet.Upstream.{QuotePhase, MintQuoteView, Fetched, unreachable, answered, is_ok}
use fibernuts.Faucet.Upstream.Decode.{record_of, integer_like}

abbrev is_text : Value → String → Bool
is_text (str s) t = str_eq s t
is_text _ t = false

abbrev string_or : String → Value → String
string_or d (str s) = s
string_or d _ = d

abbrev is_invoice : Value → Bool
is_invoice (str s) = leb 16 (utf16_length s) && leb (utf16_length s) 8192
is_invoice _ = false

abbrev is_string : Value → Bool
is_string (str s) = true
is_string _ = false

-- `/^(02|03)[a-f0-9]{64}$/i`.
unfoldable pub is_pubkey : String → Bool
is_pubkey s =
    let key = to_lower s in
    (starts_with key "02" || starts_with key "03") && matches is_lower_hex 66 66 key

-- `raw.pubkey`, absent or a public key.
abbrev pubkey_allowed : Value → Bool
pubkey_allowed undefined = true
pubkey_allowed (str s) = is_pubkey s
pubkey_allowed _ = false

abbrev lower_text : Value → Option String
lower_text (str s) = some (to_lower s)
lower_text _ = none

-- An absent amount is zero.
abbrev pub optional_integer : Value → Result ℕ
optional_integer v = if is_undefined v then ok 0 else integer_like v

abbrev pub positive_safe : Option ℕ → Result ℕ
positive_safe none = fail 502 "upstream_response"
positive_safe (some n) = if ltb 0 n then ok n else fail 502 "upstream_response"

-- The state is compared in lower case here, and in upper case there.
unfoldable pub phase_of : String → ℕ → ℕ → ℕ → QuotePhase
phase_of state amount paid issued =
    if str_eq (to_lower state) "issued" || leb amount issued
    then QuotePhase.issued
    else if str_eq (to_lower state) "paid" || leb amount paid
    then QuotePhase.paid
    else QuotePhase.unpaid

-- The tests of `getQuote` after the amounts, and the view.
unfoldable pub view_fields : String → Props → ℕ → ℕ → ℕ → Result MintQuoteView
view_fields quote_id raw amount amount_paid amount_issued = do
  throw_if
      (not (is_text (property "quote" raw) quote_id)
        || not (is_invoice (property "request" raw))
        || not (is_string (property "unit" raw))
        || not (pubkey_allowed (property "pubkey" raw)))
      502 "upstream_response"
  expiry ← positive_safe (safe_natural (property "expiry" raw))
  ok (record {
    quote_id = quote_id;
    invoice = string_or "" (property "request" raw);
    amount = amount;
    unit = to_lower (string_or "" (property "unit" raw));
    pubkey = lower_text (property "pubkey" raw);
    expiry = expiry;
    phase = phase_of (string_or "" (property "state" raw)) amount amount_paid amount_issued;
  })

-- What `getQuote` reads of the quote.
unfoldable pub view_quote : String → Props → Result MintQuoteView
view_quote quote_id raw = do
  amount ← integer_like (property "amount" raw)
  amount_paid ← optional_integer (property "amount_paid" raw)
  amount_issued ← optional_integer (property "amount_issued" raw)
  view_fields quote_id raw amount amount_paid amount_issued

-- `responseJson`.
abbrev pub response_json : Option Value → Result Value
response_json none = fail 502 "upstream_response"
response_json (some v) = ok v

abbrev pub quote_response : String → Fetched → Result MintQuoteView
quote_response quote_id unreachable = fail 502 "mint_unavailable"
quote_response quote_id (answered status body) =
    if status == 404
    then fail 404 "quote_not_found"
    else if not (is_ok status)
    then fail 502 "mint_unavailable"
    else (do value ← response_json body; raw ← record_of value; view_quote quote_id raw)

-- `getQuote`: `fetch` answers for a URL, and `encode` is `encodeURIComponent`.
module _ (fetch : String → Fetched) (encode : String → String) (api_url : String) where
  unfoldable pub get_quote : String → Result MintQuoteView
  get_quote quote_id =
      quote_response quote_id (fetch (api_url ⧺ "/v1/mint/quote/fiber/" ⧺ encode quote_id))
