-- ===== src/Faucet/Protocol.antt =====
-- faucet/src/protocol.ts: the claim request, the hashed identifiers and the days in UTC.
use fibernuts.Common.{
  ℕ, ◌+◌, ◌*◌, ◌/◌, ◌-◌, ◌≤◌, ◌<◌, String, not, ◌≡◌, arith, ◌==◌, ◌&&◌, if◌then◌else◌, Result, ok,
  fail, throw_if, ◌>>=◌, ◌>>◌, length,
}
use fibernuts.Js.{Value, str, obj, property, keys, includes}
use fibernuts.Js.Text.{matches, is_word, ◌⧺◌}

pub record ClaimRequest : Type 0 where
  pub quote_id : String
  pub client_id : String

abbrev word_in : ℕ → ℕ → Value → String → Result String
word_in lo hi (str s) code = if matches is_word lo hi s then ok s else fail 400 code
word_in lo hi _ code = fail 400 code

unfoldable pub parse_claim_request : Value → Result ClaimRequest
parse_claim_request (obj ps) = do
  throw_if
      (not (
        (length (keys ps) == 2) && includes (keys ps) "quote_id" && includes (keys ps) "client_id"))
      400 "invalid_request"
  quote_id ← word_in 8 256 (property "quote_id" ps) "invalid_quote"
  client_id ← word_in 43 64 (property "client_id" ps) "invalid_client"
  ok (record { quote_id = quote_id; client_id = client_id })
parse_claim_request _ = fail 400 "invalid_request"

-- `identifierHash`: `hmac secret text` is HMAC-SHA-256 in hexadecimal.
module _ (hmac : String → String → String) where
  unfoldable pub identifier_hash : String → String → String → String
  identifier_hash secret purpose value = hmac secret (purpose ⧺ "\0" ⧺ value)

abbrev pub day_seconds : ℕ
day_seconds = 86_400

unfoldable pub next_utc_day : ℕ → ℕ
next_utc_day now = (now / day_seconds + 1) * day_seconds

unfoldable pub start_of_utc_day : ℕ → ℕ
start_of_utc_day now = now / day_seconds * day_seconds

-- A moment lies in its day, the seconds to the next day are at least one and at most a day, and the
-- next day starts a day after this one did.
utc_day_bounds :
    (now : ℕ)
    → (start_of_utc_day now ≤ now)
      × (now < next_utc_day now)
      × (next_utc_day now - now ≤ day_seconds)
      × (next_utc_day now ≡ start_of_utc_day now + day_seconds)
unfolding next_utc_day start_of_utc_day
utc_day_bounds now = omega arith
