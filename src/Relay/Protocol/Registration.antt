-- ===== src/Relay/Protocol/Registration.antt =====
-- `parseRegistration` of relay/src/protocol.ts.
use fibernuts.Common.{
  ℕ, ◌+◌, String, Bool, false, Option, none, some, List, [], ◌∷◌, leb, ltb, str_eq, ◌||◌,
  if◌then◌else◌, Result, ok, fail, throw_if, ◌>>=◌, ◌>>◌,
}
use fibernuts.Js.{Value, safe_natural, property}
use fibernuts.Js.Text.{after_prefix, matches, is_word, is_lower_hex}
use fibernuts.Js.Url.{Url}
use fibernuts.Relay.Protocol.{
  RegisterOrderInput, as_record, exact_keys, text_where, positive_integer, capability,
  normalized_mint,
}

abbrev registration_keys : List String
registration_keys =
    "order_id" ∷ "amount" ∷ "unit" ∷ "mint" ∷ "request_digest" ∷ "expires_at" ∷ "write_capability"
    ∷ "read_capability" ∷ []

-- `/^sha256:[a-f0-9]{64}$/.test(s)`.
tail_matches : Option String → Bool
tail_matches none = false
tail_matches (some s) = matches is_lower_hex 64 64 s

unfoldable pub is_request_digest : String → Bool
unfolding tail_matches
is_request_digest s = tail_matches (after_prefix "sha256:" s)

-- The two tests of `expires_at`: a safe integer, after `now` and at most `max_ttl` seconds later.
abbrev expiry_in : Option ℕ → ℕ → ℕ → Result ℕ
expiry_in none now max_ttl = fail 400 "invalid_expiry"
expiry_in (some n) now max_ttl =
    if leb n now || ltb (now + max_ttl) n then fail 400 "invalid_expiry" else ok n

module _ (new_url : String → Option Url) where
  -- `parseRegistration`.
  unfoldable pub parse_registration : Value → ℕ → ℕ → Result RegisterOrderInput
  parse_registration value now max_ttl_seconds = do
    ps ← as_record value 400 "invalid_request"
    exact_keys ps registration_keys []
    order_id ← text_where (matches is_word 16 128) (property "order_id" ps) 400 "invalid_order"
    unit ← text_where (λ s. str_eq s "rusd") (property "unit" ps) 400 "invalid_unit"
    digest ← text_where is_request_digest (property "request_digest" ps) 400 "invalid_digest"
    expires_at ← expiry_in (safe_natural (property "expires_at" ps)) now max_ttl_seconds
    write ← capability (property "write_capability" ps)
    read ← capability (property "read_capability" ps)
    throw_if (str_eq write read) 400 "invalid_capability"
    amount ← positive_integer (property "amount" ps) "invalid_amount"
    mint ← normalized_mint new_url (property "mint" ps)
    ok (record {
      order_id = order_id;
      amount = amount;
      unit = unit;
      mint = mint;
      request_digest = digest;
      expires_at = expires_at;
      write_capability = write;
      read_capability = read;
    })
