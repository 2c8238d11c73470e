-- ===== src/Relay/Protocol/Payload.antt =====
-- `parsePaymentPayload`, `payloadAmount` and `digestPayload` of relay/src/protocol.ts.
use fibernuts.Common.{
  ℕ, ◌+◌, String, Bool, not, Option, none, some, List, [], ◌∷◌, ltb, ◌==◌, str_eq, ◌&&◌, ◌||◌,
  if◌then◌else◌, Result, ok, fail, throw_if, ◌>>=◌, ◌>>◌, length,
}
use fibernuts.Js.{
  Value, undefined, str, arr, obj, Elems, nil, cons, Props, end, prop, max_safe_integer, property,
  elems, is_undefined, is_string,
}
use fibernuts.Js.Text.{utf16_length, matches, is_word, is_hex, ◌⧺◌}
use fibernuts.Js.Print.{stable_json}
use fibernuts.Js.Url.{Url}
use fibernuts.Relay.Protocol.{
  PaymentProof, PaymentPayload, as_record, exact_keys, text_where, positive_integer,
  normalized_mint,
}

-- `value.memo !== undefined && (typeof value.memo !== "string" || value.memo.length > 280)`.
abbrev memo_of : Value → Result (Option String)
memo_of undefined = ok none
memo_of (str s) = if ltb 280 (utf16_length s) then fail 400 "invalid_memo" else ok (some s)
memo_of _ = fail 400 "invalid_memo"

abbrev between_lengths : ℕ → ℕ → String → Bool
between_lengths lo hi s = not (ltb (utf16_length s) lo) && not (ltb hi (utf16_length s))

-- One round of `value.proofs.map(…)`.
unfoldable pub parse_proof : Value → Result PaymentProof
parse_proof value = do
  ps ← as_record value 400 "invalid_proofs"
  exact_keys ps ("amount" ∷ "id" ∷ "secret" ∷ "C" ∷ []) ("dleq" ∷ "witness" ∷ "p2pk_e" ∷ [])
  _ ← positive_integer (property "amount" ps) "invalid_proofs"
  id ← text_where (matches is_word 1 128) (property "id" ps) 400 "invalid_proofs"
  secret ← text_where (between_lengths 16 4096) (property "secret" ps) 400 "invalid_proofs"
  c ← text_where (matches is_hex 32 256) (property "C" ps) 400 "invalid_proofs"
  throw_if (not (is_undefined (property "p2pk_e" ps)) && not (is_string (property "p2pk_e" ps))) 400
      "invalid_proofs"
  ok (record {
    amount = property "amount" ps;
    id = id;
    secret = secret;
    c = c;
    dleq = property "dleq" ps;
    witness = property "witness" ps;
    p2pk_e = property "p2pk_e" ps;
  })

unfoldable pub parse_proofs : List Value → Result (List PaymentProof)
parse_proofs [] = ok []
parse_proofs (v ∷ vs) = do p ← parse_proof v; ps ← parse_proofs vs; ok (p ∷ ps)

-- `!Array.isArray(value.proofs) || length === 0 || length > 256` throws.
abbrev proof_items : Value → Result (List Value)
proof_items (arr vs) =
    if length (elems vs) == 0 || ltb 256 (length (elems vs))
    then fail 400 "invalid_proofs"
    else ok (elems vs)
proof_items _ = fail 400 "invalid_proofs"

module _ (new_url : String → Option Url) where
  -- `parsePaymentPayload`.
  unfoldable pub parse_payment_payload : Value → Result PaymentPayload
  parse_payment_payload value = do
    ps ← as_record value 400 "invalid_payload"
    exact_keys ps ("id" ∷ "unit" ∷ "mint" ∷ "proofs" ∷ []) ("memo" ∷ [])
    id ← text_where (matches is_word 16 128) (property "id" ps) 400 "invalid_order"
    unit ← text_where (λ s. str_eq s "rusd") (property "unit" ps) 400 "invalid_unit"
    memo ← memo_of (property "memo" ps)
    items ← proof_items (property "proofs" ps)
    proofs ← parse_proofs items
    mint ← normalized_mint new_url (property "mint" ps)
    ok (record { id = id; memo = memo; unit = unit; mint = mint; proofs = proofs })

-- The loop of `payloadAmount`, which stops at the first total that is no safe integer.
unfoldable pub amount_from : ℕ → List PaymentProof → Result ℕ
amount_from total [] = ok total
amount_from total (p ∷ ps) = do
  n ← positive_integer p.amount "invalid_proofs"
  throw_if (ltb max_safe_integer (total + n)) 400 "invalid_proofs"
  amount_from (total + n) ps

unfoldable pub payload_amount : PaymentPayload → Result ℕ
payload_amount payload = amount_from 0 payload.proofs

-- An object's property, left out where the parsed item lacks it.
abbrev optional_prop : String → Value → Props → Props
optional_prop k undefined ps = ps
optional_prop k v ps = prop k v ps

proof_value : PaymentProof → Value
proof_value p = obj (
    prop "amount" p.amount (
      prop "id" (str p.id) (
        prop "secret" (str p.secret) (
          prop "C" (str p.c) (
            optional_prop "dleq" p.dleq
              (optional_prop "witness" p.witness (optional_prop "p2pk_e" p.p2pk_e end)))))))

proof_values : List PaymentProof → Elems
unfolding proof_value
proof_values [] = nil
proof_values (p ∷ ps) = cons (proof_value p) (proof_values ps)

abbrev text_or_undefined : Option String → Value
text_or_undefined none = undefined
text_or_undefined (some s) = str s

-- The object that `parsePaymentPayload` returns; its `memo` is always a key.
unfoldable pub payload_value : PaymentPayload → Value
unfolding proof_values
payload_value p = obj (
    prop "id" (str p.id) (
      prop "memo" (text_or_undefined p.memo) (
        prop "unit" (str p.unit)
          (prop "mint" (str p.mint) (prop "proofs" (arr (proof_values p.proofs)) end)))))

module _ (sha256 : String → String) where
  unfoldable pub digest_payload : PaymentPayload → String
  digest_payload p = "sha256:" ⧺ sha256 (stable_json (payload_value p))
