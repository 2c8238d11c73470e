-- ===== src/Relay/Protocol/Accepted.antt =====
-- What the relay knows of a registration or a payload that it has accepted.
use native.Mathlib.Nat.{add_assoc, zero-add}
use fibernuts.Common.{
  ℕ, suc, ap, ◌∙◌, ◌+◌, ◌≤◌, ◌<◌, String, Bool, true, Option, some, List, [], ◌∷◌, ◌≡◌, ◌≢◌, refl,
  arith, eq_iff, leb, ltb, if◌then◌else◌, ok, fail, All, length, inl, inr, Bool-cases,
}
use fibernuts.Js.{Value, obj, Props, Elems, num, nat, str, arr, max_safe_integer, property, elems}
use fibernuts.Js.Text.{matches, is_word, is_hex, utf16_length, is_digits, number_of}
use fibernuts.Js.Url.{Url}
use fibernuts.Relay.Protocol.{
  RegisterOrderInput, PaymentProof, PaymentPayload, text_where, positive_integer, capability,
}
use fibernuts.Relay.Protocol.Registration.{is_request_digest, parse_registration}
use fibernuts.Relay.Protocol.Payload.{
  parse_proof, parse_proofs, parse_payment_payload, amount_from, payload_amount,
}

text_where_inv :
    (test : String → Bool) (v : Value) (status : ℕ) (code : String) {s : String}
    → text_where test v status code ≡ ok s
    → (v ≡ str s) × (test s ≡ true)
text_where_inv test v status code h = ground arith

-- An accepted integer is positive and safe.
pub positive_integer_bounds :
    (v : Value) (code : String) (n : ℕ)
    → positive_integer v code ≡ ok n
    → (0 < n) × (n ≤ max_safe_integer)
unfolding positive_integer
positive_integer_bounds v code n h = ground arith

pub record IsRegistration (now max_ttl : ℕ) (input : RegisterOrderInput) : Type 0 where
  pub order : matches is_word 16 128 input.order_id ≡ true
  pub unit : input.unit ≡ "rusd"
  pub digest : is_request_digest input.request_digest ≡ true
  pub fresh : now < input.expires_at
  pub bounded : input.expires_at ≤ now + max_ttl
  pub writer : matches is_word 43 128 input.write_capability ≡ true
  pub reader : matches is_word 43 128 input.read_capability ≡ true
  pub distinct : input.write_capability ≢ input.read_capability
  pub positive : 0 < input.amount
  pub safe : input.amount ≤ max_safe_integer

module _ (new_url : String → Option Url) where
  -- An accepted registration has well-formed identifiers, two different capabilities, a positive
  -- amount that JavaScript represents exactly, and an expiry in the future within the allowed
  -- lifetime.
  pub parse_registration-IsRegistration :
      (value : Value) (now max_ttl : ℕ) (input : RegisterOrderInput)
      → parse_registration new_url value now max_ttl ≡ ok input
      → IsRegistration now max_ttl input
  unfolding parse_registration capability
  parse_registration-IsRegistration (obj ps) now max_ttl input h =
      let amount_ok =
        positive_integer_bounds (property "amount" ps) "invalid_amount" input.amount in
      record {
        order = ground arith;
        unit = ground (arith, eq_iff input.unit "rusd");
        digest = ground arith;
        fresh = ground arith;
        bounded = ground arith;
        writer = ground arith;
        reader = ground arith;
        distinct = ground (arith, eq_iff input.write_capability input.read_capability);
        positive = (amount_ok (ground arith)).0;
        safe = (amount_ok (ground arith)).1;
      }
  parse_registration-IsRegistration _ now max_ttl input h = cc

-- The numeric value of a proof's amount, which may be a number or a text of digits.
abbrev pub amount_value : Value → ℕ
amount_value (num (nat n)) = n
amount_value (str s) = if is_digits s then number_of s else 0
amount_value _ = 0

pub positive_integer-eq-amount_value :
    (v : Value) (code : String) (n : ℕ) → positive_integer v code ≡ ok n → n ≡ amount_value v
unfolding positive_integer
positive_integer-eq-amount_value v code n h = ground arith

pub record IsProof (p : PaymentProof) : Type 0 where
  pub keyset : matches is_word 1 128 p.id ≡ true
  pub short : 16 ≤ utf16_length p.secret
  pub long : utf16_length p.secret ≤ 4096
  pub point : matches is_hex 32 256 p.c ≡ true
  pub positive : 0 < amount_value p.amount
  pub safe : amount_value p.amount ≤ max_safe_integer

-- The fields of an accepted proof, without its amount.
parse_proof_fields :
    (ps : Props) (p : PaymentProof)
    → parse_proof (obj ps) ≡ ok p
    → (matches is_word 1 128 p.id ≡ true)
      × (16 ≤ utf16_length p.secret)
      × (utf16_length p.secret ≤ 4096)
      × (matches is_hex 32 256 p.c ≡ true)
      × (p.amount ≡ property "amount" ps)
unfolding parse_proof
parse_proof_fields ps p h = (ground arith, ground arith, ground arith, ground arith, ground arith)

parse_proof_amount :
    (ps : Props) (p : PaymentProof)
    → parse_proof (obj ps) ≡ ok p
    → (n : ℕ) × (positive_integer (property "amount" ps) "invalid_proofs" ≡ ok n)
unfolding parse_proof
parse_proof_amount ps p h = ground arith

parse_proof-IsProof : (v : Value) (p : PaymentProof) → parse_proof v ≡ ok p → IsProof p
unfolding parse_proof
parse_proof-IsProof (obj ps) p h =
    let (id, short, long, c, amount) = parse_proof_fields ps p h in
    let (n, parsed) = parse_proof_amount ps p h in
    let (positive, safe) = positive_integer_bounds _ _ n parsed in
    let same : n ≡ amount_value p.amount =
      rw amount (positive_integer-eq-amount_value _ _ n parsed) in
    record {
      keyset = id;
      short = short;
      long = long;
      point = c;
      positive = rw (← same) positive;
      safe = rw (← same) safe;
    }
parse_proof-IsProof _ p h = cc

parse_proofs-IsProof :
    (vs : List Value) (ps : List PaymentProof)
    → parse_proofs vs ≡ ok ps
    → All IsProof ps × (length ps ≡ length vs)
unfolding parse_proofs
parse_proofs-IsProof [] [] h = (tt, refl)
parse_proofs-IsProof [] (p ∷ ps) h = absurd (ground arith)
parse_proofs-IsProof (v ∷ vs) [] h = absurd (ground arith)
parse_proofs-IsProof (v ∷ vs) (p ∷ ps) h =
    let (proofs, count) = parse_proofs-IsProof vs ps (ground arith) in
    ((parse_proof-IsProof v p (ground arith), proofs), ap suc count)

pub record IsPayload (payload : PaymentPayload) : Type 0 where
  pub order : matches is_word 16 128 payload.id ≡ true
  pub unit : payload.unit ≡ "rusd"
  pub memo : (s : String) → payload.memo ≡ some s → utf16_length s ≤ 280
  pub some_proof : 0 < length payload.proofs
  pub few_proofs : length payload.proofs ≤ 256
  pub proofs : All IsProof payload.proofs

module _ (new_url : String → Option Url) where
  payload_proofs :
      (ps : Props) (payload : PaymentPayload)
      → parse_payment_payload new_url (obj ps) ≡ ok payload
      → (vs : Elems) × (property "proofs" ps ≡ arr vs)
        × (0 < length (elems vs))
        × (length (elems vs) ≤ 256)
        × (parse_proofs (elems vs) ≡ ok payload.proofs)
  unfolding parse_payment_payload
  payload_proofs ps payload h = ground arith

  payload_fields :
      (ps : Props) (payload : PaymentPayload)
      → parse_payment_payload new_url (obj ps) ≡ ok payload
      → (matches is_word 16 128 payload.id ≡ true)
        × (payload.unit ≡ "rusd")
        × ((s : String) → payload.memo ≡ some s → utf16_length s ≤ 280)
  unfolding parse_payment_payload
  payload_fields ps payload h =
      (ground arith, ground (arith, eq_iff payload.unit "rusd"), λ s m. ground arith)

  -- An accepted payload has a well-formed order identifier, the unit rusd, a short memo or none,
  -- and between 1 and 256 well-formed proofs, each of a positive amount that JavaScript
  -- represents exactly.
  pub parse_payment_payload-IsPayload :
      (value : Value) (payload : PaymentPayload)
      → parse_payment_payload new_url value ≡ ok payload
      → IsPayload payload
  unfolding parse_payment_payload
  parse_payment_payload-IsPayload (obj ps) payload h =
      let (order, unit, memo) = payload_fields ps payload h in
      let (vs, _, some_item, few_items, parsed) = payload_proofs ps payload h in
      let (proofs, count) = parse_proofs-IsProof (elems vs) payload.proofs parsed in
      record {
        order = order;
        unit = unit;
        memo = memo;
        some_proof = omega (arith, count);
        few_proofs = omega (arith, count);
        proofs = proofs;
      }
  parse_payment_payload-IsPayload _ payload h = cc

-- The total of the proofs as a plain sum.
pub total_of : List PaymentProof → ℕ
total_of [] = 0
total_of (p ∷ ps) = amount_value p.amount + total_of ps

positive_integer_total :
    (v : Value) (code : String)
    → 0 < amount_value v
    → amount_value v ≤ max_safe_integer
    → positive_integer v code ≡ ok (amount_value v)
unfolding positive_integer
positive_integer_total v code pos safe = ground arith

amount_from-eq-total :
    (acc : ℕ) (ps : List PaymentProof)
    → All IsProof ps
    → acc ≤ max_safe_integer
    → amount_from acc ps ≡ (
        if leb (acc + total_of ps) max_safe_integer
        then ok (acc + total_of ps)
        else fail 400 "invalid_proofs")
unfolding amount_from total_of
amount_from-eq-total acc [] h safe = ground arith
amount_from-eq-total acc (p ∷ ps) (h, hs) safe =
    rw (positive_integer_total p.amount "invalid_proofs" h.positive h.safe)
      (elim (Bool-cases (ltb max_safe_integer (acc + amount_value p.amount))) [
        | inl over ↦ rw over (ground arith)
        | inr room ↦ rw room (
            amount_from-eq-total (acc + amount_value p.amount) ps hs (ground arith)
            ∙ rw (add_assoc acc (amount_value p.amount) (total_of ps)))
      ])

-- The amount of an accepted payload is the sum of its proofs, or an error if that is not safe.
pub payload_amount-eq-total :
    (payload : PaymentPayload)
    → IsPayload payload
    → payload_amount payload ≡ (
        if leb (total_of payload.proofs) max_safe_integer
        then ok (total_of payload.proofs)
        else fail 400 "invalid_proofs")
unfolding payload_amount
payload_amount-eq-total payload h =
    amount_from-eq-total 0 payload.proofs h.proofs (omega arith)
    ∙ rw (zero-add (total_of payload.proofs))
