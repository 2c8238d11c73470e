-- ===== src/Wallet/PaymentRequest/Accepted.antt =====
-- Which payment requests the wallet decodes and pays.
use mathlib.Core.Path.{subst}
use fibernuts.Common.{
  ok, err, ℕ, ◌≤◌, ◌<◌, String, true, false, not, Option, none, some, List, [], ◌∷◌, ◌≡◌, ◌≢◌, refl,
  arith, eq_iff, ltb, ◌&&◌, ◌||◌, ap, str_eq, length, ◌⊎◌, inl, inr,
}
use fibernuts.Js.{Number, nat, Value, includes, max_safe_integer}
use fibernuts.Js.Text.{to_lower, trim}
use text.Mathlib.Text.{starts_with}
use fibernuts.Js.Url.{Url}
use fibernuts.Wallet.PaymentRequest.{
  RequestError, Outcome, Transport, DecodedPaymentRequest, CashuRequest, valid_amount, given,
  text_or, or_empty, normalize_all, normalize_mint_url, create_payment_request, read_request,
  decode_payment_request, validate_payment_request,
}

-- What a request must be for a wallet of a unit, an active mint and a balance to pay it.
pub record Payable (r : DecodedPaymentRequest) (active_mint unit : String) (balance : ℕ)
    : Type 0 where
  pub n : ℕ
  pub amount : r.amount ≡ nat n
  pub positive : (0 < n) × (n ≤ max_safe_integer) × (n ≤ balance)
  pub unit_matches : r.unit ≡ to_lower unit
  pub mint_matches : (r.mints ≡ []) ⊎ (includes r.mints active_mint ≡ true)

valid_amount-nat :
    (a : Number) → valid_amount a ≡ true → (n : ℕ) × (a ≡ nat n) × (0 < n) × (n ≤ max_safe_integer)
unfolding valid_amount
valid_amount-nat (Number.nat n) h = (n, refl, ground arith, ground arith)
valid_amount-nat (Number.negsuc n) h = cc
valid_amount-nat (Number.other s) h = cc

Outcome-cases {ℓ} :
    {A : Type ℓ} (o : Outcome A) → ((e : RequestError) × (o ≡ err e)) ⊎ ((a : A) × (o ≡ ok a))
Outcome-cases (ok a) = inr (a, refl)
Outcome-cases (err e) = inl (e, refl)

present : (o : Option String) → given o ≡ true → (id : String) × (o ≡ some id) × (id ≢ "")
present none h = cc
present (some id) h = (id, refl, λ e. cc)

accepted_mint :
    (mints : List String) (mint : String)
    → (ltb 0 (length mints) && not (includes mints mint)) ≡ false
    → (mints ≡ []) ⊎ (includes mints mint ≡ true)
accepted_mint [] mint h = inl refl
accepted_mint (m ∷ mints) mint h = inr (ground arith)

ok_injective {ℓ} : {A : Type ℓ} {x y : A} → Path (Outcome A) (ok x) (ok y) → x ≡ y
ok_injective {A} {x} h = ap (value_of x) h
  where
    value_of : A → Outcome A → A
    value_of d (ok a) = a
    value_of d (err e) = d

unequal : (s : String) → s ≢ "" → str_eq s "" ≡ false
unequal s h = ground (arith, eq_iff s "")

module _ (new_url : String → Option Url) where
  -- If a wallet accepts a request for payment, the URL of its mint is valid, the amount is a positive
  -- safe integer within the balance, the unit is the wallet's, and the request names no mints or the
  -- wallet's among them.
  pub validate_payment_request-Payable :
      (r : DecodedPaymentRequest) (mint_url unit : String) (balance : ℕ)
      → validate_payment_request new_url r mint_url unit balance ≡ ok tt
      → (active_mint : String) × (normalize_mint_url new_url mint_url ≡ ok active_mint)
        × Payable r active_mint unit balance
  unfolding validate_payment_request
  validate_payment_request-Payable r mint_url unit balance h =
      let (n, is_nat, positive, safe) = valid_amount-nat r.amount (ground arith) in
      elim (Outcome-cases (normalize_mint_url new_url mint_url)) [
        | inl (e, fails) ↦ absurd (ground arith)
        | inr (mint, normal) ↦ (
          mint,
          normal,
          record {
            n = n;
            amount = is_nat;
            positive = (positive, safe, ground arith);
            unit_matches = ground (arith, eq_iff r.unit (to_lower unit));
            mint_matches = accepted_mint r.mints mint (ground arith);
          },
        )
      ]

  -- The checks of a wallet pass a request as its creator holds it.
  pub validate-create_payment_request :
      (encode : CashuRequest → String) (amount : ℕ) (unit mint_url description id : String)
      (transport : Option (List Transport)) (nut10 : Option Value) (balance : ℕ)
      {r : DecodedPaymentRequest}
      → create_payment_request new_url encode amount unit mint_url description id transport nut10
        ≡ ok r
      → 0 < amount
      → amount ≤ max_safe_integer
      → amount ≤ balance
      → validate_payment_request new_url r mint_url unit balance ≡ ok tt
  unfolding create_payment_request validate_payment_request valid_amount includes
  validate-create_payment_request encode amount unit mint_url description id transport nut10 balance
        {r} h positive safe enough =
      elim (Outcome-cases (normalize_mint_url new_url mint_url)) [
        | inl (e, fails) ↦ absurd (ground arith)
        | inr (mint, normal) ↦
            let amount_is : r.amount ≡ nat amount = ground arith in
            let unit_is : r.unit ≡ to_lower unit = ground arith in
            let mints_are : r.mints ≡ mint ∷ [] = ground arith in
            rw (amount_is, unit_is, mints_are, normal)
              (ground (arith, eq_iff (to_lower unit) (to_lower unit), eq_iff mint mint))
      ]

  -- What is encoded of a request.
  abbrev pub to_encode :
      ℕ → String → String → String → String → Option (List Transport) → Option Value → CashuRequest
  to_encode amount unit mint description id transport nut10 = record {
    transport = transport;
    id = some id;
    amount = some (nat amount);
    unit = some unit;
    mints = some (mint ∷ []);
    description = some description;
    single_use = true;
    nut10 = nut10;
  }

  -- The encoder and the decoder of cashu-ts, at one request: a text of the format, without white space
  -- around it, which is read back.
  pub record Encodes (encode : CashuRequest → String) (decode : String → Option CashuRequest)
      (raw : CashuRequest) : Type 0 where
    pub trimmed : trim (encode raw) ≡ encode raw
    pub format :
        (starts_with (to_lower (encode raw)) "creqa" || starts_with (to_lower (encode raw)) "creqb")
        ≡ true
    pub read_back : decode (encode raw) ≡ some raw

  module _ (decode : String → Option CashuRequest) (amount : ℕ) (unit mint description id : String)
      (transport : Option (List Transport)) (nut10 : Option Value) (positive : 0 < amount)
      (safe : amount ≤ max_safe_integer) where
    -- A decoded request, once its format and its encoding are known.
    read_created :
        (encoded : String)
        → trim encoded ≡ encoded
        → (starts_with (to_lower encoded) "creqa" || starts_with (to_lower encoded) "creqb") ≡ true
        → decode encoded ≡ some (to_encode amount unit mint description id transport nut10)
        → normalize_mint_url new_url mint ≡ ok mint
        → to_lower unit ≡ unit
        → str_eq unit "" ≡ false
        → str_eq id "" ≡ false
        → decode_payment_request new_url decode encoded
          ≡ ok (record {
            id = some id;
            amount = nat amount;
            unit = unit;
            mints = mint ∷ [];
            description = text_or "Payment" (trim description);
            single_use = true;
            transport = or_empty transport;
            nut10 = nut10;
            encoded = encoded;
          })
    unfolding decode_payment_request read_request normalize_all
    read_created encoded trimmed format read_back normal lower has_unit has_id =
        let valid : valid_amount (nat amount) ≡ true = unfold valid_amount in ground arith in
        rw (trimmed, format, read_back, has_unit, has_id, valid, normal, lower) refl

  -- A request of a positive amount that JavaScript represents exactly, with an identifier, in a unit in
  -- lower case and for the normal URL of a mint, is read from its encoded text as it was created, its
  -- description trimmed, and every wallet of that mint and unit that has the amount accepts it.
  pub decode-create_payment_request :
      (encode : CashuRequest → String) (decode : String → Option CashuRequest) (amount : ℕ)
      (unit mint_url description id : String) (transport : Option (List Transport))
      (nut10 : Option Value) (balance : ℕ) {r : DecodedPaymentRequest}
      → create_payment_request new_url encode amount unit mint_url description id transport nut10
        ≡ ok r
      → Encodes encode decode (to_encode amount unit mint_url description id transport nut10)
      → normalize_mint_url new_url mint_url ≡ ok mint_url
      → to_lower unit ≡ unit
      → unit ≢ ""
      → id ≢ ""
      → 0 < amount
      → amount ≤ max_safe_integer
      → amount ≤ balance
      → let read = record r { description = text_or "Payment" (trim description) } in
        (decode_payment_request new_url decode r.encoded ≡ ok read)
        × (validate_payment_request new_url read mint_url unit balance ≡ ok tt)
  unfolding create_payment_request validate_payment_request
  decode-create_payment_request encode decode amount unit mint_url description id transport nut10
        balance {r} h codec normal lower has_unit has_id positive safe enough =
      (
        subst
            (λ x.
              decode_payment_request new_url decode x.encoded
              ≡ ok (record x { description = text_or "Payment" (trim description) }))
            (ok_injective (rw (normal, lower) at h))
            (read_created decode amount unit mint_url description id transport nut10 positive safe
              (encode (to_encode amount unit mint_url description id transport nut10)) codec.trimmed
              codec.format codec.read_back normal lower (unequal unit has_unit)
              (unequal id has_id)),
        validate-create_payment_request encode amount unit mint_url description id transport nut10
            balance h positive safe enough,
      )

  -- A decoded request has a positive amount that JavaScript represents exactly, and an identifier if
  -- it is for a single use.
  decode_payment_request-valid :
      (decode : String → Option CashuRequest) (encoded : String) {r : DecodedPaymentRequest}
      → decode_payment_request new_url decode encoded ≡ ok r
      → (valid_amount r.amount ≡ true)
        × (r.single_use ≡ true → (id : String) × (r.id ≡ some id) × (id ≢ ""))
  unfolding decode_payment_request read_request
  decode_payment_request-valid decode encoded {r} h =
      (ground arith, λ single. present r.id (ground arith))
