-- ===== src/Wallet/PaymentRequest.antt =====
-- wallet/src/lib/payment-request.ts: payment requests as the wallet makes, decodes and accepts them.
-- The encoding is that of cashu-ts, a parameter here.
pub mod Accepted
use fibernuts.Common.{
  Throwing, ok, err, ◌>>=◌, ◌>>◌, throw_when, ℕ, ◌+◌, String, Bool, true, false, not, Option, none,
  some, List, [], ◌∷◌, ltb, leb, ◌==◌, str_eq, ◌&&◌, ◌||◌, if◌then◌else◌, length,
}
use fibernuts.Js.{Number, nat, num, Value, safe_natural, includes}
use fibernuts.Js.Text.{to_lower, trim, strip_slashes, drop_slash, after_prefix, is_hex}
use fibernuts.Js.Url.{Url, is_blank, href}
use text.Mathlib.Text.{starts_with}
use Prim.Native.Char.{Char, code}
use Prim.Native.String

-- What is thrown, by its text.
pub data RequestError : Type 0 where
  invalid_url wrong_scheme has_credentials has_query encoded_path : RequestError
  not_a_request undecodable no_amount no_unit no_request_id invalid_amount : RequestError
  wrong_unit other_mint exceeds_balance : RequestError

abbrev pub Outcome {ℓ} : Type ℓ → Type ℓ
Outcome A = Throwing RequestError A

pub record Transport : Type 0 where
  pub kind : String
  pub target : String
  pub tags : List (List String)

-- `description`, `transport` and `nut10` are what the caller or the decoder gives.
pub record DecodedPaymentRequest : Type 0 where
  pub id : Option String
  pub amount : Number
  pub unit : String
  pub mints : List String
  pub description : String
  pub single_use : Bool
  pub transport : List Transport
  pub nut10 : Option Value
  pub encoded : String

-- A `PaymentRequest` of cashu-ts; `amount` is what `units` makes of it, and `none` where it is absent.
pub record CashuRequest : Type 0 where
  pub transport : Option (List Transport)
  pub id : Option String
  pub amount : Option Number
  pub unit : Option String
  pub mints : Option (List String)
  pub description : Option String
  pub single_use : Bool
  pub nut10 : Option Value

-- `/%[0-9a-f]{2}/i.test(path)`.
unfoldable pub has_escape : String → Bool
has_escape String.[] = false
has_escape (String.◌∷◌ c String.[]) = false
has_escape (String.◌∷◌ c (String.◌∷◌ d String.[])) = false
has_escape (String.◌∷◌ c (String.◌∷◌ d (String.◌∷◌ e s))) =
    let rest = has_escape (String.◌∷◌ d (String.◌∷◌ e s)) in
    (code c == b'%' && is_hex (code d) && is_hex (code e)) || rest

abbrev pub given : Option String → Bool
given none = false
given (some s) = not (str_eq s "")

abbrev pub or_empty {ℓ} : {A : Type ℓ} → Option (List A) → List A
or_empty none = []
or_empty (some xs) = xs

abbrev pub text_or : String → String → String
text_or d s = if str_eq s "" then d else s

-- `description?.trim() || "Payment"`.
abbrev description_of : Option String → String
description_of none = "Payment"
description_of (some s) = text_or "Payment" (trim s)

abbrev lower_text : Option String → String
lower_text none = ""
lower_text (some s) = to_lower s

-- `Number.isSafeInteger(amount) && amount > 0`.
abbrev pub is_positive : Option ℕ → Bool
is_positive none = false
is_positive (some n) = ltb 0 n

unfoldable pub valid_amount : Number → Bool
valid_amount n = is_positive (safe_natural (num n))

-- `request.amount > balance`, of a valid amount.
abbrev pub exceeds : Number → ℕ → Bool
exceeds (nat n) balance = ltb balance n
exceeds _ balance = false

abbrev checked_amount : Option Number → Outcome Number
checked_amount none = err no_amount
checked_amount (some n) = ok n

module _ (new_url : String → Option Url) where
  abbrev normalized : Option Url → Outcome String
  normalized none = err invalid_url
  normalized (some u) = do
    throw_when (not (str_eq u.protocol "http:" || str_eq u.protocol "https:")) wrong_scheme
    throw_when (not (str_eq u.username "") || not (str_eq u.password "")) has_credentials
    throw_when (not (is_blank u.query) || not (is_blank u.fragment)) has_query
    throw_when (has_escape u.pathname) encoded_path
    ok (drop_slash (href u (strip_slashes u.pathname)))

  unfoldable pub normalize_mint_url : String → Outcome String
  normalize_mint_url value = normalized (new_url value)

  unfoldable pub normalize_all : List String → Outcome (List String)
  normalize_all [] = ok []
  normalize_all (m ∷ ms) = do
    mint ← normalize_mint_url m
    mints ← normalize_all ms
    ok (mint ∷ mints)

  -- `createPaymentRequest`, with the identifier, the transports and the lock of its options, and the
  -- encoder of cashu-ts.
  unfoldable pub create_payment_request :
      (CashuRequest → String)
      → ℕ
      → String
      → String
      → String
      → String
      → Option (List Transport)
      → Option Value
      → Outcome DecodedPaymentRequest
  create_payment_request encode amount unit mint_url description id transport nut10 = do
    mint ← normalize_mint_url mint_url
    ok (record {
      id = some id;
      amount = nat amount;
      unit = to_lower unit;
      mints = mint ∷ [];
      description = description;
      single_use = true;
      transport = or_empty transport;
      nut10 = nut10;
      encoded = encode (record {
        transport = transport;
        id = some id;
        amount = some (nat amount);
        unit = some (to_lower unit);
        mints = some (mint ∷ []);
        description = some description;
        single_use = true;
        nut10 = nut10;
      });
    })

  unfoldable pub read_request : String → Option CashuRequest → Outcome DecodedPaymentRequest
  read_request value none = err undecodable
  read_request value (some request) = do
    amount ← checked_amount request.amount
    throw_when (not (given request.unit)) no_unit
    throw_when (request.single_use && not (given request.id)) no_request_id
    throw_when (not (valid_amount amount)) invalid_amount
    mints ← normalize_all (or_empty request.mints)
    ok (record {
      id = request.id;
      amount = amount;
      unit = lower_text request.unit;
      mints = mints;
      description = description_of request.description;
      single_use = request.single_use;
      transport = or_empty request.transport;
      nut10 = request.nut10;
      encoded = value;
    })

  -- `decodePaymentRequest`; `decode` is `PaymentRequest.fromEncodedRequest`, `none` where it throws.
  unfoldable pub decode_payment_request :
      (String → Option CashuRequest) → String → Outcome DecodedPaymentRequest
  unfolding read_request
  decode_payment_request decode encoded =
      let value = trim encoded in
      if starts_with (to_lower value) "creqa" || starts_with (to_lower value) "creqb"
      then read_request value (decode value)
      else err not_a_request

  unfoldable pub validate_payment_request :
      DecodedPaymentRequest → String → String → ℕ → Outcome (Unit {0})
  validate_payment_request request mint_url unit balance = do
    throw_when (not (valid_amount request.amount)) invalid_amount
    throw_when (not (str_eq request.unit (to_lower unit))) wrong_unit
    active_mint ← normalize_mint_url mint_url
    throw_when (ltb 0 (length request.mints) && not (includes request.mints active_mint)) other_mint
    throw_when (exceeds request.amount balance) exceeds_balance

-- `postTransport`.
unfoldable pub post_transport : List Transport → Option Transport
post_transport [] = none
post_transport (t ∷ ts) = if str_eq t.kind "post" then some t else post_transport ts
