-- ===== src/Relay/Protocol.antt =====
-- relay/src/protocol.ts: the shapes and ranges that the relay accepts. SHA-256 and the URL parser
-- are parameters of what uses them.
pub mod Registration
pub mod Payload
pub mod Accepted
use fibernuts.Common.{
  ℕ, ◌+◌, String, Bool, true, false, not, Option, none, some, List, [], ◌∷◌, ◌++◌, leb, ltb, ◌==◌,
  str_eq, ◌&&◌, ◌||◌, if◌then◌else◌, Result, ok, err, fail, throw_if, ◌>>=◌, ◌>>◌, all, any, length,
}
use fibernuts.Js.{
  Value, undefined, null, num, str, arr, obj, nat, Elems, nil, cons, Props, end, prop,
  max_safe_integer, safe_natural, property, keys, includes, elems, is_undefined, is_string,
}
use fibernuts.Js.Text.{
  utf16_length, matches, is_word, is_hex, is_lower_hex, is_digits, number_of, strip_slashes,
  drop_slash, ◌⧺◌,
}
use fibernuts.Js.Print.{stable_json}
use fibernuts.Js.Url.{Url, is_blank, href}
use Prim.Native.Char.{code}
use Prim.Native.String

pub record RegisterOrderInput : Type 0 where
  pub order_id : String
  pub amount : ℕ
  pub unit : String
  pub mint : String
  pub request_digest : String
  pub expires_at : ℕ
  pub write_capability : String
  pub read_capability : String

-- The optional fields are `undefined` where the item lacks them.
pub record PaymentProof : Type 0 where
  pub amount : Value
  pub id : String
  pub secret : String
  pub c : String
  pub dleq : Value
  pub witness : Value
  pub p2pk_e : Value

pub record PaymentPayload : Type 0 where
  pub id : String
  pub memo : Option String
  pub unit : String
  pub mint : String
  pub proofs : List PaymentProof

-- `record(value)`, with the object's properties.
abbrev pub as_record : Value → ℕ → String → Result Props
as_record (obj ps) status code = ok ps
as_record _ status code = fail status code

unfoldable pub exact_keys : Props → List String → List String → Result (Unit {0})
exact_keys ps required optional =
    throw_if
      (not (all (includes (keys ps)) required)
        || not (all (includes (required ++ optional)) (keys ps)))
      400 "invalid_request"

-- `typeof value !== "string" || !regex.test(value)` throws.
abbrev pub text_where : (String → Bool) → Value → ℕ → String → Result String
text_where test (str s) status code = if test s then ok s else fail status code
text_where test _ status code = fail status code

-- `typeof value === "string" && /^\d+$/.test(value) ? Number(value) : value`.
abbrev number_like : Value → Value
number_like (str s) = if is_digits s then num (nat (number_of s)) else str s
number_like v = v

abbrev positive_or : Option ℕ → String → Result ℕ
positive_or none code = fail 400 code
positive_or (some n) code = if ltb 0 n then ok n else fail 400 code

unfoldable pub positive_integer : Value → String → Result ℕ
positive_integer v code = positive_or (safe_natural (number_like v)) code

unfoldable pub capability : Value → Result String
capability v = text_where (matches is_word 43 128) v 400 "invalid_capability"

unfoldable pub mint_of_url : Option Url → Result String
mint_of_url none = fail 400 "invalid_mint"
mint_of_url (some u) =
    if (str_eq u.protocol "https:" || str_eq u.protocol "http:")
      && str_eq u.username ""
      && str_eq u.password ""
      && is_blank u.query
      && is_blank u.fragment
    then ok (drop_slash (href u (strip_slashes u.pathname)))
    else fail 400 "invalid_mint"

module _ (new_url : String → Option Url) where
  unfoldable pub normalized_mint : Value → Result String
  unfolding mint_of_url
  normalized_mint (str s) = mint_of_url (new_url s)
  normalized_mint _ = fail 400 "invalid_mint"
