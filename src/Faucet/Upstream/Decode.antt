-- ===== src/Faucet/Upstream/Decode.antt =====
-- `record`, `integerLike` and `hexInteger` of faucet/src/upstream.ts, and the hexadecimal texts.
use Prim.Native.Char.{code}
use fibernuts.Common.{
  ℕ, ◌+◌, ◌*◌, ◌-◌, String, Bool, false, Option, none, some, ltb, str_eq, ◌&&◌, if◌then◌else◌,
  Result, ok, fail, not,
}
use fibernuts.Js.{Value, str, obj, num, nat, Props, safe_natural}
use fibernuts.Js.Text.{
  to_lower, matches, is_lower_hex, is_digits, number_of, after_prefix, every_char,
}

abbrev pub record_of : Value → Result Props
record_of (obj ps) = ok ps
record_of _ = fail 502 "upstream_response"

abbrev as_number : Value → Value
as_number (str s) = if is_digits s then num (nat (number_of s)) else str s
as_number v = v

abbrev natural : Option ℕ → Result ℕ
natural none = fail 502 "upstream_response"
natural (some n) = ok n

unfoldable pub integer_like : Value → Result ℕ
integer_like v = natural (safe_natural (as_number v))

-- The value of a lower-case hexadecimal digit.
unfoldable pub hex_digit : ℕ → ℕ
hex_digit c = if ltb c b'a' then c - 48 else c - 87

unfoldable pub hex_from : ℕ → String → ℕ
hex_from acc String.[] = acc
hex_from acc (String.◌∷◌ c s) = hex_from (acc * 16 + hex_digit (code c)) s

-- The digits of `/^0x[0-9a-f]+$/i`, in lower case.
abbrev hex_digits : Option String → Option String
hex_digits none = none
hex_digits (some s) = if every_char is_lower_hex s && not (str_eq s "") then some s else none

abbrev hex_value : Option String → Result ℕ
hex_value none = fail 502 "upstream_response"
hex_value (some s) = ok (hex_from 0 s)

unfoldable pub hex_integer : Value → Result ℕ
hex_integer (str s) = hex_value (hex_digits (after_prefix "0x" (to_lower s)))
hex_integer _ = fail 502 "upstream_response"

-- `/^0x[a-f0-9]{64}$/i.test(s)`.
unfoldable pub is_hash : String → Bool
is_hash s = elim (after_prefix "0x" (to_lower s)) [
  | none ↦ false
  | some h ↦ matches is_lower_hex 64 64 h
]
