-- ===== src/Market/Fields.antt =====
-- How market/src/event/manifest.ts and market/src/domain/storage.ts read the fields of an unknown
-- value: the tests that both files write out.
use Prim.Native.Char.{code}
use fibernuts.Common.{
  ◌>>=◌, ok, err, ℕ, String, Bool, true, false, not, Option, none, some, List, [], ◌∷◌, ◌++◌, leb,
  ltb, ◌==◌, str_eq, any, ◌&&◌, ◌||◌, if◌then◌else◌,
}
use fibernuts.Js.{Value, arr, obj, str, elems, Props, keys, includes, safe_natural}
use fibernuts.Js.Text.{is_digit, is_lower_hex, matches, after_prefix, trim}
use fibernuts.Market.Errors.{Failure, Attempt}

-- `record(value, label)`, with the error that it throws.
abbrev pub as_record : Failure → Value → Attempt Props
as_record e (obj ps) = ok ps
as_record e _ = err e

-- `exactKeys`: whether a key is missing, or one is not allowed.
unfoldable pub wrong_keys : Props → List String → List String → Bool
wrong_keys ps required optional =
    any (λ key. not (includes (keys ps) key)) required
    || any (λ key. not (includes (required ++ optional) key)) (keys ps)

-- A text that passes a test.
abbrev pub text_that : (String → Bool) → Failure → Value → Attempt String
text_that test e (str s) = if test s then ok s else err e
text_that test e _ = err e

-- `typeof value === "string" && value.trim()`.
abbrev pub is_filled : String → Bool
is_filled s = not (str_eq (trim s) "")

-- `value === text`.
abbrev pub is_text : String → Value → Bool
is_text s (str t) = str_eq t s
is_text s _ = false

-- `Number.isSafeInteger(value) && value >= minimum`, for a minimum of 0 or more.
abbrev pub natural_from : ℕ → Failure → Option ℕ → Attempt ℕ
natural_from minimum e none = err e
natural_from minimum e (some n) = if ltb n minimum then err e else ok n

abbrev pub integer_from : ℕ → Failure → Value → Attempt ℕ
integer_from minimum e v = natural_from minimum e (safe_natural v)

abbrev pub array_of : Failure → Value → Attempt (List Value)
array_of e (arr vs) = ok (elems vs)
array_of e _ = err e

-- `/^[a-z0-9]+(?:-[a-z0-9]+)*$/`, behind a character of the class or not.
unfoldable pub slug_from : Bool → String → Bool
slug_from inside String.[] = inside
slug_from inside (String.◌∷◌ c s) =
    let after = slug_from true s in
    let apart = slug_from false s in
    if leb b'a' (code c) && leb (code c) b'z' || is_digit (code c)
    then after
    else code c == b'-' && inside && apart

unfoldable pub is_slug : String → Bool
unfolding slug_from
is_slug s = slug_from false s

abbrev pub after_matches : (String → Bool) → Option String → Bool
after_matches test none = false
after_matches test (some s) = test s

-- `/^0x[a-f0-9]{64}$/`.
unfoldable pub is_hex_32 : String → Bool
is_hex_32 s = after_matches (matches is_lower_hex 64 64) (after_prefix "0x" s)

-- Every element as the function reads it, or the first error.
unfoldable pub read_all {ℓ} : {A : Type ℓ} → (Value → Attempt A) → List Value → Attempt (List A)
read_all read [] = ok []
read_all read (v ∷ vs) = do a ← read v; rest ← read_all read vs; ok (a ∷ rest)
