-- ===== src/Js/Text.antt =====
-- Texts: lengths, the classes of the regular expressions, digits, trailing slashes.
use Prim.Native.Char.{Char, code}
use Prim.Native.String
use fibernuts.Common.{
  List, [], ◌∷◌, ℕ, zero, suc, Option, none, some, ◌+◌, ◌*◌, ◌-◌, String, Bool, true, leb, ltb,
  ◌==◌, ◌&&◌, ◌||◌, if◌then◌else◌, str_eq,
}

-- `s.length` counts UTF-16 code units.
unfoldable pub utf16_length : String → ℕ
utf16_length String.[] = 0
utf16_length (String.◌∷◌ c s) = (if ltb (code c) 0x10000 then 1 else 2) + utf16_length s

unfoldable pub every_char : (ℕ → Bool) → String → Bool
every_char p String.[] = true
every_char p (String.◌∷◌ c s) = p (code c) && every_char p s

-- `/^[class]{lo,hi}$/.test(s)`, for a class of ASCII characters.
unfoldable pub matches : (ℕ → Bool) → ℕ → ℕ → String → Bool
matches p lo hi s = every_char p s && leb lo (utf16_length s) && leb (utf16_length s) hi

abbrev between : ℕ → ℕ → ℕ → Bool
between lo hi c = leb lo c && leb c hi

unfoldable pub is_digit : ℕ → Bool
is_digit c = between b'0' b'9' c

-- `[A-Za-z0-9_-]`.
unfoldable pub is_word : ℕ → Bool
unfolding is_digit
is_word c = between b'A' b'Z' c || between b'a' b'z' c || is_digit c || c == b'_' || c == b'-'

-- `[a-f0-9]` and `[A-Fa-f0-9]`.
unfoldable pub is_lower_hex : ℕ → Bool
unfolding is_digit
is_lower_hex c = between b'a' b'f' c || is_digit c

unfoldable pub is_hex : ℕ → Bool
unfolding is_lower_hex
is_hex c = between b'A' b'F' c || is_lower_hex c

-- `/^\d+$/.test(s)`.
unfoldable pub is_digits : String → Bool
unfolding every_char is_digit
is_digits s = every_char is_digit s && leb 1 (utf16_length s)

-- `Number(s)` for a text of digits; above 2^53 the real result is the nearest double, which is no
-- safe integer either.
number_from : ℕ → String → ℕ
number_from acc String.[] = acc
number_from acc (String.◌∷◌ c s) = number_from (acc * 10 + (code c - 48)) s

unfoldable pub number_of : String → ℕ
unfolding number_from
number_of s = number_from 0 s

-- `s.replace(/\/+$/, "")`.
unfoldable pub strip_slashes : String → String
strip_slashes String.[] = ""
strip_slashes (String.◌∷◌ c s) =
    let rest = strip_slashes s in if code c == b'/' && str_eq rest "" then "" else String.◌∷◌ c rest

-- `s.replace(/\/$/, "")`.
unfoldable pub drop_slash : String → String
drop_slash String.[] = ""
drop_slash (String.◌∷◌ c s) =
    let rest = drop_slash s in if code c == b'/' && str_eq s "" then "" else String.◌∷◌ c rest

infixr 60 ◌⧺◌
abbrev pub ◌⧺◌ : String → String → String
s ⧺ t = String.◌++◌ s t

-- What follows the prefix `p` of `s`, if `s` starts with it.
unfoldable pub after_prefix : String → String → Option String
after_prefix String.[] s = some s
after_prefix (String.◌∷◌ c p) String.[] = none
after_prefix (String.◌∷◌ c p) (String.◌∷◌ d s) = if code c == code d then after_prefix p s else none

-- `s.toLowerCase()` of ASCII letters, and of nothing else.
lower_char : Char → String
lower_char c =
    if between b'A' b'Z' (code c) then letter (code c - b'A') letters else String.◌∷◌ c ""
  where
    letters : String
    letters = "abcdefghijklmnopqrstuvwxyz"

    letter : ℕ → String → String
    letter i String.[] = ""
    letter zero (String.◌∷◌ d s) = String.◌∷◌ d ""
    letter (suc i) (String.◌∷◌ d s) = letter i s

unfoldable pub to_lower : String → String
unfolding lower_char
to_lower String.[] = ""
to_lower (String.◌∷◌ c s) = lower_char c ⧺ to_lower s

-- White space to `trim`.
unfoldable pub is_space : ℕ → Bool
is_space c =
    between 9 13 c
    || c == 32
    || c == 0xA0
    || c == 0x1680
    || between 0x2000 0x200A c
    || between 0x2028 0x2029 c
    || c == 0x202F
    || c == 0x205F
    || c == 0x3000
    || c == 0xFEFF

-- `s.trimEnd()` and `s.trimStart()`, one after the other.
unfoldable pub trim_end : String → String
trim_end String.[] = ""
trim_end (String.◌∷◌ c s) =
    let rest = trim_end s in if is_space (code c) && str_eq rest "" then "" else String.◌∷◌ c rest

unfoldable pub trim_start : String → String
trim_start String.[] = ""
trim_start (String.◌∷◌ c s) =
    let rest = trim_start s in if is_space (code c) then rest else String.◌∷◌ c s

unfoldable pub trim : String → String
trim s = trim_start (trim_end s)

-- `s.split(",")[0]`.
unfoldable pub before_comma : String → String
before_comma String.[] = ""
before_comma (String.◌∷◌ c s) =
    let rest = before_comma s in if code c == b',' then "" else String.◌∷◌ c rest

abbrev onto_first : Char → List String → List String
onto_first c [] = String.◌∷◌ c "" ∷ []
onto_first c (s ∷ parts) = String.◌∷◌ c s ∷ parts

-- `s.split(",")`.
unfoldable pub split_commas : String → List String
split_commas String.[] = "" ∷ []
split_commas (String.◌∷◌ c s) =
    let parts = split_commas s in if code c == b',' then "" ∷ parts else onto_first c parts
