-- ===== src/Js/Print.antt =====
-- `JSON.stringify` of scalars, and `stableJson` of relay/src/protocol.ts: JSON in which the keys of
-- every object stand in order.
use Prim.Native.Char.{Char, code}
use Prim.Native.String.{compare}
use text.Mathlib.Text.{is_le}
use fibernuts.Common.{
  ℕ, zero, suc, ◌/◌, ◌%◌, String, true, false, List, [], ◌∷◌, ltb, ◌==◌, if◌then◌else◌,
}
use fibernuts.Js.{
  Number, nat, negsuc, other, Value, undefined, null, bool, num, str, arr, obj, Elems, nil, cons,
  Props, end, prop,
}
use fibernuts.Js.Text.{◌⧺◌}

abbrev digit_texts : List String
digit_texts =
    "0" ∷ "1" ∷ "2" ∷ "3" ∷ "4" ∷ "5" ∷ "6" ∷ "7" ∷ "8" ∷ "9" ∷ "a" ∷ "b" ∷ "c" ∷ "d" ∷ "e" ∷ "f"
    ∷ []

text_at : List String → ℕ → String
text_at [] i = ""
text_at (s ∷ ss) zero = s
text_at (s ∷ ss) (suc i) = text_at ss i

-- The decimal digits of a number; the fuel bounds their count.
decimal_from : ℕ → ℕ → String
unfolding text_at
decimal_from zero n = ""
decimal_from (suc fuel) n =
    let front = decimal_from fuel (n / 10) in
    if ltb n 10 then text_at digit_texts n else front ⧺ text_at digit_texts (n % 10)

unfoldable pub decimal : ℕ → String
unfolding decimal_from
decimal n = decimal_from (suc n) n

number_text : Number → String
unfolding decimal
number_text (nat n) = decimal n
number_text (negsuc n) = "-" ⧺ decimal (suc n)
number_text (other s) = s

escaped_char : Char → String
unfolding text_at
escaped_char c =
    if code c == 0x22
    then "\\\""
    else if code c == 0x5c
    then "\\\\"
    else if code c == 8
    then "\\b"
    else if code c == 9
    then "\\t"
    else if code c == 10
    then "\\n"
    else if code c == 12
    then "\\f"
    else if code c == 13
    then "\\r"
    else if ltb (code c) 32
    then "\\u00" ⧺ text_at digit_texts (code c / 16) ⧺ text_at digit_texts (code c % 16)
    else String.◌∷◌ c ""

escaped : String → String
unfolding escaped_char
escaped String.[] = ""
escaped (String.◌∷◌ c s) = escaped_char c ⧺ escaped s

-- `JSON.stringify(s)` of a text.
unfoldable pub quoted : String → String
unfolding escaped
quoted s = "\"" ⧺ escaped s ⧺ "\""

-- A list of printed parts between separators: `parts.join(",")`.
unfoldable pub join : List String → String
join [] = ""
join (s ∷ []) = s
join (s ∷ t ∷ ss) = s ⧺ "," ⧺ join (t ∷ ss)

-- `Object.keys(value).sort()` with each key's entry: insertion into an ordered list of entries. The
-- order is that of code points, which is JavaScript's on texts of the basic plane.
unfoldable pub insert_entry : String → String → List (String × String) → List (String × String)
insert_entry k s [] = (k, s) ∷ []
insert_entry k s ((j, t) ∷ es) =
    if is_le (compare k j) then (k, s) ∷ (j, t) ∷ es else (j, t) ∷ insert_entry k s es

unfoldable pub entry_texts : List (String × String) → List String
entry_texts [] = []
entry_texts ((k, s) ∷ es) = (quoted k ⧺ ":" ⧺ s) ∷ entry_texts es

unfoldable mutual
  unfolding number_text

  pub stable_json : Value → String
  stable_json undefined = "undefined"
  stable_json null = "null"
  stable_json (bool true) = "true"
  stable_json (bool false) = "false"
  stable_json (num n) = number_text n
  stable_json (str s) = quoted s
  stable_json (arr vs) = "[" ⧺ join (stable_elems vs) ⧺ "]"
  stable_json (obj ps) = "{" ⧺ join (entry_texts (sorted_entries ps)) ⧺ "}"

  pub stable_elems : Elems → List String
  stable_elems nil = []
  stable_elems (cons v vs) = stable_json v ∷ stable_elems vs

  -- The keys in order, each with the stable text of its value.
  pub sorted_entries : Props → List (String × String)
  sorted_entries end = []
  sorted_entries (prop k v ps) = insert_entry k (stable_json v) (sorted_entries ps)
