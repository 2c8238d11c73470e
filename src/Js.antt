-- ===== src/Js.antt =====
-- The values that `JSON.parse` yields and `undefined`, with what the code does to them: property
-- access, `typeof`, `Number.isSafeInteger`, and regular expressions of one repeated class.
-- A text is its code points; a lone surrogate, which JavaScript allows, has no counterpart.
pub mod Text
pub mod Table
pub mod Print
pub mod Url
use fibernuts.Common.{
  ℕ, suc, ◌+◌, ◌*◌, ◌-◌, ◌^◌, String, Bool, true, false, Option, none, some, List, [], ◌∷◌, leb,
  ltb, str_eq, any, ◌&&◌, if◌then◌else◌,
}

-- A number by what the code distinguishes: `nat n`, `negsuc n` for -(n + 1), and a number that is
-- no integer by its text.
pub data Number : Type 0 where
  nat negsuc : ℕ → Number
  other : String → Number

mutual
  pub data Value : Type 0 where
    undefined null : Value
    bool : Bool → Value
    num : Number → Value
    str : String → Value
    arr : Elems → Value
    obj : Props → Value

  pub data Elems : Type 0 where
    nil : Elems
    cons : Value → Elems → Elems

  pub data Props : Type 0 where
    end : Props
    prop : String → Value → Props → Props

abbrev pub max_safe_integer : ℕ
max_safe_integer = 2 ^ 53 - 1

-- `Number.isSafeInteger(value) && value >= 0`, with the number.
abbrev pub safe_natural : Value → Option ℕ
safe_natural (num (nat n)) = if leb n max_safe_integer then some n else none
safe_natural _ = none

-- `value.key`, where a missing key is `undefined`.
unfoldable pub property : String → Props → Value
property k end = undefined
property k (prop j v ps) = if str_eq j k then v else property k ps

-- `Object.keys(value)`.
unfoldable pub keys : Props → List String
keys end = []
keys (prop k v ps) = k ∷ keys ps

-- `list.includes(text)`, `set.has(text)`; `key in value` for an own key.
unfoldable pub includes : List String → String → Bool
includes ks k = any (λ j. str_eq j k) ks

abbrev pub elems : Elems → List Value
elems nil = []
elems (cons v vs) = v ∷ elems vs

abbrev pub is_undefined : Value → Bool
is_undefined undefined = true
is_undefined _ = false

abbrev pub is_string : Value → Bool
is_string (str s) = true
is_string _ = false
