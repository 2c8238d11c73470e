-- ===== src/Faucet/Upstream/Script.antt =====
-- `readUint32`, `decodePackedScript` and `invoiceUdtScript` of faucet/src/upstream.ts.
use Prim.Native.Char.{code}
use fibernuts.Common.{
  ℕ, zero, suc, ◌+◌, ◌*◌, ◌-◌, ◌/◌, ◌%◌, String, not, Option, none, some, List, [], ◌∷◌, ◌++◌, ◌==◌,
  ◌&&◌, ◌||◌, if◌then◌else◌, Result, ok, fail, throw_if, ◌>>=◌, ◌>>◌, length,
}
use fibernuts.Js.{Value, str, obj, arr, property, is_undefined, elems}
use fibernuts.Js.Text.{to_lower, is_lower_hex, after_prefix, ◌⧺◌}
use fibernuts.Faucet.Upstream.{FiberUdtScript, HashType, type_hash, data_hash, data1, data2}
use fibernuts.Faucet.Upstream.Decode.{hex_digit}

-- The rest of `bytes` from an offset on.
unfoldable pub drop : ℕ → List ℕ → List ℕ
drop zero bs = bs
drop (suc n) [] = []
drop (suc n) (b ∷ bs) = drop n bs

-- `bytes.slice(0, n)`.
unfoldable pub take : ℕ → List ℕ → List ℕ
take zero bs = []
take (suc n) [] = []
take (suc n) (b ∷ bs) = b ∷ take n bs

-- The error of every failure inside `decodePackedScript`.
abbrev pub invalid {ℓ} : {A : Type ℓ} → Result A
invalid = fail 502 "fiber_response"

-- Four bytes, the lowest first; fewer are a truncated value.
abbrev pub word : List ℕ → Result ℕ
word (a ∷ b ∷ c ∷ d ∷ bs) = ok (a + 256 * b + 65_536 * c + 16_777_216 * d)
word _ = invalid

unfoldable pub read_uint32 : List ℕ → ℕ → Result ℕ
read_uint32 bytes offset = word (drop offset bytes)

-- `hashTypes[bytes[offset]]`.
abbrev pub hash_type_of : List ℕ → Result HashType
hash_type_of [] = invalid
hash_type_of (b ∷ bs) =
    if b == 0
    then ok data_hash
    else if b == 1
    then ok type_hash
    else if b == 2
    then ok data1
    else if b == 4
    then ok data2
    else invalid

-- A script whose hash and arguments are still bytes.
pub record PackedScript : Type 0 where
  pub code_hash : List ℕ
  pub hash_type : HashType
  pub args : List ℕ

-- The table's reads and tests in the order of the code; the subtractions of offsets are written
-- as sums, since they may be negative.
unfoldable pub script_of_bytes : List ℕ → Result PackedScript
script_of_bytes bytes = do
  total ← read_uint32 bytes 0
  code_hash_offset ← read_uint32 bytes 4
  hash_type_offset ← read_uint32 bytes 8
  args_offset ← read_uint32 bytes 12
  throw_if
      (not (total == length bytes)
        || not (code_hash_offset == 16)
        || not (hash_type_offset == code_hash_offset + 32)
        || not (args_offset == hash_type_offset + 1))
      502 "fiber_response"
  args_length ← read_uint32 bytes args_offset
  throw_if (not (args_offset + 4 + args_length == length bytes)) 502 "fiber_response"
  hash_type ← hash_type_of (drop hash_type_offset bytes)
  ok (record {
    code_hash = take (hash_type_offset - code_hash_offset) (drop code_hash_offset bytes);
    hash_type = hash_type;
    args = drop (args_offset + 4) bytes;
  })

-- `Buffer.from(text, "hex")` of a text of lower-case hexadecimal pairs, and nothing of another.
abbrev with_byte : ℕ → Option (List ℕ) → Option (List ℕ)
with_byte b none = none
with_byte b (some bs) = some (b ∷ bs)

unfoldable pub bytes_of : String → Option (List ℕ)
bytes_of String.[] = some []
bytes_of (String.◌∷◌ c String.[]) = none
bytes_of (String.◌∷◌ c (String.◌∷◌ d s)) =
    let rest = bytes_of s in
    if is_lower_hex (code c) && is_lower_hex (code d)
    then with_byte (hex_digit (code c) * 16 + hex_digit (code d)) rest
    else none

-- The character of a text at an index.
char_at : ℕ → String → String
char_at i String.[] = ""
char_at zero (String.◌∷◌ c s) = String.◌∷◌ c ""
char_at (suc i) (String.◌∷◌ c s) = char_at i s

abbrev hex_text : String
hex_text = "0123456789abcdef"

-- `Buffer.toString("hex")`.
unfoldable pub hex_of : List ℕ → String
unfolding char_at
hex_of [] = ""
hex_of (b ∷ bs) = char_at (b / 16) hex_text ⧺ char_at (b % 16) hex_text ⧺ hex_of bs

abbrev printed : PackedScript → FiberUdtScript
printed p = record {
  code_hash = "0x" ⧺ hex_of p.code_hash;
  hash_type = p.hash_type;
  args = "0x" ⧺ hex_of p.args;
}

abbrev script_text : Option String → Result FiberUdtScript
script_text none = invalid
script_text (some String.[]) = invalid
script_text (some digits) = elim (bytes_of digits) [
  | none ↦ invalid
  | some bytes ↦ (do p ← script_of_bytes bytes; ok (printed p))
]

unfoldable pub decode_packed_script : Value → Result FiberUdtScript
decode_packed_script (str s) = script_text (after_prefix "0x" (to_lower s))
decode_packed_script _ = invalid

-- The `udt_script` of an attribute, where it has one.
abbrev attribute_script : Value → List Value
attribute_script (obj ps) =
    if is_undefined (property "udt_script" ps) then [] else property "udt_script" ps ∷ []
attribute_script _ = []

unfoldable pub udt_scripts : List Value → List Value
udt_scripts [] = []
udt_scripts (v ∷ vs) = attribute_script v ++ udt_scripts vs

abbrev only_script : List Value → Result (Option FiberUdtScript)
only_script [] = ok none
only_script (v ∷ []) = (do s ← decode_packed_script v; ok (some s))
only_script _ = invalid

unfoldable pub invoice_udt_script : Value → Result (Option FiberUdtScript)
invoice_udt_script (arr attrs) = only_script (udt_scripts (elems attrs))
invoice_udt_script _ = invalid
