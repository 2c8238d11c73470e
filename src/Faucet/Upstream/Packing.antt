-- ===== src/Faucet/Upstream/Packing.antt =====
-- The molecule table of a script, as `decodePackedScript` of faucet/src/upstream.ts reads it.
use fibernuts.Common.{
  ℕ, zero, suc, ◌+◌, ◌*◌, ◌/◌, ◌%◌, ◌<◌, List, [], ◌∷◌, ◌++◌, ◌≡◌, refl, arith, ok, length,
  length-append,
}
use fibernuts.Faucet.Upstream.{HashType, data_hash, type_hash, data1, data2}
use fibernuts.Faucet.Upstream.Script.{
  PackedScript, word, read_uint32, drop, take, hash_type_of, script_of_bytes,
}

-- A number as four bytes, the lowest first.
abbrev pub le_bytes : ℕ → List ℕ
le_bytes n = n % 256 ∷ n / 256 % 256 ∷ n / 65_536 % 256 ∷ n / 16_777_216 ∷ []

abbrev pub tag : HashType → ℕ
tag data_hash = 0
tag type_hash = 1
tag data1 = 2
tag data2 = 4

-- The type and the arguments, which their length precedes.
abbrev pub pack_fields : PackedScript → List ℕ
pack_fields p = tag p.hash_type ∷ (le_bytes (length p.args) ++ p.args)

-- The table: its size, the offsets of its three fields, and the fields.
abbrev pub pack : PackedScript → List ℕ
pack p =
    le_bytes (53 + length p.args)
    ++ (le_bytes 16 ++ (le_bytes 48 ++ (le_bytes 49 ++ (p.code_hash ++ pack_fields p))))

word-le_bytes : (n : ℕ) (bs : List ℕ) → n < 4_294_967_296 → word (le_bytes n ++ bs) ≡ ok n
word-le_bytes n bs h =
    let whole : n % 256
          + 256 * (n / 256 % 256)
          + 65_536 * (n / 65_536 % 256)
          + 16_777_216 * (n / 16_777_216)
        ≡ n =
      omega arith in
    rw whole

drop-append : (xs ys : List ℕ) (k m : ℕ) → k ≡ length xs + m → drop k (xs ++ ys) ≡ drop m ys
unfolding drop
drop-append [] ys k m e = let same : k ≡ m = omega arith in rw same
drop-append (x ∷ xs) ys zero m e = absurd (omega arith)
drop-append (x ∷ xs) ys (suc k) m e = drop-append xs ys k m (omega arith)

take-append : (xs ys : List ℕ) (k : ℕ) → k ≡ length xs → take k (xs ++ ys) ≡ xs
unfolding take
take-append [] ys zero e = refl
take-append [] ys (suc k) e = absurd (omega arith)
take-append (x ∷ xs) ys zero e = absurd (omega arith)
take-append (x ∷ xs) ys (suc k) e = rw (take-append xs ys k (omega arith))

hash_type_of-tag : (t : HashType) (bs : List ℕ) → hash_type_of (tag t ∷ bs) ≡ ok t
hash_type_of-tag data_hash bs = refl
hash_type_of-tag type_hash bs = refl
hash_type_of-tag data1 bs = refl
hash_type_of-tag data2 bs = refl

module _ (p : PackedScript) (hash_length : length p.code_hash ≡ 32)
    (fits : 53 + length p.args < 4_294_967_296) where
  abbrev fields : List ℕ
  fields = pack_fields p

  read_total : read_uint32 (pack p) 0 ≡ ok (53 + length p.args)
  unfolding read_uint32 drop
  read_total = word-le_bytes (53 + length p.args) [] fits

  read_offset : read_uint32 (pack p) 4 ≡ ok 16
  unfolding read_uint32 drop
  read_offset = refl

  read_type_offset : read_uint32 (pack p) 8 ≡ ok 48
  unfolding read_uint32 drop
  read_type_offset = refl

  read_args_offset : read_uint32 (pack p) 12 ≡ ok 49
  unfolding read_uint32 drop
  read_args_offset = refl

  read_args_length : read_uint32 (pack p) 49 ≡ ok (length p.args)
  unfolding read_uint32 drop
  read_args_length =
      rw (drop-append p.code_hash fields 33 1 (omega arith))
        (word-le_bytes (length p.args) p.args (omega arith))

  length-pack : length (pack p) ≡ 53 + length p.args
  length-pack = omega (arith, length-append p.code_hash fields)

  drop_type : drop 48 (pack p) ≡ fields
  unfolding drop
  drop_type = drop-append p.code_hash fields 32 0 (omega arith)

  drop_args : drop 53 (pack p) ≡ p.args
  unfolding drop
  drop_args = drop-append p.code_hash fields 37 5 (omega arith)

  take_hash : take 32 (drop 16 (pack p)) ≡ p.code_hash
  unfolding drop
  take_hash = take-append p.code_hash fields 32 (omega arith)

  -- A packed script with a code hash of 32 bytes, whose table is shorter than 2^32 bytes, is decoded
  -- to itself, whatever its arguments are.
  pub script_of_bytes-pack : script_of_bytes (pack p) ≡ ok p
  unfolding script_of_bytes
  script_of_bytes-pack =
      rw
        (
          read_total,
          read_offset,
          read_type_offset,
          read_args_offset,
          read_args_length,
          length-pack,
          drop_type,
          drop_args,
          take_hash,
          hash_type_of-tag p.hash_type (le_bytes (length p.args) ++ p.args),
        )
        (ground arith)
