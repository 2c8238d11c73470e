-- ===== src/Js/Table.antt =====
-- A JavaScript `Map` with text keys, as its entries in order of insertion.
use fibernuts.Common.{
  String, Bool, false, Option, none, some, List, [], ◌∷◌, ◌≡◌, refl, arith, str_eq, eq_iff,
  if◌then◌else◌, Bool-cases, inl, inr,
}

abbrev pub Table {ℓ} : Type ℓ → Type ℓ
Table V = List (String × V)

module _ {ℓ} {V : Type ℓ} where
  -- `map.get(key)`.
  unfoldable pub get : String → Table V → Option V
  get k [] = none
  get k ((j, v) ∷ m) = if str_eq j k then some v else get k m

  -- `map.set(key, value)`: in place if the key is there, otherwise at the end.
  unfoldable pub set : String → V → Table V → Table V
  set k v [] = (k, v) ∷ []
  set k v ((j, w) ∷ m) = if str_eq j k then (j, v) ∷ m else (j, w) ∷ set k v m

  -- `map.delete` of the entries whose values match.
  unfoldable pub delete_where : (V → Bool) → Table V → Table V
  delete_where p [] = []
  delete_where p ((j, v) ∷ m) = let rest = delete_where p m in if p v then rest else (j, v) ∷ rest

  -- `map.delete(key)`.
  unfoldable pub remove : String → Table V → Table V
  remove k [] = []
  remove k ((j, v) ∷ m) = let rest = remove k m in if str_eq j k then rest else (j, v) ∷ rest

  pub get-set :
      (k j : String) (v : V) (m : Table V)
      → get j (set k v m) ≡ (if str_eq k j then some v else get j m)
  unfolding get set
  get-set k j v [] = refl
  get-set k j v ((i, w) ∷ m) = ground (arith, eq_iff k j, eq_iff i k, eq_iff i j, get-set k j v m)

  pub get-remove :
      (k j : String) (m : Table V) → get j (remove k m) ≡ (if str_eq k j then none else get j m)
  unfolding get remove
  get-remove k j [] = ground arith
  get-remove k j ((i, w) ∷ m) = ground (arith, eq_iff k j, eq_iff i k, eq_iff i j, get-remove k j m)

  -- An entry that does not match stays, if it is found under its key.
  pub get-delete_where :
      (p : V → Bool) (k : String) (m : Table V) {v : V}
      → get k m ≡ some v
      → p v ≡ false
      → get k (delete_where p m) ≡ some v
  unfolding get delete_where
  get-delete_where p k [] e h = cc
  get-delete_where p k ((j, w) ∷ m) {v} e h = elim (Bool-cases (str_eq j k)) [
    | inl same ↦ let found : w ≡ v = ground arith in rw (found, h, same)
    | inr other ↦
        let later = get-delete_where p k m (rw (other, get) at e) h in
        elim (Bool-cases (p w)) [ inl drop ↦ rw drop later | inr keep ↦ rw (keep, other) later ]
  ]
