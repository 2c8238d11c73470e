-- ===== src/Market/Runtime/Records.antt =====
-- `replacePayment`, `replaceOrder`, `replaceAdd` and `replaceCashOut` of
-- market/src/domain/market-runtime.ts, which differ in the type of their records alone.
use text.Mathlib.TextPositions.{eq_refl}
use fibernuts.Common.{
  String, Bool, true, false, some, List, [], ◌∷◌, map, ◌≡◌, ◌≢◌, refl, sym, ◌∙◌, arith, eq_iff,
  str_eq, any, All, Bool-cases, inl, inr,
}
use fibernuts.Table.Keys.{Pairs, Differ}
use fibernuts.Market.Runtime.{swapped_in, replace, find_by}

module _ {R : Type 0} (id : R → String) where
  abbrev has_id : String → R → Bool
  has_id key r = str_eq (id r) key

  swapped_in-id : (next r : R) → id (swapped_in id next r) ≡ id r
  swapped_in-id next r = ground (arith, eq_iff (id r) (id next))

  find-swapped_in :
      (records : List R) (next : R)
      → any (has_id (id next)) records ≡ true
      → find_by id (id next) (map (swapped_in id next) records) ≡ some next
  unfolding find_by
  find-swapped_in [] next h = cc
  find-swapped_in (r ∷ records) next h =
      ground (arith, find-swapped_in records next, eq_refl (id next))

  -- What is put in is found.
  pub find-replace :
      (records : List R) (next : R) → find_by id (id next) (replace id records next) ≡ some next
  unfolding replace find_by
  find-replace records next = elim (Bool-cases (any (has_id (id next)) records)) [
    | inl old ↦ rw old (find-swapped_in records next old)
    | inr new ↦ rw (new, eq_refl (id next))
  ]

  find-swapped_in_other :
      (records : List R) (next : R) (key : String)
      → key ≢ id next
      → find_by id key (map (swapped_in id next) records) ≡ find_by id key records
  unfolding find_by
  find-swapped_in_other [] next key h = refl
  find-swapped_in_other (r ∷ records) next key h = ground (
    arith,
    find-swapped_in_other records next key h,
    eq_iff (id r) (id next),
    eq_iff (id next) key,
    eq_iff (id r) key,
  )

  -- The records of other identifiers stay as they were.
  pub find-replace_other :
      (records : List R) (next : R) (key : String)
      → key ≢ id next
      → find_by id key (replace id records next) ≡ find_by id key records
  unfolding replace find_by
  find-replace_other records next key h = elim (Bool-cases (any (has_id (id next)) records)) [
    | inl old ↦ rw old (find-swapped_in_other records next key h)
    | inr new ↦ ground (arith, eq_iff (id next) key)
  ]

  apart_from :
      (records : List R) (next : R)
      → any (has_id (id next)) records ≡ false
      → All (Differ id next) records
  apart_from [] next h = tt
  apart_from (r ∷ records) next h =
      (λ e. ground (arith, eq_iff (id r) (id next)), apart_from records next (ground arith))

  still_apart :
      (r : R) (records : List R) (next : R)
      → All (Differ id r) records
      → All (Differ id (swapped_in id next r)) (map (swapped_in id next) records)
  still_apart r [] next h = tt
  still_apart r (x ∷ records) next h = (
    λ e. h.0 (sym (swapped_in-id next r) ∙ (e ∙ swapped_in-id next x)),
    still_apart r records next h.1,
  )

  swapped_in-Pairs :
      (records : List R) (next : R)
      → Pairs (Differ id) records
      → Pairs (Differ id) (map (swapped_in id next) records)
  swapped_in-Pairs [] next h = tt
  swapped_in-Pairs (r ∷ records) next h =
      (still_apart r records next h.0, swapped_in-Pairs records next h.1)

  -- Distinct identifiers stay distinct.
  pub replace-Pairs :
      (records : List R) (next : R)
      → Pairs (Differ id) records
      → Pairs (Differ id) (replace id records next)
  unfolding replace
  replace-Pairs records next h = elim (Bool-cases (any (has_id (id next)) records)) [
    | inl old ↦ rw old (swapped_in-Pairs records next h)
    | inr new ↦ rw new (apart_from records next new, h)
  ]

  pub find_by-id :
      (key : String) (records : List R) {r : R} → find_by id key records ≡ some r → id r ≡ key
  unfolding find_by
  find_by-id key [] h = cc
  find_by-id key (x ∷ records) {r} h =
      ground (arith, find_by-id key records {r = r}, eq_iff (id x) key)
