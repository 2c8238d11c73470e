-- ===== src/Table/Rows.antt =====
-- How the statements act on predicates of rows, on selected rows and on counts.
use mathlib.Core.Option
use mathlib.Core.Option.{some-injective}
use fibernuts.Common.{
  ◌≤◌, ◌+◌, ◌≡◌, refl, Bool, true, false, Option, none, some, List, [], ◌∷◌, ◌++◌, arith,
  if◌then◌else◌, All, Bool-cases, inl, inr,
}
use fibernuts.Table.{select, update, delete, count}

module _ {ℓ κ} {R : Type ℓ} (P : R → Type κ) where
  pub All-update :
      (p : R → Bool) (f : R → R) (step : (r : R) → p r ≡ true → P r → P (f r)) (rs : List R)
      → All P rs
      → All P (update p f rs)
  unfolding update
  All-update p f step [] h = tt
  All-update p f step (r ∷ rs) h = elim (Bool-cases (p r)) [
    | inl e ↦ rw e (step r e h.0, All-update p f step rs h.1)
    | inr e ↦ rw e (h.0, All-update p f step rs h.1)
  ]

  pub All-delete : (p : R → Bool) (rs : List R) → All P rs → All P (delete p rs)
  unfolding delete
  All-delete p [] h = tt
  All-delete p (r ∷ rs) h = elim (Bool-cases (p r)) [
    | inl e ↦ rw e (All-delete p rs h.1)
    | inr e ↦ rw e (h.0, All-delete p rs h.1)
  ]

module _ {ℓ} {R : Type ℓ} where
  -- A selected row matches.
  pub select_match : (p : R → Bool) (rs : List R) {r : R} → select p rs ≡ some r → p r ≡ true
  unfolding select
  select_match p [] e = cc
  select_match p (x ∷ rs) {r} e = elim (Bool-cases (p x)) [
    | inl t ↦ rw (← some-injective x r (rw (t, select) at e)) t
    | inr t ↦ select_match p rs (rw (t, select) at e)
  ]

  -- What holds of every row holds of a selected one.
  pub select-All {κ} :
      (P : R → Type κ) (p : R → Bool) (rs : List R) {r : R} → All P rs → select p rs ≡ some r → P r
  unfolding select
  select-All P p [] h e = cc
  select-All P p (x ∷ rs) {r} h e = elim (Bool-cases (p x)) [
    | inl t ↦ rw (← some-injective x r (rw (t, select) at e)) h.0
    | inr t ↦ select-All P p rs h.1 (rw (t, select) at e)
  ]

  -- Where nothing is selected, no row matches.
  pub select-none : (p : R → Bool) (rs : List R) → select p rs ≡ none → All (λ r. p r ≡ false) rs
  unfolding select
  select-none p [] e = tt
  select-none p (x ∷ rs) e = elim (Bool-cases (p x)) [
    | inl t ↦ cc (rw (t, select) at e)
    | inr t ↦ (t, select-none p rs (rw (t, select) at e))
  ]

  pub select_absent : (p : R → Bool) (rs : List R) → All (λ r. p r ≡ false) rs → select p rs ≡ none
  unfolding select
  select_absent p [] h = refl
  select_absent p (x ∷ rs) h = rw h.0 (select_absent p rs h.1)

  abbrev pub or_else : Option R → Option R → Option R
  or_else none b = b
  or_else (some a) b = some a

  pub select-append :
      (p : R → Bool) (rs : List R) (r : R)
      → select p (rs ++ r ∷ []) ≡ or_else (select p rs) (if p r then some r else none)
  unfolding select
  select-append p [] r = refl
  select-append p (x ∷ rs) r = elim (Bool-cases (p x)) [
    | inl t ↦ rw t
    | inr t ↦ rw t (select-append p rs r)
  ]

  -- An update of other columns than the selected one changes the selected row in place.
  pub select-update :
      (p q : R → Bool) (f : R → R) (keep : (r : R) → p (f r) ≡ p r) (rs : List R)
      → select p (update q f rs) ≡ Option.map (λ r. if q r then f r else r) (select p rs)
  unfolding select update
  select-update p q f keep [] = refl
  select-update p q f keep (x ∷ rs) = elim (Bool-cases (q x)) [
    | inl t ↦ elim (Bool-cases (p x)) [
      | inl u ↦ rw (t, keep x, u, t)
      | inr u ↦ rw (t, keep x, u) (select-update p q f keep rs)
    ]
    | inr t ↦ elim (Bool-cases (p x)) [
      | inl u ↦ rw (t, u, t)
      | inr u ↦ rw (t, u) (select-update p q f keep rs)
    ]
  ]

  pub count-append :
      (p : R → Bool) (rs : List R) (r : R)
      → count p (rs ++ r ∷ []) ≡ count p rs + (if p r then 1 else 0)
  unfolding count
  count-append p [] r = omega arith
  count-append p (x ∷ rs) r = omega (arith, count-append p rs r)

  pub count-update :
      (p q : R → Bool) (f : R → R) (keep : (r : R) → p (f r) ≡ p r) (rs : List R)
      → count p (update q f rs) ≡ count p rs
  unfolding count update
  count-update p q f keep [] = refl
  count-update p q f keep (x ∷ rs) = ground (arith, keep x, count-update p q f keep rs)

  -- Fewer rows match a stronger test.
  pub count_mono :
      (p q : R → Bool) (weaker : (r : R) → p r ≡ true → q r ≡ true) (rs : List R)
      → count p rs ≤ count q rs
  unfolding count
  count_mono p q weaker [] = omega arith
  count_mono p q weaker (x ∷ rs) =
      let rest = count_mono p q weaker rs in
      elim (Bool-cases (p x)) [
        | inl t ↦ rw (t, weaker x t) (omega arith)
        | inr t ↦ rw t (omega arith)
      ]

  -- An update that makes no row match does not raise the count.
  pub count-update_le :
      (p q : R → Bool) (f : R → R) (lose : (r : R) → p (f r) ≡ true → p r ≡ true) (rs : List R)
      → count p (update q f rs) ≤ count p rs
  unfolding count update
  count-update_le p q f lose [] = omega arith
  count-update_le p q f lose (x ∷ rs) =
      let rest = count-update_le p q f lose rs in
      elim (Bool-cases (q x)) [
        | inl t ↦ rw t (elim (Bool-cases (p (f x))) [
          | inl u ↦ rw (u, lose x u) (omega arith)
          | inr u ↦ rw u (omega arith)
        ])
        | inr t ↦ rw t (omega arith)
      ]
