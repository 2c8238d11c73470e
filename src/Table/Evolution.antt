-- ===== src/Table/Evolution.antt =====
-- How a table may go on to another: the rows that stay are stepped in place, in order, some are
-- deleted, and new ones stand at the end.
use fibernuts.Common.{
  ◌≡◌, refl, ap, Bool, true, List, [], ◌∷◌, ◌++◌, map, All, if◌then◌else◌, Bool-cases, inl, inr,
}
use fibernuts.Table.{update, delete}

pub data Evolves {ℓ} {R : Type ℓ} (Step : R → R → Type 0) (Gone : R → Type 0) (New : R → Type 0)
    : List R → List R → Type ℓ where
  grown : {rs : List R} → All New rs → Evolves Step Gone New [] rs
  kept :
      {r r' : R} {rs rs' : List R}
      → Step r r'
      → Evolves Step Gone New rs rs'
      → Evolves Step Gone New (r ∷ rs) (r' ∷ rs')
  dropped :
      {r : R} {rs rs' : List R}
      → Gone r
      → Evolves Step Gone New rs rs'
      → Evolves Step Gone New (r ∷ rs) rs'

-- An update is a function of each row.
abbrev pub when {ℓ} : {R : Type ℓ} → (R → Bool) → (R → R) → R → R
when p f r = if p r then f r else r

pub update-eq-map {ℓ} :
    {R : Type ℓ} (p : R → Bool) (f : R → R) (rs : List R) → update p f rs ≡ map (when p f) rs
unfolding update
update-eq-map p f [] = refl
update-eq-map p f (r ∷ rs) = ap (λ t. when p f r ∷ t) (update-eq-map p f rs)

module _ {ℓ} {R : Type ℓ} {Step : R → R → Type 0} {Gone New : R → Type 0} where
  pub Evolves-same : (stay : (r : R) → Step r r) (rs : List R) → Evolves Step Gone New rs rs
  Evolves-same stay [] = grown tt
  Evolves-same stay (r ∷ rs) = kept (stay r) (Evolves-same stay rs)

  pub Evolves-append :
      (stay : (r : R) → Step r r) (rs : List R) (r : R)
      → New r
      → Evolves Step Gone New rs (rs ++ r ∷ [])
  Evolves-append stay [] r n = grown (n, tt)
  Evolves-append stay (x ∷ rs) r n = kept (stay x) (Evolves-append stay rs r n)

  pub Evolves-update :
      (stay : (r : R) → Step r r) (p : R → Bool) (f : R → R)
      (step : (r : R) → p r ≡ true → Step r (f r)) (rs : List R)
      → Evolves Step Gone New rs (update p f rs)
  unfolding update
  Evolves-update stay p f step [] = grown tt
  Evolves-update stay p f step (r ∷ rs) = elim (Bool-cases (p r)) [
    | inl e ↦ rw e (kept (step r e) (Evolves-update stay p f step rs))
    | inr e ↦ rw e (kept (stay r) (Evolves-update stay p f step rs))
  ]

  pub Evolves-delete :
      (d : R → Bool) (g : R → R) (step : (r : R) → Step r (g r))
      (gone : (r : R) → d (g r) ≡ true → Gone r) (rs : List R)
      → Evolves Step Gone New rs (delete d (map g rs))
  unfolding delete
  Evolves-delete d g step gone [] = grown tt
  Evolves-delete d g step gone (r ∷ rs) = elim (Bool-cases (d (g r))) [
    | inl e ↦ rw e (dropped (gone r e) (Evolves-delete d g step gone rs))
    | inr e ↦ rw e (kept (step r) (Evolves-delete d g step gone rs))
  ]
