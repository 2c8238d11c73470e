-- ===== src/Table/Keys.antt =====
-- Unique columns: a relation between every two rows, and what it says of the rows selected.
use mathlib.Core.Option.{some-injective}
use text.Mathlib.TextPositions.{eq_refl}
use fibernuts.Common.{
  String, ◌≡◌, ◌≢◌, refl, sym, ◌∙◌, ap, if◌then◌else◌, Bool, true, false, some, List, [], ◌∷◌, ◌++◌,
  All, Bool-cases, inl, inr, str_eq, eq_iff,
}
use fibernuts.Table.{select, update, delete}
use fibernuts.Table.Rows.{All-update, All-delete, select-All}

module _ {ℓ κ} {R : Type ℓ} (Q : R → R → Type κ) where
  -- `Q` holds of every row with every later one.
  abbrev pub Pairs : List R → Type κ
  Pairs [] = Unit
  Pairs (r ∷ rs) = All (Q r) rs × Pairs rs

  pub Pairs-append : (rs : List R) (r : R) → Pairs rs → All (λ x. Q x r) rs → Pairs (rs ++ r ∷ [])
  Pairs-append [] r h k = (tt, tt)
  Pairs-append (x ∷ rs) r h k = (snoc rs h.0, Pairs-append rs r h.1 k.1)
    where
      snoc : (ys : List R) → All (Q x) ys → All (Q x) (ys ++ r ∷ [])
      snoc [] a = (k.0, tt)
      snoc (y ∷ ys) a = (a.0, snoc ys a.1)

  pub Pairs-delete : (p : R → Bool) (rs : List R) → Pairs rs → Pairs (delete p rs)
  unfolding delete
  Pairs-delete p [] h = tt
  Pairs-delete p (r ∷ rs) h = elim (Bool-cases (p r)) [
    | inl e ↦ rw e (Pairs-delete p rs h.1)
    | inr e ↦ rw e (All-delete (Q r) p rs h.0, Pairs-delete p rs h.1)
  ]

  module _ (p : R → Bool) (f : R → R) (keep_left : (x y : R) → Q x y → Q (f x) y)
      (keep_right : (x y : R) → Q x y → Q x (f y)) where
    head_step : (r : R) (rs : List R) → All (Q r) rs → All (Q (f r)) rs
    head_step r [] h = tt
    head_step r (y ∷ rs) h = (keep_left r y h.0, head_step r rs h.1)

    -- An update keeps the rows apart if it keeps each pair of them apart.
    pub Pairs-update : (rs : List R) → Pairs rs → Pairs (update p f rs)
    unfolding update
    Pairs-update [] h = tt
    Pairs-update (r ∷ rs) h =
        let later : All (Q r) (update p f rs) =
          All-update (Q r) p f (λ y e q. keep_right r y q) rs h.0 in
        elim (Bool-cases (p r)) [
          | inl e ↦ rw e (head_step r (update p f rs) later, Pairs-update rs h.1)
          | inr e ↦ rw e (later, Pairs-update rs h.1)
        ]

-- A UNIQUE NOT NULL text column.
abbrev pub Differ {ℓ} : {R : Type ℓ} → (R → String) → R → R → Type 0
Differ key x y = key x ≢ key y

abbrev pub has_key {ℓ} : {R : Type ℓ} → (R → String) → String → R → Bool
has_key key k r = str_eq (key r) k

-- Selecting by a unique column finds the row that has the value.
pub select-has_key {ℓ} :
    {R : Type ℓ} (key : R → String) (p : R → Bool) (rs : List R) {r : R}
    → Pairs (Differ key) rs
    → select p rs ≡ some r
    → select (has_key key (key r)) rs ≡ some r
unfolding select
select-has_key key p [] u e = cc
select-has_key key p (x ∷ rs) {r} u e = elim (Bool-cases (p x)) [
  | inl t ↦ rw (← some-injective x r (rw (t, select) at e)) (rw eq_refl)
  | inr t ↦
      let found : select p rs ≡ some r = rw (t, select) at e in
      let apart : key x ≢ key r = select-All (Differ key x) p rs u.0 found in
      elim (Bool-cases (str_eq (key x) (key r))) [
        | inl same ↦ absurd (apart ((eq_iff (key x) (key r)).0 same))
        | inr other ↦ rw other (select-has_key key p rs u.1 found)
      ]
]

module _ {ℓ} {R : Type ℓ} where
  pub update_untouched :
      (q : R → Bool) (f : R → R) (rs : List R) → All (λ r. q r ≡ false) rs → update q f rs ≡ rs
  unfolding update
  update_untouched q f [] h = refl
  update_untouched q f (r ∷ rs) h = rw h.0 (ap (λ t. r ∷ t) (update_untouched q f rs h.1))

  module _ (key : R → String) (k : String) (q : R → Bool) (f : R → R) where
    others_untouched :
        (x : R) (rs : List R)
        → key x ≡ k
        → All (Differ key x) rs
        → ((r : R) → q r ≡ true → key r ≡ k)
        → All (λ r. q r ≡ false) rs
    others_untouched x [] e h only = tt
    others_untouched x (y ∷ rs) e h only = elim (Bool-cases (q y)) [
      | inl hit ↦ absurd (h.0 (e ∙ sym (only y hit)))
      | inr miss ↦ (miss, others_untouched x rs e h.1 only)
    ]

    -- An update through a unique column changes one row at most, the one selected by it.
    pub All-update_key {κ} :
        (P : R → Type κ) (rs : List R) (row : R)
        → Pairs (Differ key) rs
        → ((r : R) → q r ≡ true → key r ≡ k)
        → select (has_key key k) rs ≡ some row
        → (q row ≡ true → P row → P (f row))
        → All P rs
        → All P (update q f rs)
    unfolding select update
    All-update_key P [] row u only e step h = tt
    All-update_key P (x ∷ rs) row u only e step h = elim (Bool-cases (str_eq (key x) k)) [
      | inl same ↦
          let is_row : x ≡ row = some-injective x row (rw (same, select) at e) in
          let quiet : update q f rs ≡ rs =
            update_untouched q f rs (others_untouched x rs ((eq_iff (key x) k).0 same) u.0 only) in
          rw quiet (at_head (rw (← is_row) at step) h.0, h.1)
      | inr other ↦
          let missed : q x ≡ false = elim (Bool-cases (q x)) [
            | inl hit ↦ cc (other, (eq_iff (key x) k).1 (only x hit))
            | inr miss ↦ miss
          ] in
          rw missed (h.0, All-update_key P rs row u.1 only (rw (other, select) at e) step h.1)
    ]
      where
        at_head : (q x ≡ true → P x → P (f x)) → P x → P (if q x then f x else x)
        at_head step p = elim (Bool-cases (q x)) [
          | inl hit ↦ rw hit (step hit p)
          | inr miss ↦ rw miss p
        ]
