-- ===== src/Table.antt =====
-- The statements that the stores run against one SQLite table, as operations on the list of its
-- rows in rowid order. Stores compute with them; the laws are in Table/Rows and Table/Keys.
pub mod Rows
pub mod Keys
pub mod Evolution
use fibernuts.Common.{ℕ, suc, Bool, Option, none, some, List, [], ◌∷◌, if◌then◌else◌, ◌+◌}

module _ {ℓ} {R : Type ℓ} where
  -- SELECT … WHERE p, `.get()`: the first row that matches.
  unfoldable pub select : (R → Bool) → List R → Option R
  select p [] = none
  select p (r ∷ rs) = if p r then some r else select p rs

  -- UPDATE … SET f WHERE p.
  unfoldable pub update : (R → Bool) → (R → R) → List R → List R
  update p f [] = []
  update p f (r ∷ rs) = (if p r then f r else r) ∷ update p f rs

  -- DELETE … WHERE p.
  unfoldable pub delete : (R → Bool) → List R → List R
  delete p [] = []
  delete p (r ∷ rs) = let rest = delete p rs in if p r then rest else r ∷ rest

  -- SELECT COUNT(*) … WHERE p; also the `changes` of an UPDATE or a DELETE with that clause.
  unfoldable pub count : (R → Bool) → List R → ℕ
  count p [] = 0
  count p (r ∷ rs) = (if p r then 1 else 0) + count p rs
