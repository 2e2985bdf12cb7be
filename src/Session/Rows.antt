-- ===== src/Session/Rows.antt =====
-- The rows of a table by their primary key.
use video_journal_be.Prelude.{
  ℕ, ◌≡◌, refl, Bool, Option, none, some, List, [], ◌∷◌, ◌==◌, if◌then◌else◌, arith,
}

module _ {ℓ} {R : Type ℓ} where
  -- `session.get(model, id)`
  unfoldable pub find : (R → ℕ) → ℕ → List R → Option R
  find id_of k [] = none
  find id_of k (r ∷ rs) = if id_of r == k then some r else find id_of k rs

  -- INSERT of a new row, or UPDATE of the row with the same key.
  unfoldable pub upsert : (R → ℕ) → R → List R → List R
  upsert id_of r [] = r ∷ []
  upsert id_of r (s ∷ rs) = if id_of s == id_of r then r ∷ rs else s ∷ upsert id_of r rs

  unfoldable pub remove : (R → ℕ) → ℕ → List R → List R
  remove id_of k [] = []
  remove id_of k (r ∷ rs) = let rest = remove id_of k rs in if id_of r == k then rest else r ∷ rest

  -- The rows that fail a test, and those that pass.
  unfoldable pub reject : (R → Bool) → List R → List R
  reject p [] = []
  reject p (r ∷ rs) = let rest = reject p rs in if p r then rest else r ∷ rest

  unfoldable pub select : (R → Bool) → List R → List R
  select p [] = []
  select p (r ∷ rs) = let rest = select p rs in if p r then r ∷ rest else rest

module _ {ℓ} {R : Type ℓ} (id_of : R → ℕ) where
  pub find-upsert :
      (k : ℕ) (r : R) (rs : List R)
      → find id_of k (upsert id_of r rs) ≡ (if id_of r == k then some r else find id_of k rs)
  unfolding find upsert
  find-upsert k r [] = refl
  find-upsert k r (s ∷ rs) = ground (arith, find-upsert k r rs)

  pub find-remove :
      (j k : ℕ) (rs : List R)
      → find id_of j (remove id_of k rs) ≡ (if k == j then none else find id_of j rs)
  unfolding find remove
  find-remove j k [] = ground arith
  find-remove j k (r ∷ rs) = ground (arith, find-remove j k rs)

  pub find-id : (k : ℕ) (rs : List R) (r : R) → find id_of k rs ≡ some r → id_of r ≡ k
  unfolding find
  find-id k [] r h = cc
  find-id k (s ∷ rs) r h = ground (arith, find-id k rs r)
