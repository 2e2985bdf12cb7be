-- ===== src/Clips/Queries.antt =====
-- domains/clips/repository.py: the queries on the clips table.
pub mod Neighbours
pub mod Largest
pub mod Sorted
mod Tests
use video_journal_be.Prelude.{
  ℕ, Bool, false, Option, none, some, List, [], ◌∷◌, leb, ltb, if◌then◌else◌, take, drop,
}
use video_journal_be.Models.{Clip}
use video_journal_be.Float.{FloatOps}

-- ORDER BY with the test of the order; rows that compare equal stay in the table's order.
module _ {ℓ} {R : Type ℓ} (before : R → R → Bool) where
  pub insert_row : R → List R → List R
  insert_row r [] = r ∷ []
  insert_row r (s ∷ rs) = if before s r then s ∷ insert_row r rs else r ∷ s ∷ rs

  unfoldable pub order_by : List R → List R
  unfolding insert_row
  order_by [] = []
  order_by (r ∷ rs) = insert_row r (order_by rs)

-- LIMIT and OFFSET.
abbrev pub page {ℓ} : {R : Type ℓ} → ℕ → ℕ → List R → List R
page limit offset rows = take limit (drop offset rows)

-- Whether the clip was recorded at `t`, for the tests of WHERE.
unfoldable pub recorded_by : ℕ → Option ℕ → Bool
recorded_by t none = false
recorded_by t (some r) = leb r t

unfoldable pub recorded_after : ℕ → Option ℕ → Bool
recorded_after t none = false
recorded_after t (some r) = ltb t r

-- `a.recorded_at < b.recorded_at`, false where one is missing.
unfoldable pub earlier : Option ℕ → Option ℕ → Bool
earlier (some a) (some b) = ltb a b
earlier _ _ = false

module _ {F : Type 0} where
  unfoldable pub later_of : Clip F → Option (Clip F) → Clip F
  unfolding earlier
  later_of c none = c
  later_of c (some b) = if earlier c.recorded_at b.recorded_at then b else c

  unfoldable pub earlier_of : Clip F → Option (Clip F) → Clip F
  unfolding earlier
  earlier_of c none = c
  earlier_of c (some b) = if earlier b.recorded_at c.recorded_at then b else c

  -- The clip recorded last at or before `t`, and the one recorded first behind it.
  unfoldable pub previous_clip : ℕ → List (Clip F) → Option (Clip F)
  unfolding recorded_by later_of
  previous_clip t [] = none
  previous_clip t (c ∷ cs) =
      let best = previous_clip t cs in
      if recorded_by t c.recorded_at then some (later_of c best) else best

  unfoldable pub next_clip : ℕ → List (Clip F) → Option (Clip F)
  unfolding recorded_after earlier_of
  next_clip t [] = none
  next_clip t (c ∷ cs) =
      let best = next_clip t cs in
      if recorded_after t c.recorded_at then some (earlier_of c best) else best

module _ {F : Type 0} (floats : FloatOps F) where
  unfoldable pub larger : F → Option F → F
  larger x none = x
  larger x (some y) = if floats.lt x y then y else x

  -- `max(sort_index)`, NULL on an empty table.
  unfoldable pub max_sort_index : List (Clip F) → Option F
  unfolding larger
  max_sort_index [] = none
  max_sort_index (c ∷ cs) = some (larger c.sort_index (max_sort_index cs))

  unfoldable pub by_sort_index : Clip F → Clip F → Bool
  by_sort_index a b = floats.lt a.sort_index b.sort_index

  unfoldable pub list_ordered : ℕ → ℕ → List (Clip F) → List (Clip F)
  unfolding order_by by_sort_index
  list_ordered limit offset rows = page limit offset (order_by by_sort_index rows)
