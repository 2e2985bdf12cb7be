-- ===== src/Clips/Queries/Sorted.antt =====
-- ORDER BY gives the rows in order, each as often as before.
use mathlib.Core.List.{Permᴰ}
use mathlib.Core.List.Permᴰ
use video_journal_be.Prelude.{
  ℕ, ◌≡◌, refl, ◌≤◌, true, false, Bool, Bool-cases, inl, inr, List, [], ◌∷◌, All, All-map, take,
  drop, length, length-take, arith,
}
use video_journal_be.Models.{Clip}
use video_journal_be.Float.{FloatOps, IsOrdered}
use video_journal_be.Clips.Queries.{insert_row, order_by, by_sort_index, list_ordered}
use video_journal_be.Clips.Queries.Largest.{lt_asym, lt_false_cotrans}

-- No row comes before one that stands earlier in the list.
abbrev pub IsSortedBy {ℓ} : {R : Type ℓ} → (R → R → Bool) → List R → Type ℓ
IsSortedBy before [] = Unit
IsSortedBy before (r ∷ rs) = All (λ s. before s r ≡ false) rs × IsSortedBy before rs

module _ {R : Type 0} (before : R → R → Bool) where
  All-insert_row :
      (P : R → Type 0) (r : R) (rs : List R) → P r → All P rs → All P (insert_row before r rs)
  unfolding insert_row
  All-insert_row P r [] h k = (h, tt)
  All-insert_row P r (s ∷ rs) h k = elim (Bool-cases (before s r)) [
    | inl e ↦ rw e (k.0, All-insert_row P r rs h k.1)
    | inr e ↦ rw e (h, (k.0, k.1))
  ]

  insert_row-Permᴰ : (r : R) (rs : List R) → Permᴰ (r ∷ rs) (insert_row before r rs)
  unfolding insert_row
  insert_row-Permᴰ r [] = Permᴰ.refl (r ∷ [])
  insert_row-Permᴰ r (s ∷ rs) = elim (Bool-cases (before s r)) [
    | inl e ↦ rw e (Permᴰ.trans (Permᴰ.swap refl refl) (Permᴰ.cons refl (insert_row-Permᴰ r rs)))
    | inr e ↦ rw e (Permᴰ.refl (r ∷ s ∷ rs))
  ]

  pub order_by-Permᴰ : (rs : List R) → Permᴰ rs (order_by before rs)
  unfolding order_by
  order_by-Permᴰ [] = Permᴰ.nil
  order_by-Permᴰ (r ∷ rs) =
      Permᴰ.trans (Permᴰ.cons refl (order_by-Permᴰ rs)) (insert_row-Permᴰ r (order_by before rs))

  module _ (asym : (a b : R) → before a b ≡ true → before b a ≡ false)
      (cotrans : (a b c : R) → before a b ≡ false → before b c ≡ false → before a c ≡ false) where
    insert_row-IsSortedBy :
        (r : R) (rs : List R) → IsSortedBy before rs → IsSortedBy before (insert_row before r rs)
    unfolding insert_row
    insert_row-IsSortedBy r [] h = (tt, tt)
    insert_row-IsSortedBy r (s ∷ rs) h = elim (Bool-cases (before s r)) [
      | inl e ↦ rw e (
        All-insert_row (λ x. before x s ≡ false) r rs (asym s r e) h.0,
        insert_row-IsSortedBy r rs h.1,
      )
      | inr e ↦ rw e ((e, All-map rs (λ x k. cotrans x s r k e) h.0), h)
    ]

    pub order_by-IsSortedBy : (rs : List R) → IsSortedBy before (order_by before rs)
    unfolding order_by
    order_by-IsSortedBy [] = tt
    order_by-IsSortedBy (r ∷ rs) =
        insert_row-IsSortedBy r (order_by before rs) (order_by-IsSortedBy rs)

-- A listing is a page of all clips, each once, sorted by their index; the page has at most `limit` of them. The order of the floats is
-- one without NaN.
pub list_ordered_sorted :
    {F : Type 0} (floats : FloatOps F) (order : IsOrdered floats) (limit offset : ℕ)
    (rows : List (Clip F))
    → (all : List (Clip F)) × Permᴰ rows all
      × IsSortedBy (λ (a b : Clip F). floats.lt a.sort_index b.sort_index) all
      × (list_ordered floats limit offset rows ≡ take limit (drop offset all))
      × (length (list_ordered floats limit offset rows) ≤ limit)
unfolding list_ordered by_sort_index
list_ordered_sorted {F} floats order limit offset rows =
    let before : Clip F → Clip F → Bool = λ a b. floats.lt a.sort_index b.sort_index in
    let all : List (Clip F) = order_by before rows in
    (
      all,
      order_by-Permᴰ before rows,
      order_by-IsSortedBy before (λ a b. lt_asym floats order a.sort_index b.sort_index)
          (λ a b c. lt_false_cotrans floats order a.sort_index b.sort_index c.sort_index) rows,
      refl,
      omega (arith, length-take limit (drop offset all)),
    )
