-- ===== src/Clips/Queries/Largest.antt =====
-- Laws of an order on floats, and the largest sort index.
use video_journal_be.Prelude.{
  ◌≡◌, refl, inl, inr, true, false, Bool-cases, Option, none, some, Option-cases, List, [], ◌∷◌,
  All, All-map, subst, sym,
}
use video_journal_be.Models.{Clip}
use video_journal_be.Float.{FloatOps, IsOrdered}
use video_journal_be.Clips.Queries.{max_sort_index, larger}

module _ {F : Type 0} (floats : FloatOps F) (order : IsOrdered floats) where
  pub lt_false_trans :
      (a b c : F) → floats.lt b a ≡ false → floats.lt b c ≡ true → floats.lt a c ≡ true
  lt_false_trans a b c h k = elim (order.lt_cotrans b a c k) [ inl l ↦ absurd (cc) | inr r ↦ r ]

  pub lt_false_cotrans :
      (a b c : F) → floats.lt a b ≡ false → floats.lt b c ≡ false → floats.lt a c ≡ false
  lt_false_cotrans a b c h k = elim (Bool-cases (floats.lt a c)) [
    | inr no_less ↦ no_less
    | inl less ↦ elim (order.lt_cotrans a b c less) [ inl l ↦ absurd (cc) | inr r ↦ absurd (cc) ]
  ]

  pub lt_asym : (a b : F) → floats.lt a b ≡ true → floats.lt b a ≡ false
  lt_asym a b h = elim (Bool-cases (floats.lt b a)) [
    | inr no_less ↦ no_less
    | inl less ↦
        let both : floats.lt a a ≡ true = order.lt_trans a b a h less in
        let neither : floats.lt a a ≡ false = order.lt_irrefl a in absurd (cc)
  ]

  -- No row has an index beyond the largest.
  abbrev pub IsMax : List (Clip F) → Option F → Type 0
  IsMax rows none = Unit
  IsMax rows (some m) = All (λ c. floats.lt m c.sort_index ≡ false) rows

  -- Without a largest index there is no row.
  pub max_sort_index-All :
      (P : Clip F → Type 0) (rows : List (Clip F)) → max_sort_index floats rows ≡ none → All P rows
  unfolding max_sort_index
  max_sort_index-All P [] e = tt
  max_sort_index-All P (x ∷ xs) e = absurd (cc)

  pub max_sort_index-IsMax : (rows : List (Clip F)) → IsMax rows (max_sort_index floats rows)
  unfolding max_sort_index larger
  max_sort_index-IsMax [] = tt
  max_sort_index-IsMax (c ∷ cs) = elim (Option-cases (max_sort_index floats cs)) [
    | inl e ↦
        as_max (c ∷ cs) (some c.sort_index) (rw e refl)
          (order.lt_irrefl c.sort_index, max_sort_index-All _ cs e)
    | inr (m, e) ↦
        let ih : IsMax cs (some m) = subst (IsMax cs) e (max_sort_index-IsMax cs) in
        elim (Bool-cases (floats.lt c.sort_index m)) [
          | inl less ↦
              as_max (c ∷ cs) (some m) (rw (e, less) refl) (lt_asym c.sort_index m less, ih)
          | inr more ↦ as_max (c ∷ cs) (some c.sort_index) (rw (e, more) refl) (
            order.lt_irrefl c.sort_index,
            All-map cs (λ x h. lt_false_cotrans c.sort_index m x.sort_index more h) ih,
          )
        ]
  ]
    where
      as_max :
          (rows : List (Clip F)) (o : Option F)
          → max_sort_index floats rows ≡ o
          → IsMax rows o
          → IsMax rows (max_sort_index floats rows)
      as_max rows o e h = subst (IsMax rows) (sym e) h
