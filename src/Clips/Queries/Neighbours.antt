-- ===== src/Clips/Queries/Neighbours.antt =====
-- The neighbours of a time among the clips, and the largest sort index.
use video_journal_be.Prelude.{
  All-map, ℕ, ◌≡◌, refl, sym, ◌⊎◌, inl, inr, true, false, Bool-cases, Option, none, some,
  Option-cases, List, [], ◌∷◌, All, arith, subst,
}
use video_journal_be.Models.{Clip}
use video_journal_be.Clips.Queries.{
  recorded_by, recorded_after, earlier, later_of, earlier_of, previous_clip, next_clip,
}

module _ {F : Type 0} where
  -- The best of the clips recorded at or before `t`: none is recorded between it and `t`.
  abbrev pub IsPrevious : ℕ → List (Clip F) → Option (Clip F) → Type 0
  IsPrevious t rows none = All (λ c. recorded_by t c.recorded_at ≡ false) rows
  IsPrevious t rows (some p) =
      (recorded_by t p.recorded_at ≡ true)
      × All
          (λ c.
            (recorded_by t c.recorded_at ≡ false) ⊎ (earlier p.recorded_at c.recorded_at ≡ false))
          rows

  abbrev pub IsNext : ℕ → List (Clip F) → Option (Clip F) → Type 0
  IsNext t rows none = All (λ c. recorded_after t c.recorded_at ≡ false) rows
  IsNext t rows (some n) =
      (recorded_after t n.recorded_at ≡ true)
      × All
          (λ c.
            (recorded_after t c.recorded_at ≡ false)
            ⊎ (earlier c.recorded_at n.recorded_at ≡ false))
          rows

earlier_irrefl : (a : Option ℕ) → earlier a a ≡ false
unfolding earlier
earlier_irrefl none = refl
earlier_irrefl (some r) = ground arith

-- Where `a` and `b` are recorded, and `b` not behind `a`, what is not behind `b` is not behind `a`.
not_earlier_trans :
    (t : ℕ) (a b c : Option ℕ)
    → recorded_by t b ≡ true
    → earlier a b ≡ false
    → (recorded_by t c ≡ false) ⊎ (earlier b c ≡ false)
    → (recorded_by t a ≡ true)
    → (recorded_by t c ≡ false) ⊎ (earlier a c ≡ false)
unfolding earlier recorded_by
not_earlier_trans t (some a) (some b) (some c) h k (inl l) m = inl l
not_earlier_trans t (some a) (some b) (some c) h k (inr l) m = inr (ground arith)
not_earlier_trans t (some a) (some b) none h k l m = inl refl
not_earlier_trans t (some a) none c h k l m = absurd (cc)
not_earlier_trans t none b c h k l m = absurd (cc)

not_after_trans :
    (t : ℕ) (a b c : Option ℕ)
    → recorded_after t b ≡ true
    → earlier b a ≡ false
    → (recorded_after t c ≡ false) ⊎ (earlier c b ≡ false)
    → (recorded_after t a ≡ true)
    → (recorded_after t c ≡ false) ⊎ (earlier c a ≡ false)
unfolding earlier recorded_after
not_after_trans t (some a) (some b) (some c) h k (inl l) m = inl l
not_after_trans t (some a) (some b) (some c) h k (inr l) m = inr (ground arith)
not_after_trans t (some a) (some b) none h k l m = inl refl
not_after_trans t (some a) none c h k l m = absurd (cc)
not_after_trans t none b c h k l m = absurd (cc)

earlier_asym : (a b : Option ℕ) → earlier a b ≡ true → earlier b a ≡ false
unfolding earlier
earlier_asym (some a) (some b) h = ground arith
earlier_asym (some a) none h = absurd (cc)
earlier_asym none b h = absurd (cc)

module _ {F : Type 0} where
  subst-IsPrevious :
      (t : ℕ) (rows : List (Clip F)) (o : Option (Clip F))
      → previous_clip t rows ≡ o
      → IsPrevious t rows o
      → IsPrevious t rows (previous_clip t rows)
  subst-IsPrevious t rows o e h = subst (IsPrevious t rows) (sym e) h

  subst-IsNext :
      (t : ℕ) (rows : List (Clip F)) (o : Option (Clip F))
      → next_clip t rows ≡ o
      → IsNext t rows o
      → IsNext t rows (next_clip t rows)
  subst-IsNext t rows o e h = subst (IsNext t rows) (sym e) h

  pub previous_clip-IsPrevious :
      (t : ℕ) (rows : List (Clip F)) → IsPrevious t rows (previous_clip t rows)
  unfolding previous_clip later_of
  previous_clip-IsPrevious t [] = tt
  previous_clip-IsPrevious t (c ∷ cs) =
      let ih : IsPrevious t cs (previous_clip t cs) = previous_clip-IsPrevious t cs in
      elim (Option-cases (previous_clip t cs)) [
        | inl e ↦
            let none_before : All (λ x. recorded_by t x.recorded_at ≡ false) cs =
              subst (IsPrevious t cs) e ih in
            elim (Bool-cases (recorded_by t c.recorded_at)) [
              | inl by ↦
                  subst-IsPrevious t (c ∷ cs) (some c) (rw (by, e) refl) (
                    by,
                    (inr (earlier_irrefl c.recorded_at), All-map cs (λ x h. inl h) none_before),
                  )
              | inr not_by ↦
                  subst-IsPrevious t (c ∷ cs) none (rw (not_by, e) refl) (not_by, none_before)
            ]
        | inr (b, e) ↦
            let best : IsPrevious t cs (some b) = subst (IsPrevious t cs) e ih in
            elim (Bool-cases (recorded_by t c.recorded_at)) [
              | inr not_by ↦
                  subst-IsPrevious t (c ∷ cs) (some b) (rw (not_by, e) refl)
                    (best.0, (inl not_by, best.1))
              | inl by ↦ elim (Bool-cases (earlier c.recorded_at b.recorded_at)) [
                | inl older ↦
                    subst-IsPrevious t (c ∷ cs) (some b) (rw (by, e, older) refl)
                      (best.0, (inr (earlier_asym c.recorded_at b.recorded_at older), best.1))
                | inr newer ↦ subst-IsPrevious t (c ∷ cs) (some c) (rw (by, e, newer) refl) (
                  by,
                  (
                    inr (earlier_irrefl c.recorded_at),
                    All-map cs
                        (λ x h.
                          not_earlier_trans t c.recorded_at b.recorded_at x.recorded_at best.0 newer
                            h by)
                        best.1,
                  ),
                )
              ]
            ]
      ]

  pub next_clip-IsNext : (t : ℕ) (rows : List (Clip F)) → IsNext t rows (next_clip t rows)
  unfolding next_clip earlier_of
  next_clip-IsNext t [] = tt
  next_clip-IsNext t (c ∷ cs) =
      let ih : IsNext t cs (next_clip t cs) = next_clip-IsNext t cs in
      elim (Option-cases (next_clip t cs)) [
        | inl e ↦
            let none_after : All (λ x. recorded_after t x.recorded_at ≡ false) cs =
              subst (IsNext t cs) e ih in
            elim (Bool-cases (recorded_after t c.recorded_at)) [
              | inl is_after ↦ subst-IsNext t (c ∷ cs) (some c) (rw (is_after, e) refl) (
                is_after,
                (inr (earlier_irrefl c.recorded_at), All-map cs (λ x h. inl h) none_after),
              )
              | inr not_after ↦
                  subst-IsNext t (c ∷ cs) none (rw (not_after, e) refl) (not_after, none_after)
            ]
        | inr (b, e) ↦
            let best : IsNext t cs (some b) = subst (IsNext t cs) e ih in
            elim (Bool-cases (recorded_after t c.recorded_at)) [
              | inr not_after ↦
                  subst-IsNext t (c ∷ cs) (some b) (rw (not_after, e) refl)
                    (best.0, (inl not_after, best.1))
              | inl is_after ↦ elim (Bool-cases (earlier b.recorded_at c.recorded_at)) [
                | inl newer ↦
                    subst-IsNext t (c ∷ cs) (some b) (rw (is_after, e, newer) refl)
                      (best.0, (inr (earlier_asym b.recorded_at c.recorded_at newer), best.1))
                | inr older ↦ subst-IsNext t (c ∷ cs) (some c) (rw (is_after, e, older) refl) (
                  is_after,
                  (
                    inr (earlier_irrefl c.recorded_at),
                    All-map cs
                        (λ x h.
                          not_after_trans t c.recorded_at b.recorded_at x.recorded_at best.0 older h
                            is_after)
                        best.1,
                  ),
                )
              ]
            ]
      ]

  -- The neighbours are rows.
  pub previous_clip-All :
      (P : Clip F → Type 0) (t : ℕ) (rows : List (Clip F)) (p : Clip F)
      → All P rows
      → previous_clip t rows ≡ some p
      → P p
  unfolding previous_clip later_of
  previous_clip-All P t [] p h e = absurd (cc)
  previous_clip-All P t (c ∷ cs) p h e = elim (Option-cases (previous_clip t cs)) [
    | inl k ↦ subst P (ground arith) h.0
    | inr (b, k) ↦ elim (Bool-cases (recorded_by t c.recorded_at)) [
      | inr not_by ↦ previous_clip-All P t cs p h.1 (ground arith)
      | inl by ↦ elim (Bool-cases (earlier c.recorded_at b.recorded_at)) [
        | inl older ↦ previous_clip-All P t cs p h.1 (ground arith)
        | inr newer ↦ subst P (ground arith) h.0
      ]
    ]
  ]

  pub next_clip-All :
      (P : Clip F → Type 0) (t : ℕ) (rows : List (Clip F)) (p : Clip F)
      → All P rows
      → next_clip t rows ≡ some p
      → P p
  unfolding next_clip earlier_of
  next_clip-All P t [] p h e = absurd (cc)
  next_clip-All P t (c ∷ cs) p h e = elim (Option-cases (next_clip t cs)) [
    | inl k ↦ subst P (ground arith) h.0
    | inr (b, k) ↦ elim (Bool-cases (recorded_after t c.recorded_at)) [
      | inr not_after ↦ next_clip-All P t cs p h.1 (ground arith)
      | inl is_after ↦ elim (Bool-cases (earlier b.recorded_at c.recorded_at)) [
        | inl newer ↦ next_clip-All P t cs p h.1 (ground arith)
        | inr older ↦ subst P (ground arith) h.0
      ]
    ]
  ]
