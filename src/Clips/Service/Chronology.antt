-- ===== src/Clips/Service/Chronology.antt =====
-- `_assign_sort_index` keeps the clips in the order in which they were recorded.
use video_journal_be.Prelude.{
  ◌==◌, ℕ, ◌≡◌, refl, ◌⊎◌, inl, inr, true, false, Option, none, some, List, All, All-map, All-both,
  arith, subst,
}
use video_journal_be.Models.{Clip}
use video_journal_be.Float.{IsOrdered}
use video_journal_be.Session.{Env}
use video_journal_be.Clips.Queries.{
  recorded_by, recorded_after, earlier, previous_clip, next_clip, max_sort_index,
}
use video_journal_be.Clips.Queries.Largest.{
  lt_false_trans, IsMax, max_sort_index-IsMax, max_sort_index-All,
}
use video_journal_be.Clips.Queries.Neighbours.{
  IsPrevious, IsNext, previous_clip-IsPrevious, next_clip-IsNext, previous_clip-All, next_clip-All,
}
use video_journal_be.Clips.Service.{FloatOps, Bool, fractional_index}

abbrev pub same_time : Option ℕ → Option ℕ → Bool
same_time (some r) (some s) = r == s
same_time _ _ = false

not_by_before : (t : ℕ) (c : Option ℕ) → recorded_by t c ≡ false → earlier c (some t) ≡ false
unfolding recorded_by earlier
not_by_before t none h = refl
not_by_before t (some r) h = ground arith

not_after_behind : (t : ℕ) (c : Option ℕ) → recorded_after t c ≡ false → earlier (some t) c ≡ false
unfolding recorded_after earlier
not_after_behind t none h = refl
not_after_behind t (some r) h = ground arith

-- A time other than that of the previous clip, and not behind it, is missing or before it.
before_previous :
    (t : ℕ) (p c : Option ℕ)
    → recorded_by t p ≡ true
    → earlier p c ≡ false
    → same_time p c ≡ false
    → (earlier c (some t) ≡ false) ⊎ (earlier c p ≡ true)
unfolding recorded_by earlier
before_previous t none c h k l = absurd (cc)
before_previous t (some p) none h k l = inl refl
before_previous t (some p) (some c) h k l = inr (ground arith)

behind_next :
    (t : ℕ) (n c : Option ℕ)
    → recorded_after t n ≡ true
    → earlier c n ≡ false
    → same_time n c ≡ false
    → (earlier (some t) c ≡ false) ⊎ (earlier n c ≡ true)
unfolding recorded_after earlier
behind_next t none c h k l = absurd (cc)
behind_next t (some n) none h k l = inl refl
behind_next t (some n) (some c) h k l = inr (ground arith)

module _ {F : Type 0} (env : Env F) where
  abbrev ops : FloatOps F
  ops = env.ops.floats

  abbrev lt : F → F → Bool
  lt = env.ops.floats.lt

  -- Two clips are in order: where the first was recorded earlier, it is sorted before the second.
  abbrev pub InOrder : Clip F → Clip F → Type 0
  InOrder a b =
      (earlier a.recorded_at b.recorded_at ≡ false) ⊎ (lt a.sort_index b.sort_index ≡ true)

  abbrev pub IsChronological : List (Clip F) → Type 0
  IsChronological rows = All (λ a. All (λ b. InOrder a b) rows) rows

  -- No two clips were recorded at the same instant.
  abbrev pub HasDistinctTimes : List (Clip F) → Type 0
  HasDistinctTimes rows =
      All (λ a. All (λ b. (a ≡ b) ⊎ (same_time a.recorded_at b.recorded_at ≡ false)) rows) rows

  -- The floats leave room for a new index: below the next clip, above the largest, and in the middle of the neighbours.
  abbrev pub HasRoom : Option F → Option (Clip F) → Option (Clip F) → Type 0
  HasRoom none p n = Unit
  HasRoom (some m) none none = Unit
  HasRoom (some m) none (some n) = lt (ops.sub n.sort_index (ops.of_ℕ 1000)) n.sort_index ≡ true
  HasRoom (some m) (some p) none = lt m (ops.add m (ops.of_ℕ 1000)) ≡ true
  HasRoom (some m) (some p) (some n) =
      (lt p.sort_index (ops.div (ops.add p.sort_index n.sort_index) (ops.of_ℕ 2)) ≡ true)
      × (lt (ops.div (ops.add p.sort_index n.sort_index) (ops.of_ℕ 2)) n.sort_index ≡ true)

  -- The place of a row by a clip that is recorded at `t` and sorted at `x`.
  abbrev pub IsPlaced : ℕ → F → Clip F → Type 0
  IsPlaced t x c =
      ((earlier c.recorded_at (some t) ≡ false) ⊎ (lt c.sort_index x ≡ true))
      × ((earlier (some t) c.recorded_at ≡ false) ⊎ (lt x c.sort_index ≡ true))

  module _ (order : IsOrdered env.ops.floats) (t : ℕ) (x : F) where
    before_placed :
        (p c : Clip F)
        → recorded_by t p.recorded_at ≡ true
        → lt p.sort_index x ≡ true
        → (recorded_by t c.recorded_at ≡ false) ⊎ (earlier p.recorded_at c.recorded_at ≡ false)
        → (p ≡ c) ⊎ (same_time p.recorded_at c.recorded_at ≡ false)
        → InOrder c p
        → (earlier c.recorded_at (some t) ≡ false) ⊎ (lt c.sort_index x ≡ true)
    before_placed p c by less (inl not_by) apart ordered =
        inl (not_by_before t c.recorded_at not_by)
    before_placed p c by less (inr older) (inl same) ordered =
        inr (subst (λ (r : Clip F). lt r.sort_index x ≡ true) same less)
    before_placed p c by less (inr older) (inr apart) ordered =
        elim (before_previous t p.recorded_at c.recorded_at by older apart) [
          | inl out ↦ inl out
          | inr before ↦ elim ordered [
            | inl not_before ↦ absurd (cc)
            | inr sorted ↦ inr (order.lt_trans c.sort_index p.sort_index x sorted less)
          ]
        ]

    behind_placed :
        (n c : Clip F)
        → recorded_after t n.recorded_at ≡ true
        → lt x n.sort_index ≡ true
        → (recorded_after t c.recorded_at ≡ false) ⊎ (earlier c.recorded_at n.recorded_at ≡ false)
        → (n ≡ c) ⊎ (same_time n.recorded_at c.recorded_at ≡ false)
        → InOrder n c
        → (earlier (some t) c.recorded_at ≡ false) ⊎ (lt x c.sort_index ≡ true)
    behind_placed n c behind less (inl not_after) apart ordered =
        inl (not_after_behind t c.recorded_at not_after)
    behind_placed n c behind less (inr newer) (inl same) ordered =
        inr (subst (λ (r : Clip F). lt x r.sort_index ≡ true) same less)
    behind_placed n c behind less (inr newer) (inr apart) ordered =
        elim (behind_next t n.recorded_at c.recorded_at behind newer apart) [
          | inl out ↦ inl out
          | inr after ↦ elim ordered [
            | inl not_after ↦ absurd (cc)
            | inr sorted ↦ inr (order.lt_trans x n.sort_index c.sort_index less sorted)
          ]
        ]

  module _ (order : IsOrdered env.ops.floats) (t : ℕ) (rows : List (Clip F))
      (chronological : IsChronological rows) (distinct : HasDistinctTimes rows) where
    -- All rows are rightly before an index above the previous clip's.
    sorted_before :
        (p : Clip F) (x : F)
        → previous_clip t rows ≡ some p
        → lt p.sort_index x ≡ true
        → All (λ c. (earlier c.recorded_at (some t) ≡ false) ⊎ (lt c.sort_index x ≡ true)) rows
    sorted_before p x e less =
        let found : IsPrevious t rows (some p) =
          subst (IsPrevious t rows) e (previous_clip-IsPrevious t rows) in
        All-map rows (λ c h. before_placed order t x p c found.0 less h.0 h.1.0 h.1.1)
          (All-both _ _ rows found.1 (
            All-both _ _ rows
              (previous_clip-All
                (λ a. All (λ b. (a ≡ b) ⊎ (same_time a.recorded_at b.recorded_at ≡ false)) rows) t
                rows p distinct e)
              (All-map rows (λ c h. previous_clip-All (InOrder c) t rows p h e) chronological)))

    sorted_behind :
        (n : Clip F) (x : F)
        → next_clip t rows ≡ some n
        → lt x n.sort_index ≡ true
        → All (λ c. (earlier (some t) c.recorded_at ≡ false) ⊎ (lt x c.sort_index ≡ true)) rows
    sorted_behind n x e less =
        let found : IsNext t rows (some n) = subst (IsNext t rows) e (next_clip-IsNext t rows) in
        All-map rows (λ c h. behind_placed order t x n c found.0 less h.0 h.1.0 h.1.1)
          (All-both _ _ rows found.1 (
            All-both _ _ rows
              (next_clip-All
                (λ a. All (λ b. (a ≡ b) ⊎ (same_time a.recorded_at b.recorded_at ≡ false)) rows) t
                rows n distinct e)
              (next_clip-All (λ a. All (λ b. InOrder a b) rows) t rows n chronological e)))

    none_before :
        (x : F)
        → previous_clip t rows ≡ none
        → All (λ c. (earlier c.recorded_at (some t) ≡ false) ⊎ (lt c.sort_index x ≡ true)) rows
    none_before x e =
        All-map rows (λ c h. inl (not_by_before t c.recorded_at h))
          (subst (IsPrevious t rows) e (previous_clip-IsPrevious t rows))

    none_behind :
        (x : F)
        → next_clip t rows ≡ none
        → All (λ c. (earlier (some t) c.recorded_at ≡ false) ⊎ (lt x c.sort_index ≡ true)) rows
    none_behind x e =
        All-map rows (λ c h. inl (not_after_behind t c.recorded_at h))
          (subst (IsNext t rows) e (next_clip-IsNext t rows))

    placed :
        (m : F) (p n : Option (Clip F))
        → max_sort_index env.ops.floats rows ≡ some m
        → previous_clip t rows ≡ p
        → next_clip t rows ≡ n
        → HasRoom (some m) p n
        → All (IsPlaced t (fractional_index env (some m) p n)) rows
    unfolding fractional_index
    placed m none none e k l room = All-both _ _ rows (none_before _ k) (none_behind _ l)
    placed m none (some n) e k l room =
        All-both _ _ rows (none_before _ k) (sorted_behind n _ l room)
    placed m (some p) none e k l room =
        All-both _ _ rows
          (All-map rows (λ c h. inr (lt_false_trans env.ops.floats order c.sort_index m _ h room))
            (subst (IsMax env.ops.floats order rows) e
              (max_sort_index-IsMax env.ops.floats order rows)))
          (none_behind _ l)
    placed m (some p) (some n) e k l room =
        All-both _ _ rows (sorted_before p _ k room.0) (sorted_behind n _ l room.1)

  -- Among clips that are sorted in the order in which they were recorded, at different instants, a new clip's sort
  -- index lies above that of every clip recorded earlier and below that of every clip recorded later. The order of the
  -- floats is one without NaN, and has room at the ends and between the neighbours.
  pub fractional_index-IsPlaced :
      (order : IsOrdered env.ops.floats) (t : ℕ) (rows : List (Clip F))
      → IsChronological rows
      → HasDistinctTimes rows
      → HasRoom (max_sort_index env.ops.floats rows) (previous_clip t rows) (next_clip t rows)
      → All
          (IsPlaced t (
            fractional_index env
              (max_sort_index env.ops.floats rows)
              (previous_clip t rows)
              (next_clip t rows)))
          rows
  fractional_index-IsPlaced order t rows chronological distinct room =
      go (max_sort_index env.ops.floats rows) refl room
    where
      go :
          (o : Option F)
          → max_sort_index env.ops.floats rows ≡ o
          → HasRoom o (previous_clip t rows) (next_clip t rows)
          → All (IsPlaced t (fractional_index env o (previous_clip t rows) (next_clip t rows))) rows
      go none e k = max_sort_index-All env.ops.floats order _ rows e
      go (some m) e k =
          placed order t rows chronological distinct m (previous_clip t rows) (next_clip t rows) e
            refl refl k
