-- ===== src/Compilations/Queries.antt =====
-- domains/compilations/repository.py: the queries of the compilations domain.
use video_journal_be.Prelude.{ℕ, Bool, true, false, ◌||◌, List, [], ◌∷◌, ◌==◌, ltb, take}
use video_journal_be.Models.{
  Clip, ClipStatus, ready, Compilation, CompilationStatus, running, complete, CompilationClip,
}
use video_journal_be.Float.{FloatOps}
use video_journal_be.Session.Rows.{select}
use video_journal_be.Clips.Queries.{order_by, page, by_sort_index}

abbrev pub is_running : CompilationStatus → Bool
is_running running = true
is_running _ = false

abbrev pub is_complete : CompilationStatus → Bool
is_complete complete = true
is_complete _ = false

abbrev pub clip_is_ready : ClipStatus → Bool
clip_is_ready ready = true
clip_is_ready _ = false

module _ {F : Type 0} where
  unfoldable pub running_exists : List (Compilation F) → Bool
  running_exists [] = false
  running_exists (c ∷ cs) = is_running c.status || running_exists cs

  newer : Compilation F → Compilation F → Bool
  newer a b = ltb b.created_at a.created_at

  unfoldable pub list_recent : ℕ → ℕ → List (Compilation F) → List (Compilation F)
  unfolding newer order_by
  list_recent limit offset rows = page limit offset (order_by newer rows)

  -- The snapshots of a compilation, as `selectinload` fetches them.
  unfoldable pub clips_of : ℕ → List (CompilationClip F) → List (CompilationClip F)
  unfolding select
  clips_of compilation_id rows =
      select (λ (c : CompilationClip F). c.compilation_id == compilation_id) rows

  by_position : CompilationClip F → CompilationClip F → Bool
  by_position a b = ltb a.position b.position

  -- `sorted(compilation.clips, key=lambda c: c.position)`
  unfoldable pub sorted_clips : List (CompilationClip F) → List (CompilationClip F)
  unfolding order_by by_position
  sorted_clips rows = order_by by_position rows

  -- The ready clips by their sort index, 500 at most.
  unfoldable pub get_ready_clips : FloatOps F → List (Clip F) → List (Clip F)
  unfolding order_by by_sort_index select
  get_ready_clips floats rows =
      take 500
        (order_by (by_sort_index floats) (select (λ (c : Clip F). clip_is_ready c.status) rows))
