-- ===== src/Compilations/Service/Creating.antt =====
-- Creating a compilation: the row and one snapshot per ready clip, or nothing.
use mathlib.Core.List.{cons≢nil}
use video_journal_be.Prelude.{
  ℕ, ◌+◌, ◌≡◌, ◌≢◌, refl, sym, ap, ◌∙◌, false, some, List, [], ◌∷◌, ◌++◌, append-nil, append_assoc,
  inl, inr, Option-cases, Bool-cases,
}
use video_journal_be.Errors.{Error, conflict, not_found, Result, err}
use video_journal_be.Models.{Clip, Compilation, CompilationClip, Soundtrack, Tables}
use video_journal_be.Session.{
  World, Env, M, pure, ◌>>=◌, ◌>>◌, put_compilation, put_compilation_clip, apply, flush,
}
use video_journal_be.Session.Rows.{upsert}
use video_journal_be.Session.Laws.{Outcome, Outcome-bind, Outcome-mono, flush_lem}
use video_journal_be.Compilations.Queries.{running_exists, get_ready_clips}
use video_journal_be.Compilations.Service.{
  CompilationCreate, find_soundtrack, check_no_running_compilation, validate_soundtrack,
  ready_clips, snapshot_of, add_snapshots, new_compilation, create, at_least_one,
}

module _ {F : Type 0} (env : Env F) where
  -- One snapshot per clip, numbered from a position on.
  unfoldable pub numbered : ℕ → ℕ → List (Clip F) → List (CompilationClip F)
  numbered compilation_id position [] = []
  numbered compilation_id position (clip ∷ clips) =
      record {
        compilation_id = compilation_id;
        clip_id = clip.id;
        position = position;
        trim_in_s = clip.trim_in_s;
        trim_out_s = clip.trim_out_s;
      }
      ∷ numbered compilation_id (position + 1) clips

  abbrev pub with_snapshots : List (CompilationClip F) → Tables F → Tables F
  with_snapshots snaps t = record t { compilation_clips = t.compilation_clips ++ snaps }

  -- The database as it was last committed, and the disk, are the same.
  abbrev pub Untouched : World F → World F → Type 0
  Untouched w w' = (w'.committed ≡ w.committed) × (w'.files ≡ w.files)

  add_snapshots-Outcome :
      (compilation_id position : ℕ) (clips : List (Clip F)) (w : World F)
      → Outcome
          (λ snaps w'.
            (snaps ≡ numbered compilation_id position clips)
            × (w' ≡ record w {
              working = with_snapshots (numbered compilation_id position clips) w.working;
            }))
          (λ _ w'. Untouched w w')
          (add_snapshots env compilation_id position clips w)
  unfolding add_snapshots numbered apply snapshot_of
  add_snapshots-Outcome compilation_id position [] w = (
    refl,
    ap (λ l. record w { working = record w.working { compilation_clips = l } })
        (sym (append-nil w.working.compilation_clips)),
  )
  add_snapshots-Outcome compilation_id position (clip ∷ clips) w =
      let snap = snapshot_of env compilation_id position clip in
      let w1 : World F = record w { working = apply (put_compilation_clip snap) w.working } in
      let rest = numbered compilation_id (position + 1) clips in
      elim (flush_lem env (put_compilation_clip snap) w) [
        | inl written ↦ rw written (
            Outcome-bind _ _ (add_snapshots env compilation_id (position + 1) clips)
              (λ snaps. pure (snap ∷ snaps)) w1
              (Outcome-mono _ _ _ _ (add_snapshots env compilation_id (position + 1) clips w1)
                (λ snaps w2 h. (
                  ap (λ l. snap ∷ l) h.0,
                  h.1
                      ∙ ap (λ l. record w { working = record w.working { compilation_clips = l } })
                          (append_assoc w.working.compilation_clips (snap ∷ []) rest),
                ))
                (λ e w2 h. h) (add_snapshots-Outcome compilation_id (position + 1) clips w1)))
        | inr refused ↦ rw refused (refl, refl)
      ]

  abbrev pub ready_of : World F → List (Clip F)
  ready_of w = get_ready_clips env.ops.floats w.working.clips

  module _ (compilation_id now : ℕ) (request_body : CompilationCreate F) where
    abbrev pub made_of : World F → Compilation F × List (CompilationClip F)
    made_of w = (
      new_compilation env compilation_id now request_body,
      numbered compilation_id 0 (ready_of w),
    )

    -- The tables with the new row and its snapshots.
    unfoldable pub with_made : World F → Tables F
    with_made w = with_snapshots (numbered compilation_id 0 (ready_of w)) (record w.working {
      compilations =
          upsert (λ (c : Compilation F). c.id) (new_compilation env compilation_id now request_body)
            w.working.compilations;
    })

    -- What a request has to meet.
    abbrev pub IsAdmissible : World F → Type 0
    IsAdmissible w =
        (running_exists w.working.compilations ≡ false)
        × ((s : Soundtrack F) × (find_soundtrack env request_body.soundtrack_id w ≡ some s))
        × (ready_of w ≢ [])

    -- What follows the checks, given the ready clips.
    abbrev stored_from : List (Clip F) → M F (Compilation F × List (CompilationClip F))
    stored_from clips = do
      flush env (put_compilation (new_compilation env compilation_id now request_body))
      snapshots ← add_snapshots env compilation_id 0 clips
      pure (new_compilation env compilation_id now request_body, snapshots)

    create_checked :
        (P : Result (Compilation F × List (CompilationClip F)) × World F → Type 0) (w : World F)
        → ((e : Error) → P (err e, w))
        → (IsAdmissible w → P (stored_from (ready_of w) w))
        → P (create env compilation_id now request_body w)
    unfolding create check_no_running_compilation validate_soundtrack ready_clips at_least_one
    create_checked P w refused admitted =
        elim (Bool-cases (running_exists w.working.compilations)) [
          | inl busy ↦ rw busy (refused conflict)
          | inr free ↦ elim (Option-cases (find_soundtrack env request_body.soundtrack_id w)) [
            | inl absent ↦ rw (free, absent) (refused not_found)
            | inr (s, there) ↦
                let k : ready_of w ≢ [] → P (stored_from (ready_of w) w) =
                  λ some_clip. admitted (free, (s, there), some_clip) in
                rw (free, there) (started (ready_of w) k)
          ]
        ]
      where
        started :
            (clips : List (Clip F))
            → (clips ≢ [] → P (stored_from clips w))
            → P ((at_least_one env clips >>= stored_from) w)
        started [] k = refused conflict
        started (clip ∷ clips) k = k cons≢nil

    stored_from-Outcome :
        (w : World F)
        → Outcome
            (λ made w'. (made ≡ made_of w) × (w' ≡ record w { working = with_made w }))
            (λ _ w'. Untouched w w')
            (stored_from (ready_of w) w)
    unfolding with_made apply
    stored_from-Outcome w =
        let row : Compilation F = new_compilation env compilation_id now request_body in
        let w1 : World F = record w { working = apply (put_compilation row) w.working } in
        elim (flush_lem env (put_compilation row) w) [
          | inl written ↦ rw written (
              Outcome-bind _ _ (add_snapshots env compilation_id 0 (ready_of w))
                (λ snapshots. pure (row, snapshots)) w1
                (Outcome-mono _ _ _ _ (add_snapshots env compilation_id 0 (ready_of w) w1)
                  (λ snaps w2 h. (ap (λ l. (row, l)) h.0, h.1)) (λ e w2 h. h)
                  (add_snapshots-Outcome compilation_id 0 (ready_of w) w1)))
          | inr refused ↦ rw refused (refl, refl)
        ]

    -- Creating returns only where no compilation is running, the soundtrack exists and a clip is ready; it has then
    -- added a pending row and one snapshot per ready clip, in the order of the sort index (500 at most), numbered
    -- from 0 and with the trims of that moment, and nothing else. Where it raises, no commit and no file is changed.
    pub create-Outcome :
        (w : World F)
        → Outcome
            (λ made w'.
              IsAdmissible w × (made ≡ made_of w) × (w' ≡ record w { working = with_made w }))
            (λ _ w'. Untouched w w')
            (create env compilation_id now request_body w)
    create-Outcome w =
        create_checked
          (Outcome
            (λ made w'.
              IsAdmissible w × (made ≡ made_of w) × (w' ≡ record w { working = with_made w }))
            (λ _ w'. Untouched w w'))
          w (λ e. (refl, refl))
          (λ admissible.
            Outcome-mono (λ made w'. (made ≡ made_of w) × (w' ≡ record w { working = with_made w }))
              (λ made w'.
                IsAdmissible w × (made ≡ made_of w) × (w' ≡ record w { working = with_made w }))
              (λ _ w'. Untouched w w') (λ _ w'. Untouched w w') (stored_from (ready_of w) w)
              (λ made w' h. (admissible, h.0, h.1)) (λ e w' h. h) (stored_from-Outcome w))
