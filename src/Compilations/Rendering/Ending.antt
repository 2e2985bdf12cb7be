-- ===== src/Compilations/Rendering/Ending.antt =====
-- How a render ends: its row is complete or failed, and the event stream is told the same.
use video_journal_be.Prelude.{ℕ, ◌≡◌, refl, ap, ◌∙◌, ◌<◌, ◌^◌, false, none, some, [], ◌⊎◌, inl, inr}
use video_journal_be.Errors.{Error, Result, ok, err}
use video_journal_be.Models.{Compilation, Tables}
use video_journal_be.Models
use video_journal_be.Storage.{FilePath, read, write}
use video_journal_be.Storage.Files.{read-unlink_self}
use video_journal_be.Progress.{finalize, register}
use video_journal_be.Progress.Ending.{get_terminal-finalize}
use video_journal_be.Session.{
  World, Env, put_compilation, apply, rollback, open_temp, unlink_temp, try_except, try_finally,
}
use video_journal_be.Session.Rows.{find}
use video_journal_be.Session.Laws.{
  Outcome, Outcome-mono, Outcome-try, Outcome-finally, flush_lem, commit_lem,
}
use video_journal_be.Compilations.Service.{find_compilation}
use video_journal_be.Compilations.Rendering.{
  on_registry, failure, message_of, render, mark_failed, render_failed, render_found, render_row,
  run_compilation, close, run_render,
}
use video_journal_be.Compilations.Rendering.Publishing.{
  committed_row, as_running, IsPublished, IsFailed, find_written, render-Outcome,
}

module _ {F : Type 0} (env : Env F) (dst : FilePath) (now : ℕ) (c : Compilation F)
    (small : c.id < 2 ^ 128) where
  -- What an `except` clause makes of an error.
  render_failed-Outcome :
      (e : Error) (w : World F)
      → committed_row c.id w ≡ some c
      → Outcome
          (λ _ w'. IsFailed env dst now c small w')
          (λ _ w'. w'.committed ≡ w.committed)
          (render_failed env dst now c.id e w)
  unfolding render_failed failure on_registry rollback find_compilation mark_failed apply
  render_failed-Outcome e w found =
      let r : Compilation F = record c {
        status = Models.failed;
        error = some (message_of e);
        completed_at = some now;
      } in
      let w1 : World F = record w {
        progress = finalize c.id (failure (message_of e)) w.progress;
        working = w.committed;
        broken = false;
      } in
      let w2 : World F = record w1 { working = apply (put_compilation r) w1.working } in
      rw found (elim (flush_lem env (put_compilation r) w1) [
        | inl written ↦ rw written (elim (commit_lem env w2) [
          | inl (intact, granted) ↦ rw granted (
            message_of e,
            find_written env dst now c small r w.committed.compilations refl,
            get_terminal-finalize c.id (failure (message_of e)) w.progress,
          )
          | inr refused ↦ rw refused refl
        ])
        | inr refused ↦ rw refused refl
      ])

  -- Rendering with both `except` clauses and the `finally`.
  guarded-Outcome :
      (w : World F)
      → committed_row c.id w ≡ some c
      → Outcome
          (λ _ w'.
            (IsPublished env dst now c small w' ⊎ IsFailed env dst now c small w')
            × (read dst w'.temps ≡ none))
          (λ _ w'. (w'.committed ≡ w.committed) × (read dst w'.temps ≡ none))
          (try_finally
            (try_except (render env dst now c) (render_failed env dst now c.id))
            (unlink_temp dst)
            w)
  unfolding unlink_temp
  guarded-Outcome w found =
      Outcome-finally _ _ (try_except (render env dst now c) (render_failed env dst now c.id))
        (unlink_temp dst) w
        (Outcome-mono (λ _ w'. IsPublished env dst now c small w' ⊎ IsFailed env dst now c small w')
          _ (λ _ w'. w'.committed ≡ w.committed) _ _
          (λ _ w' end. (end, read-unlink_self dst w'.temps))
          (λ _ w' same. (same, read-unlink_self dst w'.temps))
          (Outcome-try _ _ (render env dst now c) (render_failed env dst now c.id) w (
            Outcome-mono (λ _ w'. IsPublished env dst now c small w') _
              (λ _ w'. w'.committed ≡ w.committed) _ (render env dst now c w) (λ _ w' end. inl end)
              (λ e w' same.
                Outcome-mono (λ _ w2. IsFailed env dst now c small w2) _
                  (λ _ w2. w2.committed ≡ w'.committed) _ (render_failed env dst now c.id e w')
                  (λ _ w2 end. inr end) (λ _ w2 g. g ∙ same)
                  (render_failed-Outcome e w' (
                    ap (λ (t : Tables F). find (λ (x : Compilation F). x.id) c.id t.compilations)
                      same
                    ∙ found)))
              (render-Outcome env dst now c small w))))

module _ {F : Type 0} (env : Env F) (dst : FilePath) (now : ℕ) (c : Compilation F)
    (small : c.id < 2 ^ 128) where
  -- How a render may end that returns, and one that raises.
  abbrev pub HasEnded : World F → Type 0
  HasEnded w =
      (IsPublished env dst now (as_running c) small w ⊎ IsFailed env dst now (as_running c) small w)
      × (read dst w.temps ≡ none)

  abbrev pub IsStuck : World F → Type 0
  IsStuck w =
      ((committed_row c.id w ≡ some c) ⊎ (committed_row c.id w ≡ some (as_running c)))
      × (read dst w.temps ≡ none)

  close-Outcome :
      (r : Result (Unit {0}) × World F)
      → Outcome (λ _ w'. HasEnded w') (λ _ w'. IsStuck w') r
      → Outcome (λ _ w'. HasEnded w') (λ _ w'. IsStuck w') (close env dst r)
  unfolding close
  close-Outcome (ok a, w) h = h
  close-Outcome (err e, w) h = h

  render_found-Outcome :
      (w : World F)
      → committed_row c.id w ≡ some c
      → read dst w.temps ≡ none
      → Outcome (λ _ w'. HasEnded w') (λ _ w'. IsStuck w') (render_found env dst now c w)
  unfolding render_found on_registry apply open_temp
  render_found-Outcome w found clean =
      let r : Compilation F = as_running c in
      let w0 : World F = record w { progress = register c.id w.progress } in
      let w1 : World F = record w0 { working = apply (put_compilation r) w.working } in
      elim (flush_lem env (put_compilation r) w0) [
        | inl written ↦ rw written (elim (commit_lem env w1) [
          | inl (intact, granted) ↦ rw granted (
              let w2 : World F = record w1 {
                committed = w1.working;
                temps = write dst [] w.temps;
              } in
              let row : committed_row c.id w2 ≡ some r =
                find_written env dst now r small r w.working.compilations refl in
              Outcome-mono (λ _ w'. HasEnded w') (λ _ w'. HasEnded w')
                (λ _ w'. (w'.committed ≡ w2.committed) × (read dst w'.temps ≡ none))
                (λ _ w'. IsStuck w')
                (try_finally (try_except (render env dst now r) (render_failed env dst now c.id))
                  (unlink_temp dst) w2)
                (λ _ w' end. end)
                (λ _ w' same. (
                  inr (
                      ap (λ (t : Tables F). find (λ (x : Compilation F). x.id) c.id t.compilations)
                        same.0
                      ∙ row),
                  same.1,
                ))
                (guarded-Outcome env dst now r small w2 row))
          | inr refused ↦ rw refused (inl found, clean)
        ])
        | inr refused ↦ rw refused (inl found, clean)
      ]

  -- The background task of a stored compilation, when it returns, has committed it as complete, with what an ffmpeg that
  -- exited with 0 has left in the storage under the row's key, or as failed; the event stream's final state tells the
  -- same: 100 per cent and the video's address, or the message that the row has. When it
  -- raises, the row is as before or running. The temporary file is gone in every case, if it was not there before.
  pub run_render-Outcome :
      (w : World F)
      → committed_row c.id w ≡ some c
      → read dst w.temps ≡ none
      → Outcome (λ _ w'. HasEnded w') (λ _ w'. IsStuck w') (run_render env dst now c.id w)
  unfolding run_render run_compilation render_row find_compilation
  run_render-Outcome w found clean =
      let w0 : World F = record w { working = w.committed; broken = false } in
      let ran : Outcome (λ _ w'. HasEnded w') (λ _ w'. IsStuck w')
          (run_compilation env dst now c.id w0) =
        rw found (render_found-Outcome w0 found clean) in
      close-Outcome (run_compilation env dst now c.id w0) ran
