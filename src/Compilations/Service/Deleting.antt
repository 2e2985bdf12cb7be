-- ===== src/Compilations/Service/Deleting.antt =====
-- Deleting a compilation: the output file, its snapshots and its row go, unless it is running.
use video_journal_be.Prelude.{ℕ, ◌≡◌, refl, true, false, Option, none, some, ◌==◌, inl, inr}
use video_journal_be.Errors.{Text, ok, err, conflict, unexpected}
use video_journal_be.Models.{Compilation, CompilationClip, Tables}
use video_journal_be.Storage.{FilePath, resolve, read, unlink}
use video_journal_be.Storage.Files.{read-unlink_self}
use video_journal_be.Session.{
  World, Env, ◌>>◌, delete_compilation, delete_compilation_clips, apply, flush,
}
use video_journal_be.Session.Rows.{find, remove, reject}
use video_journal_be.Session.Laws.{
  Outcome, flush_lem, request-Outcome, request_raised, delete_file_lem,
}
use video_journal_be.Compilations.Queries.{is_running}
use video_journal_be.Compilations.Service.{
  find_compilation, get_compilation, delete_output, delete_compilation_row, remove_compilation,
}

module _ {F : Type 0} (env : Env F) where
  abbrev pub committed_row : ℕ → World F → Option (Compilation F)
  committed_row k w = find (λ (c : Compilation F). c.id) k w.committed.compilations

  abbrev fresh : World F → World F
  fresh w = record w { working = w.committed; broken = false }

  -- A compilation that is running cannot be deleted: the request ends in ConflictError and nothing changes.
  pub remove_running :
      (k : ℕ) (w : World F) (c : Compilation F)
      → committed_row k w ≡ some c
      → is_running c.status ≡ true
      → remove_compilation env k w
        ≡ (err conflict, record w { working = w.committed; broken = false })
  unfolding remove_compilation delete_compilation_row get_compilation find_compilation
  remove_running k w c found busy =
      let refused : delete_compilation_row env k (fresh w) ≡ (err conflict, fresh w) =
        rw (found, busy) refl in
      request_raised env (delete_compilation_row env k) w refused

  -- The tables without the compilation and its snapshots.
  abbrev pub without : ℕ → Tables F → Tables F
  without k t = record t {
    compilations = remove (λ (c : Compilation F). c.id) k t.compilations;
    compilation_clips =
        reject (λ (r : CompilationClip F). r.compilation_id == k) t.compilation_clips;
  }

  emptied :
      (w : World F) (c : Compilation F) (key : Text) (p : FilePath)
      → committed_row c.id w ≡ some c
      → is_running c.status ≡ false
      → c.output_key ≡ some key
      → resolve env.base key ≡ ok p
      → delete_compilation_row env c.id (fresh w)
        ≡ (flush env (delete_compilation_clips c.id) >> flush env (delete_compilation c.id))
            (record (fresh w) { files = unlink p w.files })
  unfolding delete_compilation_row get_compilation find_compilation delete_output
  emptied w c key p found idle has at =
      rw (found, idle, has, delete_file_lem env key p (fresh w) at) refl

  -- Deleting a compilation that has an output and is not running: when the request returns, its row and its
  -- snapshots are gone; when it raises, the tables are as before. The output file is gone in both cases.
  -- The storage accepts the key of the output.
  pub remove_compilation-Outcome :
      (w : World F) (c : Compilation F) (key : Text) (p : FilePath)
      → committed_row c.id w ≡ some c
      → is_running c.status ≡ false
      → c.output_key ≡ some key
      → resolve env.base key ≡ ok p
      → Outcome
          (λ _ w'. (w'.committed ≡ without c.id w.committed) × (read p w'.files ≡ none))
          (λ e w'. (w'.committed ≡ w.committed) × (e ≡ unexpected) × (read p w'.files ≡ none))
          (remove_compilation env c.id w)
  unfolding remove_compilation apply
  remove_compilation-Outcome w c key p found idle has at =
      let w1 : World F = record (fresh w) { files = unlink p w.files } in
      let w2 : World F = record w1 { working = apply (delete_compilation_clips c.id) w1.working } in
      let gone : read p w1.files ≡ none = read-unlink_self p w.files in
      request-Outcome env _ _ (delete_compilation_row env c.id) w (
        rw (emptied w c key p found idle has at)
          (elim (flush_lem env (delete_compilation_clips c.id) w1) [
            | inl first ↦ rw first (elim (flush_lem env (delete_compilation c.id) w2) [
              | inl second ↦ rw second (λ _. (refl, gone), (refl, refl, gone))
              | inr refused ↦ rw refused (refl, refl, gone)
            ])
            | inr refused ↦ rw refused (refl, refl, gone)
          ]))
