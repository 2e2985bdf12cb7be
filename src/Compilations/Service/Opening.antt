-- ===== src/Compilations/Service/Opening.antt =====
-- Where the output of a compilation is found, in consistent tables.
use video_journal_be.Prelude.{ℕ, ◌≡◌, refl, inl, inr, Option, none, some, Option-cases, ◌++◌}
use video_journal_be.Errors.{Text, Result, ok, err, not_found}
use video_journal_be.Models.{Compilation, CompilationStatus, pending, running, complete, failed}
use video_journal_be.Storage.{FilePath}
use video_journal_be.Naming.Keys.{output, asset_key, place, resolve-asset}
use video_journal_be.Session.{World, Env}
use video_journal_be.Session.Laws.{path_of_lem}
use video_journal_be.Session.Consistent.{IsConsistentCompilation, IsConsistentWorld, IsTable-find}
use video_journal_be.Compilations.Queries.{is_complete}
use video_journal_be.Compilations.Service.{
  find_compilation, get_compilation, output_path, open_output,
}

-- What can be served of a compilation: its output, where it is complete.
abbrev pub finished_path :
    {F : Type 0} → Env F → ℕ → CompilationStatus → Option Text → Result FilePath
finished_path env k complete (some key) = ok (env.base ++ place (output k))
finished_path env k complete none = err not_found
finished_path env k pending key = err not_found
finished_path env k running key = err not_found
finished_path env k failed key = err not_found

abbrev pub rendered_path : {F : Type 0} → Env F → Option (Compilation F) → Result FilePath
rendered_path env none = err not_found
rendered_path env (some c) = finished_path env c.id c.status c.output_key

module _ {F : Type 0} (env : Env F) where
  output_path_lem :
      (c : Compilation F) (w : World F)
      → IsConsistentCompilation c
      → output_path env c c.output_key w ≡ (rendered_path env (some c), w)
  unfolding output_path is_complete
  output_path_lem c w h = elim h.output [
    | inl missing ↦ rw missing (absent c.status)
    | inr same ↦ rw same (present c.status refl)
  ]
    where
      absent :
          (s : CompilationStatus) → output_path env c none w ≡ (finished_path env c.id s none, w)
      absent pending = refl
      absent running = refl
      absent complete = refl
      absent failed = refl

      present :
          (s : CompilationStatus)
          → c.status ≡ s
          → output_path env c (some (asset_key (output c.id))) w
            ≡ (finished_path env c.id s (some (asset_key (output c.id))), w)
      present pending e = rw e refl
      present running e = rw e refl
      present failed e = rw e refl
      present complete e = rw e (
          path_of_lem env (asset_key (output c.id)) (env.base ++ place (output c.id)) w
            (resolve-asset env.base (output c.id) h.bound))

  -- `open_output` in consistent tables.
  pub open_output_lem :
      (compilation_id : ℕ) (w : World F)
      → IsConsistentWorld w
      → open_output env compilation_id w
        ≡ (rendered_path env (find_compilation env compilation_id w), w)
  unfolding open_output get_compilation
  open_output_lem compilation_id w k = elim (Option-cases (find_compilation env compilation_id w)) [
    | inl e ↦ rw e refl
    | inr (c, e) ↦ rw e (output_path_lem c w (consistent c e))
  ]
    where
      consistent :
          (c : Compilation F)
          → find_compilation env compilation_id w ≡ some c
          → IsConsistentCompilation c
      consistent c e =
          unfold find_compilation in
          IsTable-find (λ (r : Compilation F). r.id) IsConsistentCompilation compilation_id
            w.working.compilations k.1.compilations e
