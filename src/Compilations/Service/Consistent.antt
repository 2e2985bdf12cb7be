-- ===== src/Compilations/Service/Consistent.antt =====
-- The requests on compilations leave the tables consistent.
use video_journal_be.Prelude.{ℕ, ◌+◌, ◌<◌, ◌^◌, refl, inl, Option, none, some, List, [], ◌∷◌}
use video_journal_be.Errors.{Text, not_found, conflict}
use video_journal_be.Models.{Clip, Compilation}
use video_journal_be.Session.{
  Env, put_compilation, put_compilation_clip, delete_compilation, delete_compilation_clips,
}
use video_journal_be.Session.Consistent.{IsConsistentCompilation, IsTable-find}
use video_journal_be.Session.Keeping.{
  KeepsConsistent-guard, Anything, KeepsConsistent, KeepsConsistent-bind, KeepsConsistent-commit,
  KeepsConsistent-delete_file, KeepsConsistent-flush, KeepsConsistent-if, KeepsConsistent-look,
  KeepsConsistent-path_of, KeepsConsistent-pure, KeepsConsistent-raise, KeepsConsistent-raise_when,
  KeepsConsistent-request, KeepsConsistent-require, KeepsConsistent-same, KeepsConsistent-then,
}
use video_journal_be.Compilations.Queries.{get_ready_clips, is_running, is_complete}
use video_journal_be.Compilations.Service.{
  validation_error, is_volume, CompilationCreate, find_compilation, find_soundtrack,
  check_no_running_compilation, validate_soundtrack, at_least_one, ready_clips, snapshot_of,
  add_snapshots, new_compilation, create, get_compilation, delete_output, delete_compilation_row,
  post_compilation, remove_compilation, output_path, open_output,
}

module _ {F : Type 0} (env : Env F) where
  check_no_running_compilation-KeepsConsistent :
      KeepsConsistent Anything (check_no_running_compilation env)
  unfolding check_no_running_compilation
  check_no_running_compilation-KeepsConsistent =
      KeepsConsistent-same (check_no_running_compilation env) (λ w. (refl, refl))

  validate_soundtrack-KeepsConsistent :
      (soundtrack_id : ℕ) → KeepsConsistent Anything (validate_soundtrack env soundtrack_id)
  unfolding validate_soundtrack
  validate_soundtrack-KeepsConsistent soundtrack_id = KeepsConsistent-look (λ w k.
      KeepsConsistent-bind {P = Anything}
        (KeepsConsistent-require (find_soundtrack env soundtrack_id w) not_found (λ _ _. tt))
        (λ s _. KeepsConsistent-pure tt tt))

  at_least_one-KeepsConsistent :
      (clips : List (Clip F)) → KeepsConsistent Anything (at_least_one env clips)
  unfolding at_least_one
  at_least_one-KeepsConsistent [] = KeepsConsistent-raise conflict
  at_least_one-KeepsConsistent (c ∷ cs) = KeepsConsistent-pure (c ∷ cs) tt

  ready_clips-KeepsConsistent : KeepsConsistent Anything (ready_clips env)
  unfolding ready_clips
  ready_clips-KeepsConsistent =
      KeepsConsistent-look
        (λ w k. at_least_one-KeepsConsistent (get_ready_clips env.ops.floats w.working.clips))

  add_snapshots-KeepsConsistent :
      (compilation_id position : ℕ) (clips : List (Clip F))
      → KeepsConsistent Anything (add_snapshots env compilation_id position clips)
  unfolding add_snapshots
  add_snapshots-KeepsConsistent compilation_id position [] = KeepsConsistent-pure [] tt
  add_snapshots-KeepsConsistent compilation_id position (clip ∷ clips) =
      KeepsConsistent-then
        (KeepsConsistent-flush env
          (put_compilation_clip (snapshot_of env compilation_id position clip)) tt)
        (KeepsConsistent-bind (add_snapshots-KeepsConsistent compilation_id (position + 1) clips)
          (λ rest _. KeepsConsistent-pure (snapshot_of env compilation_id position clip ∷ rest) tt))

  new_compilation-IsConsistentCompilation :
      (compilation_id now : ℕ) (data_in : CompilationCreate F)
      → compilation_id < 2 ^ 128
      → IsConsistentCompilation (new_compilation env compilation_id now data_in)
  unfolding new_compilation
  new_compilation-IsConsistentCompilation compilation_id now data_in h = record {
    bound = h;
    output = inl refl;
    finished = inl refl;
  }

  create-KeepsConsistent :
      (compilation_id now : ℕ) (data_in : CompilationCreate F)
      → compilation_id < 2 ^ 128
      → KeepsConsistent Anything (create env compilation_id now data_in)
  unfolding create
  create-KeepsConsistent compilation_id now data_in h =
      KeepsConsistent-then check_no_running_compilation-KeepsConsistent (
        KeepsConsistent-then (validate_soundtrack-KeepsConsistent data_in.soundtrack_id) (
          KeepsConsistent-bind ready_clips-KeepsConsistent (λ clips _.
            KeepsConsistent-then
              (KeepsConsistent-flush env
                (put_compilation (new_compilation env compilation_id now data_in))
                (new_compilation-IsConsistentCompilation compilation_id now data_in h))
              (KeepsConsistent-bind (add_snapshots-KeepsConsistent compilation_id 0 clips)
                (λ snapshots _.
                  KeepsConsistent-pure (new_compilation env compilation_id now data_in, snapshots)
                    tt)))))

  get_compilation-KeepsConsistent :
      (compilation_id : ℕ)
      → KeepsConsistent IsConsistentCompilation (get_compilation env compilation_id)
  unfolding get_compilation find_compilation
  get_compilation-KeepsConsistent compilation_id =
      let id_of : Compilation F → ℕ = λ c. c.id in
      KeepsConsistent-look (λ w k.
        KeepsConsistent-require (find_compilation env compilation_id w) not_found (λ c e.
          IsTable-find id_of IsConsistentCompilation compilation_id w.working.compilations
            k.1.compilations e))

  delete_output-KeepsConsistent :
      (key : Option Text) → KeepsConsistent Anything (delete_output env key)
  unfolding delete_output
  delete_output-KeepsConsistent none = KeepsConsistent-pure tt tt
  delete_output-KeepsConsistent (some key) = KeepsConsistent-delete_file env key

  delete_compilation_row-KeepsConsistent :
      (compilation_id : ℕ) → KeepsConsistent Anything (delete_compilation_row env compilation_id)
  unfolding delete_compilation_row
  delete_compilation_row-KeepsConsistent compilation_id =
      KeepsConsistent-bind (get_compilation-KeepsConsistent compilation_id) (λ compilation h.
        KeepsConsistent-then (KeepsConsistent-raise_when (is_running compilation.status) conflict) (
          KeepsConsistent-then (delete_output-KeepsConsistent compilation.output_key) (
            KeepsConsistent-then
              (KeepsConsistent-flush env (delete_compilation_clips compilation_id) tt)
              (KeepsConsistent-flush env (delete_compilation compilation.id) tt))))

  pub post_compilation-KeepsConsistent :
      (compilation_id now : ℕ) (data_in : CompilationCreate F)
      → compilation_id < 2 ^ 128
      → KeepsConsistent Anything (post_compilation env compilation_id now data_in)
  unfolding post_compilation
  post_compilation-KeepsConsistent compilation_id now data_in h = KeepsConsistent-request env (
      KeepsConsistent-guard (is_volume env data_in.clip_audio_volume) validation_error (λ _.
        KeepsConsistent-bind (create-KeepsConsistent compilation_id now data_in h) (λ made _.
          KeepsConsistent-then (KeepsConsistent-commit env) (KeepsConsistent-pure made tt))))

  pub remove_compilation-KeepsConsistent :
      (compilation_id : ℕ) → KeepsConsistent Anything (remove_compilation env compilation_id)
  unfolding remove_compilation
  remove_compilation-KeepsConsistent compilation_id =
      KeepsConsistent-request env (delete_compilation_row-KeepsConsistent compilation_id)

  output_path-KeepsConsistent :
      (c : Compilation F) (key : Option Text) → KeepsConsistent Anything (output_path env c key)
  unfolding output_path
  output_path-KeepsConsistent c none = KeepsConsistent-raise not_found
  output_path-KeepsConsistent c (some key) =
      KeepsConsistent-if (is_complete c.status) (KeepsConsistent-path_of env key)
        (KeepsConsistent-raise not_found)

  pub open_output-KeepsConsistent :
      (compilation_id : ℕ) → KeepsConsistent Anything (open_output env compilation_id)
  unfolding open_output
  open_output-KeepsConsistent compilation_id =
      KeepsConsistent-bind (get_compilation-KeepsConsistent compilation_id)
        (λ c h. output_path-KeepsConsistent c c.output_key)
