-- ===== src/Compilations/Service/Refusals.antt =====
-- The statuses of the errors that the requests on compilations end in.
use video_journal_be.Prelude.{ℕ, ◌+◌, refl, Option, none, some, List, [], ◌∷◌}
use video_journal_be.Errors.{Text, not_found, conflict}
use video_journal_be.Errors.Listed.{IsListed}
use video_journal_be.Models.{Clip, Compilation}
use video_journal_be.Session.{
  Env, put_compilation, put_compilation_clip, delete_compilation, delete_compilation_clips,
}
use video_journal_be.Session.Refusing.{
  Refuses, Refuses-bind, Refuses-then, Refuses-pure, Refuses-raise, Refuses-require, Refuses-look,
  Refuses-if, Refuses-raise_when, Refuses-delete_file, Refuses-path_of, Refuses-flush,
  Refuses-commit, Refuses-request,
}
use video_journal_be.Compilations.Queries.{running_exists, get_ready_clips, is_running, is_complete}
use video_journal_be.Compilations.Service.{
  validation_error, CompilationCreate, find_compilation, find_soundtrack,
  check_no_running_compilation, validate_soundtrack, at_least_one, ready_clips, snapshot_of,
  add_snapshots, new_compilation, create, get_compilation, delete_output, delete_compilation_row,
  output_path, open_output, post_compilation, remove_compilation,
}

module _ {F : Type 0} (env : Env F) where
  check_no_running-Refuses :
      {statuses : List ℕ}
      → IsListed statuses conflict
      → Refuses statuses (check_no_running_compilation env)
  unfolding check_no_running_compilation
  check_no_running-Refuses h =
      Refuses-look (λ w. Refuses-raise_when (running_exists w.working.compilations) conflict h)

  validate_soundtrack-Refuses :
      {statuses : List ℕ} (soundtrack_id : ℕ)
      → IsListed statuses not_found
      → Refuses statuses (validate_soundtrack env soundtrack_id)
  unfolding validate_soundtrack
  validate_soundtrack-Refuses soundtrack_id h = Refuses-look (λ w.
      Refuses-bind (Refuses-require (find_soundtrack env soundtrack_id w) not_found h)
        (λ s. Refuses-pure tt))

  at_least_one-Refuses :
      {statuses : List ℕ} (clips : List (Clip F))
      → IsListed statuses conflict
      → Refuses statuses (at_least_one env clips)
  unfolding at_least_one
  at_least_one-Refuses [] h = Refuses-raise conflict h
  at_least_one-Refuses (c ∷ cs) h = Refuses-pure (c ∷ cs)

  ready_clips-Refuses :
      {statuses : List ℕ} → IsListed statuses conflict → Refuses statuses (ready_clips env)
  unfolding ready_clips
  ready_clips-Refuses h =
      Refuses-look (λ w. at_least_one-Refuses (get_ready_clips env.ops.floats w.working.clips) h)

  add_snapshots-Refuses :
      {statuses : List ℕ} (compilation_id position : ℕ) (clips : List (Clip F))
      → Refuses statuses (add_snapshots env compilation_id position clips)
  unfolding add_snapshots
  add_snapshots-Refuses compilation_id position [] = Refuses-pure []
  add_snapshots-Refuses compilation_id position (clip ∷ clips) =
      Refuses-then
        (Refuses-flush env (put_compilation_clip (snapshot_of env compilation_id position clip)))
        (Refuses-bind (add_snapshots-Refuses compilation_id (position + 1) clips)
          (λ rest. Refuses-pure (snapshot_of env compilation_id position clip ∷ rest)))

  pub post_compilation-Refuses :
      (compilation_id now : ℕ) (data_in : CompilationCreate F)
      → Refuses (404 ∷ 409 ∷ 422 ∷ []) (post_compilation env compilation_id now data_in)
  unfolding post_compilation create
  post_compilation-Refuses compilation_id now data_in = Refuses-request env (
      Refuses-then (Refuses-raise_when _ validation_error refl) (
        Refuses-bind
          (Refuses-then (check_no_running-Refuses refl) (
            Refuses-then (validate_soundtrack-Refuses data_in.soundtrack_id refl) (
              Refuses-bind (ready_clips-Refuses refl) (λ clips.
                Refuses-then
                  (Refuses-flush env
                    (put_compilation (new_compilation env compilation_id now data_in)))
                  (Refuses-bind (add_snapshots-Refuses compilation_id 0 clips) (λ snapshots.
                    Refuses-pure (new_compilation env compilation_id now data_in, snapshots)))))))
          (λ made. Refuses-then (Refuses-commit env) (Refuses-pure made))))

  get_compilation-Refuses :
      {statuses : List ℕ} (compilation_id : ℕ)
      → IsListed statuses not_found
      → Refuses statuses (get_compilation env compilation_id)
  unfolding get_compilation
  get_compilation-Refuses compilation_id h =
      Refuses-look (λ w. Refuses-require (find_compilation env compilation_id w) not_found h)

  delete_output-Refuses :
      {statuses : List ℕ} (key : Option Text) → Refuses statuses (delete_output env key)
  unfolding delete_output
  delete_output-Refuses none = Refuses-pure tt
  delete_output-Refuses (some key) = Refuses-delete_file env key

  pub remove_compilation-Refuses :
      (compilation_id : ℕ) → Refuses (404 ∷ 409 ∷ []) (remove_compilation env compilation_id)
  unfolding remove_compilation delete_compilation_row
  remove_compilation-Refuses compilation_id = Refuses-request env (
      Refuses-bind (get_compilation-Refuses compilation_id refl) (λ c.
        Refuses-then (Refuses-raise_when (is_running c.status) conflict refl) (
          Refuses-then (delete_output-Refuses c.output_key) (
            Refuses-then (Refuses-flush env (delete_compilation_clips compilation_id))
              (Refuses-flush env (delete_compilation c.id))))))

  output_path-Refuses :
      {statuses : List ℕ} (c : Compilation F) (key : Option Text)
      → IsListed statuses not_found
      → Refuses statuses (output_path env c key)
  unfolding output_path
  output_path-Refuses c none h = Refuses-raise not_found h
  output_path-Refuses c (some key) h =
      Refuses-if (is_complete c.status) (Refuses-path_of env key) (Refuses-raise not_found h)

  pub open_output-Refuses :
      {statuses : List ℕ} (compilation_id : ℕ)
      → IsListed statuses not_found
      → Refuses statuses (open_output env compilation_id)
  unfolding open_output
  open_output-Refuses compilation_id h =
      Refuses-bind (get_compilation-Refuses compilation_id h)
        (λ c. output_path-Refuses c c.output_key h)
