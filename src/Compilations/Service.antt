-- ===== src/Compilations/Service.antt =====
-- domains/compilations/service.py, on the request path, with the handlers of domains/compilations/router.py.
pub mod Creating
pub mod Posting
pub mod Deleting
pub mod Consistent
pub mod Opening
pub mod Refusals
use video_journal_be.Prelude.{
  ◌&&◌, ℕ, ◌+◌, Bool, true, false, not, ◌||◌, Option, none, some, List, [], ◌∷◌, if◌then◌else◌,
}
use video_journal_be.Errors.{validation_error, Text, Error, not_found, conflict}
use video_journal_be.Models.{
  Clip, Compilation, CompilationStatus, pending, CompilationClip, Soundtrack,
}
use video_journal_be.Storage.{FilePath}
use video_journal_be.Session.{
  World, Env, M, pure, raise, gets, require, ◌>>=◌, ◌>>◌, raise_when, put_compilation,
  put_compilation_clip, delete_compilation, delete_compilation_clips, flush, commit, request,
  delete_file, path_of,
}
use video_journal_be.Session.Rows.{find}
use video_journal_be.Compilations.Queries.{
  is_running, is_complete, running_exists, list_recent, clips_of, get_ready_clips,
}

-- `CompilationCreate`
pub record CompilationCreate (F : Type 0) : Type 0 where
  pub soundtrack_id : ℕ
  pub mix_clip_audio : Bool
  pub clip_audio_volume : F

module _ {F : Type 0} (env : Env F) where
  unfoldable pub find_compilation : ℕ → World F → Option (Compilation F)
  unfolding find
  find_compilation compilation_id w =
      find (λ (c : Compilation F). c.id) compilation_id w.working.compilations

  unfoldable pub find_soundtrack : ℕ → World F → Option (Soundtrack F)
  unfolding find
  find_soundtrack soundtrack_id w =
      find (λ (s : Soundtrack F). s.id) soundtrack_id w.working.soundtracks

  unfoldable pub check_no_running_compilation : M F (Unit {0})
  unfolding running_exists
  check_no_running_compilation w = raise_when (running_exists w.working.compilations) conflict w

  unfoldable pub validate_soundtrack : ℕ → M F (Unit {0})
  unfolding find_soundtrack
  validate_soundtrack soundtrack_id w =
      (require (find_soundtrack soundtrack_id w) not_found >>= λ _. pure tt) w

  unfoldable pub at_least_one : List (Clip F) → M F (List (Clip F))
  at_least_one [] = raise conflict
  at_least_one (c ∷ cs) = pure (c ∷ cs)

  -- `_get_ready_clips`
  unfoldable pub ready_clips : M F (List (Clip F))
  unfolding at_least_one get_ready_clips
  ready_clips w = at_least_one (get_ready_clips env.ops.floats w.working.clips) w

  unfoldable pub snapshot_of : ℕ → ℕ → Clip F → CompilationClip F
  snapshot_of compilation_id position clip = record {
    compilation_id = compilation_id;
    clip_id = clip.id;
    position = position;
    trim_in_s = clip.trim_in_s;
    trim_out_s = clip.trim_out_s;
  }

  -- The loop over `enumerate(ready_clips)`, from a position on.
  unfoldable pub add_snapshots : ℕ → ℕ → List (Clip F) → M F (List (CompilationClip F))
  unfolding snapshot_of
  add_snapshots compilation_id position [] = pure []
  add_snapshots compilation_id position (clip ∷ clips) = do
    flush env (put_compilation_clip (snapshot_of compilation_id position clip))
    rest ← add_snapshots compilation_id (position + 1) clips
    pure (snapshot_of compilation_id position clip ∷ rest)

  -- `Field(ge=0.0, le=1.0)` of `clip_audio_volume`, which FastAPI checks before the handler runs.
  unfoldable pub is_volume : F → Bool
  is_volume volume =
      env.ops.floats.le (env.ops.floats.of_ℕ 0) volume
      && env.ops.floats.le volume (env.ops.floats.of_ℕ 1)

  unfoldable pub new_compilation : ℕ → ℕ → CompilationCreate F → Compilation F
  new_compilation compilation_id now data_in = record {
    id = compilation_id;
    soundtrack_id = some data_in.soundtrack_id;
    status = pending;
    output_key = none;
    duration_s = none;
    mix_clip_audio = data_in.mix_clip_audio;
    clip_audio_volume = data_in.clip_audio_volume;
    created_at = now;
    completed_at = none;
    error = none;
  }

  -- `create`: the row and its snapshots.
  unfoldable pub create :
      ℕ → ℕ → CompilationCreate F → M F (Compilation F × List (CompilationClip F))
  unfolding check_no_running_compilation validate_soundtrack ready_clips new_compilation
      add_snapshots
  create compilation_id now data_in = do
    check_no_running_compilation
    validate_soundtrack data_in.soundtrack_id
    clips ← ready_clips
    flush env (put_compilation (new_compilation compilation_id now data_in))
    snapshots ← add_snapshots compilation_id 0 clips
    pure (new_compilation compilation_id now data_in, snapshots)

  unfoldable pub get_compilation : ℕ → M F (Compilation F)
  unfolding find_compilation
  get_compilation compilation_id w = require (find_compilation compilation_id w) not_found w

  unfoldable pub list_compilations : ℕ → ℕ → M F (List (Compilation F))
  unfolding list_recent
  list_compilations limit offset = gets (λ w. list_recent limit offset w.working.compilations)

  unfoldable pub delete_output : Option Text → M F (Unit {0})
  delete_output none = pure tt
  delete_output (some key) = delete_file env key

  -- `delete` of the service
  unfoldable pub delete_compilation_row : ℕ → M F (Unit {0})
  unfolding get_compilation delete_output
  delete_compilation_row compilation_id = do
    compilation ← get_compilation compilation_id
    raise_when (is_running compilation.status) conflict
    delete_output compilation.output_key
    flush env (delete_compilation_clips compilation_id)
    flush env (delete_compilation compilation.id)

  unfoldable pub output_path : Compilation F → Option Text → M F FilePath
  output_path compilation none = raise not_found
  output_path compilation (some key) =
      if is_complete compilation.status then path_of env key else raise not_found

  unfoldable pub open_output : ℕ → M F FilePath
  unfolding get_compilation output_path
  open_output compilation_id = do
    compilation ← get_compilation compilation_id
    output_path compilation compilation.output_key

  -- The handlers: each in a session of its own; `create_compilation` commits before it answers.
  unfoldable pub post_compilation :
      ℕ → ℕ → CompilationCreate F → M F (Compilation F × List (CompilationClip F))
  unfolding create is_volume
  post_compilation compilation_id now data_in = request env (do
    raise_when (not (is_volume data_in.clip_audio_volume)) validation_error
    made ← create compilation_id now data_in
    commit env
    pure made)

  unfoldable pub remove_compilation : ℕ → M F (Unit {0})
  unfolding delete_compilation_row
  remove_compilation compilation_id = request env (delete_compilation_row compilation_id)
