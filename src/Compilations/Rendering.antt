-- ===== src/Compilations/Rendering.antt =====
-- `run_compilation` of domains/compilations/service.py with its helpers, `compile_video` of media/compile.py, and
-- the background task of domains/compilations/router.py. `dst` is the name of the temporary file.
pub mod Keeping
pub mod Output
pub mod Publishing
pub mod Ending
pub mod Consistent
use video_journal_be.Prelude.{
  ℕ, ℤ, pos, Bool, true, false, not, Option, none, some, List, [], ◌∷◌, ◌++◌, map, if◌then◌else◌,
  min_ℤ,
}
use video_journal_be.Errors
use video_journal_be.Errors.{
  Text, Bytes, Error, Result, ok, err, not_found, ffmpeg_error, unexpected,
}
use video_journal_be.Text.{codes}
use video_journal_be.Uuid.{uuid_text}
use video_journal_be.Float.{FloatOps}
use video_journal_be.Models.{Clip, Compilation, CompilationStatus, CompilationClip, Soundtrack}
use video_journal_be.Models
use video_journal_be.Storage.{FilePath, read, write}
use video_journal_be.Naming.{build_output_key, truncate_stderr}
use video_journal_be.Ffprobe.{ProbeResult, parse_output}
use video_journal_be.Ffmpeg.{Process, out_times, ending_of}
use video_journal_be.Media.{ClipSpec, path_text, build_compile_command, fade_start_of}
use video_journal_be.Progress.{
  ProgressUpdate, running, complete, failed, Registry, register, push_from_thread, finalize,
}
use video_journal_be.Session.{
  World, Env, M, pure, raise, lift, gets, require, ◌>>=◌, ◌>>◌, put_compilation, flush, commit,
  rollback, save_file, path_of, open_temp, unlink_temp, file_stream, try_except, try_finally,
}
use video_journal_be.Session.Rows.{find}
use video_journal_be.Clips.Service.{or_else}
use video_journal_be.Compilations.Queries.{clips_of, sorted_clips}
use video_journal_be.Compilations.Service.{find_compilation, find_soundtrack}

abbrev pub render_error : Text
render_error = codes "Unexpected render error"

unfoldable pub on_registry : {F : Type 0} → (Registry → Registry) → M F (Unit {0})
on_registry f w = (ok tt, record w { progress = f w.progress })

-- The update that tells a failure.
unfoldable pub failure : Text → ProgressUpdate
failure message = record {
  progress = pos 0;
  status = failed;
  video_url = none;
  error = some message;
}

unfoldable pub success : ℕ → ProgressUpdate
success compilation_id = record {
  progress = pos 100;
  status = complete;
  video_url = some (codes "/api/v1/compilations/" ++ (uuid_text compilation_id ++ codes "/video"));
  error = none;
}

-- What each `except` clause stores and sends of an error.
unfoldable pub message_of : Error → Text
unfolding truncate_stderr
message_of (ffmpeg_error stderr) = truncate_stderr 2000 stderr
message_of _ = render_error

module _ {F : Type 0} (env : Env F) (dst : FilePath) where
  abbrev pub floats : FloatOps F
  floats = env.ops.floats

  unfoldable pub usable : Option (Clip F) → Option (Clip F × Text)
  usable none = none
  usable (some clip) = elim clip.normalized_key [ none ↦ none | some key ↦ some (clip, key) ]

  unfoldable pub spec_of : CompilationClip F → Clip F → FilePath → ClipSpec F
  spec_of cc clip path = record {
    path = path_text path;
    trim_in_s = or_else cc.trim_in_s (floats.of_ℕ 0);
    trim_out_s = or_else cc.trim_out_s (or_else clip.duration_s (floats.of_ℕ 0));
  }

  -- The loop of `_build_clip_specs` over the snapshots in their order.
  unfoldable pub specs_of : List (CompilationClip F) → M F (List (ClipSpec F))
  unfolding usable spec_of
  specs_of [] = pure []
  specs_of (cc ∷ ccs) = do
    clips ← gets (λ w. w.working.clips)
    found ← require (usable (find (λ (c : Clip F). c.id) cc.clip_id clips)) not_found
    path ← path_of env found.1
    rest ← specs_of ccs
    pure (spec_of cc found.0 path ∷ rest)

  unfoldable pub build_clip_specs : ℕ → M F (List (ClipSpec F))
  unfolding specs_of clips_of sorted_clips
  build_clip_specs compilation_id = do
    rows ← gets (λ w. w.working.compilation_clips)
    specs_of (sorted_clips (clips_of compilation_id rows))

  unfoldable pub resolve_soundtrack_path : Compilation F → M F Text
  unfolding find_soundtrack
  resolve_soundtrack_path compilation = do
    soundtrack_id ← require compilation.soundtrack_id not_found
    found ← gets (λ w. find_soundtrack env soundtrack_id w)
    soundtrack ← require found not_found
    path ← path_of env soundtrack.key
    pure (path_text path)

  -- `int(out_time_us / total_us * 100)` raises on an infinity alone, since `out_time_us` is an int and `total_us` positive.
  unfoldable pub percentage : F → ℤ → Option ℤ
  percentage total_us out_time_us =
      if floats.lt (floats.of_ℕ 0) total_us
      then elim (floats.trunc
          (floats.mul (floats.div (floats.of_ℤ out_time_us) total_us) (floats.of_ℕ 100))) [
            | none ↦ none
            | some n ↦ some (min_ℤ (pos 100) n)
          ]
      else some (pos 0)

  -- `_on_progress`
  unfoldable pub on_progress : ℕ → F → ℤ → M F (Unit {0})
  unfolding percentage on_registry
  on_progress compilation_id total_us out_time_us = do
    pct ← require (percentage total_us out_time_us) unexpected
    on_registry (
        push_from_thread compilation_id
          (record { progress = pct; status = running; video_url = none; error = none }))

  unfoldable pub report : ℕ → F → List ℤ → M F (Unit {0})
  unfolding on_progress
  report compilation_id total_us [] = pure tt
  report compilation_id total_us (t ∷ ts) = do
    on_progress compilation_id total_us t
    report compilation_id total_us ts

  unfoldable pub written : Option Bytes → World F → World F
  written none w = w
  written (some bytes) w = record w { temps = write dst bytes w.temps }

  -- `compile_video`: the process is run on the command, its progress is reported, and its end is told.
  unfoldable pub compile_video : ℕ → F → List (ClipSpec F) → Text → F → Bool → F → M F (Unit {0})
  unfolding written report
  compile_video compilation_id total_us specs soundtrack_path total mix volume w =
      let process =
        env.run_process
          (build_compile_command floats specs soundtrack_path (path_text dst)
            (fade_start_of floats total) mix volume)
          w.files w.temps in
      (report compilation_id total_us (out_times process.stdout) >>= λ _. lift (ending_of process))
        (written process.output w)

  abbrev pub is_probe_error : Error → Bool
  is_probe_error Errors.ffprobe_error = true
  is_probe_error _ = false

  unfoldable pub probed : FilePath → M F (Option F)
  probed path w = (
    Errors.◌>>=◌ (env.run_ffprobe (read path w.temps))
        (λ out. Errors.◌>>=◌ (parse_output env.ops out) (λ (r : ProbeResult F). ok r.duration_s)),
    w,
  )

  -- The duration of the output, where ffprobe can read it, and else what the row had.
  unfoldable pub probe_duration : Option F → M F (Option F)
  unfolding probed
  probe_duration before =
      try_except (probed dst) (λ e. if is_probe_error e then pure before else raise e)

  unfoldable pub completed : ℕ → Compilation F → Text → Option F → Compilation F
  completed now compilation key duration = record compilation {
    status = Models.complete;
    output_key = some key;
    duration_s = duration;
    completed_at = some now;
  }

  -- The body of the `try`.
  unfoldable pub render : ℕ → Compilation F → M F (Unit {0})
  unfolding build_clip_specs resolve_soundtrack_path compile_video probe_duration completed success
      on_registry
  render now compilation = do
    specs ← build_clip_specs compilation.id
    soundtrack_path ← resolve_soundtrack_path compilation
    let total = floats.sum (map (λ (s : ClipSpec F). floats.sub s.trim_out_s s.trim_in_s) specs)
    let total_us = floats.mul total (floats.of_ℕ 1000000)
    compile_video compilation.id total_us specs soundtrack_path total compilation.mix_clip_audio
        compilation.clip_audio_volume
    stream ← file_stream dst
    key ← save_file env stream (build_output_key compilation.id)
    duration ← probe_duration compilation.duration_s
    flush env
        (put_compilation (completed now compilation (build_output_key compilation.id) duration))
    commit env
    on_registry (finalize compilation.id (success compilation.id))

  unfoldable pub mark_failed : ℕ → Text → Option (Compilation F) → M F (Unit {0})
  mark_failed now message none = pure tt
  mark_failed now message (some compilation) = do
    flush env (
        put_compilation (record compilation {
          status = Models.failed;
          error = some message;
          completed_at = some now;
        }))
    commit env

  -- Both `except` clauses, which differ in the message.
  unfoldable pub render_failed : ℕ → ℕ → Error → M F (Unit {0})
  unfolding mark_failed on_registry failure message_of find_compilation
  render_failed now compilation_id e = do
    on_registry (finalize compilation_id (failure (message_of e)))
    rollback env
    found ← gets (λ w. find_compilation env compilation_id w)
    mark_failed now (message_of e) found

  -- From the registration on.
  unfoldable pub render_found : ℕ → Compilation F → M F (Unit {0})
  unfolding render render_failed on_registry
  render_found now compilation = do
    on_registry (register compilation.id)
    flush env (put_compilation (record compilation { status = Models.running }))
    commit env
    open_temp dst
    try_finally
        (try_except (render now (record compilation { status = Models.running }))
          (render_failed now compilation.id))
        (unlink_temp dst)

  unfoldable pub render_row : ℕ → Option (Compilation F) → M F (Unit {0})
  unfolding render_found
  render_row now none = pure tt
  render_row now (some compilation) = render_found now compilation

  -- A compilation that is gone is logged.
  unfoldable pub run_compilation : ℕ → ℕ → M F (Unit {0})
  unfolding render_row find_compilation
  run_compilation now compilation_id w = render_row now (find_compilation env compilation_id w) w

  unfoldable pub close : Result (Unit {0}) × World F → Result (Unit {0}) × World F
  close (r, w) = (r, record w { working = w.committed; broken = false })

  -- `_run_render`: a session of its own, closed at the end, which drops what is not committed.
  unfoldable pub run_render : ℕ → ℕ → M F (Unit {0})
  unfolding close run_compilation
  run_render now compilation_id w =
      close
        (run_compilation now compilation_id (record w { working = w.committed; broken = false }))
