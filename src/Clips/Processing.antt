-- ===== src/Clips/Processing.antt =====
-- `process_clip` of domains/clips/service.py with `_generate_and_store_filmstrip`, and the background task of
-- domains/clips/router.py that runs it. `tmp` and `strip` are the names of the two temporary files.
pub mod Filmstrip
pub mod Results
pub mod Consistent
use video_journal_be.Prelude.{ℕ, Option, none, some, if◌then◌else◌}
use video_journal_be.Errors.{Text, Error, Result, ok, err, unexpected}
use video_journal_be.Text.{codes}
use video_journal_be.Models.{Clip, ClipStatus, ready, failed}
use video_journal_be.Storage.{FilePath}
use video_journal_be.Naming.{build_normalized_key, build_filmstrip_key}
use video_journal_be.Media.{
  path_text, build_normalize_command, build_filmstrip_command, effective_duration,
  compute_frame_count,
}
use video_journal_be.Session.{
  World, Env, M, pure, raise, require, ◌>>=◌, ◌>>◌, put_clip, flush, request, save_file, path_of,
  open_temp, unlink_temp, run_ffmpeg_to, file_stream, try_except, try_finally,
}
use video_journal_be.Session.Rows.{find}

abbrev pub normalization_failed : Text
normalization_failed = codes "Normalization failed"

module _ {F : Type 0} (env : Env F) (tmp strip : FilePath) where
  -- `generate_filmstrip`
  pub generate_filmstrip : Option F → M F (Unit {0})
  generate_filmstrip duration_s = do
    let duration = effective_duration env.ops.floats duration_s
    frames ← require (compute_frame_count env.ops.floats (some duration)) unexpected
    run_ffmpeg_to env strip
        (build_filmstrip_command env.ops.floats (path_text tmp) (path_text strip) duration frames)

  pub store_filmstrip : Clip F → M F (Unit {0})
  store_filmstrip clip = do
    generate_filmstrip clip.duration_s
    stream ← file_stream strip
    key ← save_file env stream (build_filmstrip_key clip.id)
    flush env (put_clip (record clip { filmstrip_key = some (build_filmstrip_key clip.id) }))

  -- A failure is logged and swallowed.
  pub generate_and_store_filmstrip : Clip F → M F (Unit {0})
  generate_and_store_filmstrip clip =
      open_temp strip
      >> try_finally (try_except (store_filmstrip clip) (λ e. pure tt)) (unlink_temp strip)

  -- `normalize` and the upload of its result.
  pub store_normalized : ℕ → FilePath → M F (Unit {0})
  store_normalized clip_id src = do
    run_ffmpeg_to env tmp (build_normalize_command (path_text src) (path_text tmp))
    stream ← file_stream tmp
    key ← save_file env stream (build_normalized_key clip_id)
    pure tt

  -- Both `except` clauses.
  pub mark_failed : Clip F → M F (Unit {0})
  mark_failed clip =
      flush env
        (put_clip (record clip { status = failed; error_message = some normalization_failed }))

  published : Clip F → Result (Unit {0}) × World F → Result (Unit {0}) × World F
  published clip (ok _, w) = generate_and_store_filmstrip clip w
  published clip (err e, w) = mark_failed clip w

  -- The object that the handler marks carries what the body has set by then.
  normalized : ℕ → Clip F → Result (Unit {0}) × World F → Result (Unit {0}) × World F
  unfolding published
  normalized clip_id clip (ok _, w) =
      let done = record clip {
        normalized_key = some (build_normalized_key clip_id);
        status = ready;
      } in
      published done (flush env (put_clip done) w)
  normalized clip_id clip (err e, w) = mark_failed clip w

  pub transcode : ℕ → Clip F → FilePath → M F (Unit {0})
  unfolding normalized
  transcode clip_id clip src w = normalized clip_id clip (store_normalized clip_id src w)

  pub process_found : ℕ → Clip F → M F (Unit {0})
  process_found clip_id clip = do
    src ← path_of env clip.original_key
    open_temp tmp
    try_finally (transcode clip_id clip src) (unlink_temp tmp)

  process_row : ℕ → Option (Clip F) → M F (Unit {0})
  process_row clip_id none = pure tt
  process_row clip_id (some clip) = process_found clip_id clip

  -- A clip that is gone is logged.
  pub process_clip : ℕ → M F (Unit {0})
  unfolding process_row
  process_clip clip_id w =
      process_row clip_id (find (λ (c : Clip F). c.id) clip_id w.working.clips) w

  -- `_run_normalization`: its own session, which commits, or rolls back and raises.
  pub run_normalization : ℕ → M F (Unit {0})
  run_normalization clip_id = request env (process_clip clip_id)
