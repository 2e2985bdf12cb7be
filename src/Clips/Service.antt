-- ===== src/Clips/Service.antt =====
-- domains/clips/service.py, on the request path, with the handlers of domains/clips/router.py.
pub mod Creating
pub mod Update
pub mod Delete
pub mod Consistent
pub mod Opening
pub mod Untimed
pub mod Chronology
pub mod Refusals
use video_journal_be.Prelude.{
  ◌&&◌, pos_part, ℤ, ℕ, Bool, true, false, not, ◌||◌, Option, none, some, List, [], ◌∷◌,
  if◌then◌else◌,
}
use video_journal_be.Errors
use video_journal_be.Errors.{
  validation_error, Text, Error, Result, ok, err, not_found, conflict, unsupported_media_type,
  upload_too_large, range_not_satisfiable, invalid_trim, ffprobe_error, unexpected, ffmpeg_error,
}
use video_journal_be.Models.{Clip, ClipStatus, processing, ready, failed}
use video_journal_be.Float.{FloatOps}
use video_journal_be.Ffprobe.{ProbeResult, parse_output}
use video_journal_be.Storage.{FilePath, read}
use video_journal_be.Uploads.{Upload, iter_upload}
use video_journal_be.Naming.{clip_extension, build_original_key}
use video_journal_be.Session.{
  World, Env, M, pure, raise, lift, gets, require, ◌>>=◌, ◌>>◌, raise_when, put_clip, delete_clip,
  flush, commit, request, save_file, delete_file, path_of, try_except,
}
use video_journal_be.Session.Rows.{find}
use video_journal_be.Clips.Queries.{max_sort_index, previous_clip, next_clip, list_ordered}

-- `ClipUpdate`: the fields of a PATCH request, each optional.
pub record ClipUpdate (F : Type 0) : Type 0 where
  pub trim_in_s : Option F
  pub trim_out_s : Option F
  pub sort_index : Option F

-- Which errors the `except` clauses name.
abbrev pub is_too_large : Error → Bool
is_too_large upload_too_large = true
is_too_large _ = false

abbrev pub is_ffprobe_error : Error → Bool
is_ffprobe_error ffprobe_error = true
is_ffprobe_error _ = false

abbrev pub or_else {ℓ} : {A : Type ℓ} → Option A → A → A
or_else none d = d
or_else (some a) d = a

-- `a or b` of two values that are true when they are not None.
abbrev pub or_option {ℓ} : {A : Type ℓ} → Option A → Option A → Option A
or_option none b = b
or_option (some a) b = some a

module _ {F : Type 0} (env : Env F) where
  abbrev floats : FloatOps F
  floats = env.ops.floats

  -- `delete(key)` and `raise`.
  pub discard : {A : Type 0} → Text → Error → M F A
  discard key e = do delete_file env key; raise e

  pub store_upload : Text → Upload → M F Text
  store_upload key upload =
      try_except (save_file env (iter_upload env.max_upload_bytes upload) key)
        (λ e. if is_too_large e then discard key e else raise e)

  probe : FilePath → M F (ProbeResult F)
  probe path w = (Errors.◌>>=◌ (env.run_ffprobe (read path w.files)) (parse_output env.ops), w)

  pub probe_upload : Text → M F (FilePath × ProbeResult F)
  probe_upload key =
      try_except (do path ← path_of env key; result ← probe path; pure (path, result))
        (λ e. if is_ffprobe_error e then discard key e else raise e)

  -- `_assign_sort_index`, from the largest index and the two neighbours.
  unfoldable pub fractional_index : Option F → Option (Clip F) → Option (Clip F) → F
  fractional_index none prev next = floats.of_ℕ 1000
  fractional_index (some m) none none = floats.add m (floats.of_ℕ 1000)
  fractional_index (some m) none (some n) = floats.sub n.sort_index (floats.of_ℕ 1000)
  fractional_index (some m) (some p) none = floats.add m (floats.of_ℕ 1000)
  fractional_index (some m) (some p) (some n) =
      floats.div (floats.add p.sort_index n.sort_index) (floats.of_ℕ 2)

  pub assign_sort_index : ℕ → M F F
  unfolding fractional_index
  assign_sort_index recorded_at = gets (λ w.
      fractional_index (max_sort_index floats w.working.clips)
        (previous_clip recorded_at w.working.clips) (next_clip recorded_at w.working.clips))

  unfoldable pub new_clip : ℕ → ℕ → Text → ProbeResult F → ℕ → F → Clip F
  new_clip clip_id now key result recorded_at sort_index = record {
    id = clip_id;
    original_key = key;
    normalized_key = none;
    filmstrip_key = none;
    duration_s = result.duration_s;
    width = result.width;
    height = result.height;
    codec_name = result.codec_name;
    recorded_at = some recorded_at;
    uploaded_at = now;
    trim_in_s = some (floats.of_ℕ 0);
    trim_out_s = some (or_else result.duration_s (floats.of_ℕ 0));
    sort_index = sort_index;
    status = processing;
    error_message = none;
  }

  -- `repository.add(clip)`
  pub add_clip : Clip F → M F (Clip F)
  add_clip clip = do flush env (put_clip clip); pure clip

  pub create_from_upload : ℕ → ℕ → Upload → M F (Clip F)
  create_from_upload clip_id now upload = do
    ext ← lift (clip_extension upload.filename)
    let key = build_original_key clip_id ext
    store_upload key upload
    found ← probe_upload key
    let recorded_at = or_else (or_option found.1.recorded_at (env.mtime found.0)) now
    sort_index ← assign_sort_index recorded_at
    try_except (add_clip (new_clip clip_id now key found.1 recorded_at sort_index)) (discard key)

  pub get_clip : ℕ → M F (Clip F)
  get_clip clip_id w = require (find (λ (c : Clip F). c.id) clip_id w.working.clips) not_found w

  -- The route bounds `limit` by 1 and 200, and not `offset`, of which SQLite takes a negative one for 0.
  pub list_clips : ℕ → ℤ → M F (List (Clip F))
  list_clips limit offset = gets (λ w. list_ordered floats limit (pos_part offset) w.working.clips)

  pub updated : ClipUpdate F → Clip F → Clip F
  updated u c = record c {
    trim_in_s = or_option u.trim_in_s c.trim_in_s;
    trim_out_s = or_option u.trim_out_s c.trim_out_s;
    sort_index = or_else u.sort_index c.sort_index;
  }

  -- `Field(ge=0)` of an optional number
  is_not_negative : Option F → Bool
  is_not_negative none = true
  is_not_negative (some x) = floats.le (floats.of_ℕ 0) x

  -- What FastAPI checks of the body of a PATCH before the handler runs.
  pub is_valid_update : ClipUpdate F → Bool
  unfolding is_not_negative
  is_valid_update u = is_not_negative u.trim_in_s && is_not_negative u.trim_out_s

  beyond : Option F → F → Bool
  beyond none trim_out = false
  beyond (some duration) trim_out = floats.lt duration trim_out

  trim_error : Option F → Option F → Option F → Bool
  unfolding beyond
  trim_error (some trim_in) (some trim_out) duration =
      floats.le trim_out trim_in || beyond duration trim_out
  trim_error _ _ duration = false

  -- `_validate_trim`
  pub validate_trim : Clip F → M F (Unit {0})
  unfolding trim_error
  validate_trim c = raise_when (trim_error c.trim_in_s c.trim_out_s c.duration_s) invalid_trim

  pub update_clip : ℕ → ClipUpdate F → M F (Clip F)
  update_clip clip_id u = do
    clip ← get_clip clip_id
    validate_trim (updated u clip)
    add_clip (updated u clip)

  pub delete_key : Option Text → M F (Unit {0})
  delete_key none = pure tt
  delete_key (some key) = delete_file env key

  pub delete_clip_row : ℕ → M F (Unit {0})
  delete_clip_row clip_id = do
    clip ← get_clip clip_id
    delete_key (some clip.original_key)
    delete_key clip.normalized_key
    delete_key clip.filmstrip_key
    flush env (delete_clip clip.id)

  pub is_ready : ClipStatus → Bool
  is_ready ready = true
  is_ready processing = false
  is_ready failed = false

  -- `open_normalized` and `open_filmstrip`, which differ in the key.
  pub open_key : Clip F → Option Text → M F FilePath
  unfolding is_ready
  open_key clip none = raise not_found
  open_key clip (some key) = if is_ready clip.status then path_of env key else raise not_found

  pub open_normalized : ℕ → M F FilePath
  unfolding get_clip open_key
  open_normalized clip_id = do clip ← get_clip clip_id; open_key clip clip.normalized_key

  pub open_filmstrip : ℕ → M F FilePath
  unfolding get_clip open_key
  open_filmstrip clip_id = do clip ← get_clip clip_id; open_key clip clip.filmstrip_key

  -- The handlers: each in a session of its own. `create_clip` commits before it answers.
  pub post_clip : ℕ → ℕ → Upload → M F (Clip F)
  post_clip clip_id now upload =
      request env (do clip ← create_from_upload clip_id now upload; commit env; pure clip)

  pub patch_clip : ℕ → ClipUpdate F → M F (Clip F)
  patch_clip clip_id u =
      request env (do raise_when (not (is_valid_update u)) validation_error; update_clip clip_id u)

  pub remove_clip : ℕ → M F (Unit {0})
  remove_clip clip_id = request env (delete_clip_row clip_id)
