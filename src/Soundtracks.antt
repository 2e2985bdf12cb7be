-- ===== src/Soundtracks.antt =====
-- The soundtracks: domains/soundtracks/service.py with `title_from_filename` of its utils.py, its repository and the
-- handlers of its router.py.
pub mod Creating
pub mod Consistent
pub mod Names
pub mod Refusals
mod Tests
use video_journal_be.Prelude.{
  ℕ, ◌-◌, Bool, true, false, not, ◌&&◌, Option, none, some, List, [], ◌∷◌, ◌++◌, ◌==◌,
  if◌then◌else◌, ltb, length, take,
}
use video_journal_be.Errors
use video_journal_be.Errors.{Text, Error, not_found}
use video_journal_be.Text.{text_eq, codes}
use video_journal_be.Ffprobe.{AudioProbeResult, parse_audio_output}
use video_journal_be.Models.{Soundtrack}
use video_journal_be.Storage.{FilePath, read, split_all}
use video_journal_be.Uploads.{Upload}
use video_journal_be.Naming.{soundtrack_extension, build_soundtrack_key, after_last}
use video_journal_be.Session.{
  World, Env, M, pure, raise, lift, gets, require, ◌>>=◌, ◌>>◌, put_soundtrack, delete_soundtrack,
  flush, request, delete_file, path_of, try_except,
}
use video_journal_be.Session.Rows.{find}
use video_journal_be.Clips.Queries.{order_by, page}
use video_journal_be.Clips.Service.{or_else, store_upload, discard, is_ffprobe_error}

-- Whether a part of a path counts: pathlib drops empty parts and `.`.
counts : Text → Bool
counts part = not (text_eq part []) && not (text_eq part (codes "."))

later_or : Text → Text → Text
later_or [] before = before
later_or (c ∷ s) before = c ∷ s

-- `Path(filename).name`
unfoldable pub last_name : List Text → Text
unfolding counts later_or
last_name [] = []
last_name (part ∷ parts) =
    let later = last_name parts in later_or later (if counts part then part else [])

-- The name without the suffix behind its last dot, where the dot is neither the first nor the last character.
unfoldable pub stem : Text → Option Text → Text
stem name none = name
stem name (some suffix) =
    let i = length name - length suffix - 1 in
    if ltb 0 i && ltb 0 (length suffix) then take i name else name

unfoldable pub title_from_filename : Text → Text
unfolding last_name stem
title_from_filename filename =
    let name = last_name (split_all b'/' filename) in stem name (after_last b'.' name)

-- `title or default`: an empty title counts as none.
unfoldable pub title_or : Option Text → Text → Text
title_or none default = default
title_or (some []) default = default
title_or (some (c ∷ s)) default = c ∷ s

module _ {F : Type 0} (env : Env F) where
  unfoldable pub probe_audio : FilePath → M F (AudioProbeResult F)
  probe_audio path w =
      (Errors.◌>>=◌ (env.run_ffprobe (read path w.files)) (parse_audio_output env.ops), w)

  unfoldable pub probe_audio_upload : Text → M F (AudioProbeResult F)
  unfolding probe_audio
  probe_audio_upload key =
      try_except (do path ← path_of env key; probe_audio path)
        (λ e. if is_ffprobe_error e then discard env key e else raise e)

  unfoldable pub new_soundtrack : ℕ → ℕ → Text → Option Text → AudioProbeResult F → Soundtrack F
  unfolding title_or title_from_filename
  new_soundtrack soundtrack_id now key filename result = record {
    id = soundtrack_id;
    key = key;
    title = title_or result.title (title_from_filename (or_else filename []));
    duration_s = result.duration_s;
    uploaded_at = now;
  }

  unfoldable pub add_soundtrack : Soundtrack F → M F (Soundtrack F)
  add_soundtrack soundtrack = do flush env (put_soundtrack soundtrack); pure soundtrack

  -- `create_from_upload` of the service
  unfoldable pub create_soundtrack : ℕ → ℕ → Upload → M F (Soundtrack F)
  unfolding probe_audio_upload new_soundtrack add_soundtrack
  create_soundtrack soundtrack_id now upload = do
    ext ← lift (soundtrack_extension upload.filename)
    let key = build_soundtrack_key soundtrack_id ext
    store_upload env key upload
    result ← probe_audio_upload key
    try_except (add_soundtrack (new_soundtrack soundtrack_id now key upload.filename result))
        (discard env key)

  unfoldable pub get_soundtrack : ℕ → M F (Soundtrack F)
  unfolding find
  get_soundtrack soundtrack_id w =
      require (find (λ (s : Soundtrack F). s.id) soundtrack_id w.working.soundtracks) not_found w

  newer : Soundtrack F → Soundtrack F → Bool
  newer a b = ltb b.uploaded_at a.uploaded_at

  unfoldable pub list_soundtracks : ℕ → ℕ → M F (List (Soundtrack F))
  unfolding newer order_by
  list_soundtracks limit offset =
      gets (λ w. page limit offset (order_by newer w.working.soundtracks))

  unfoldable pub delete_soundtrack_row : ℕ → M F (Unit {0})
  unfolding get_soundtrack
  delete_soundtrack_row soundtrack_id = do
    soundtrack ← get_soundtrack soundtrack_id
    delete_file env soundtrack.key
    flush env (delete_soundtrack soundtrack.id)

  unfoldable pub open_audio : ℕ → M F (Soundtrack F × Text)
  unfolding get_soundtrack
  open_audio soundtrack_id = do
    soundtrack ← get_soundtrack soundtrack_id
    pure (soundtrack, soundtrack.key)

  -- The handlers, each in a session of its own.
  unfoldable pub post_soundtrack : ℕ → ℕ → Upload → M F (Soundtrack F)
  unfolding create_soundtrack
  post_soundtrack soundtrack_id now upload =
      request env (create_soundtrack soundtrack_id now upload)

  unfoldable pub remove_soundtrack : ℕ → M F (Unit {0})
  unfolding delete_soundtrack_row
  remove_soundtrack soundtrack_id = request env (delete_soundtrack_row soundtrack_id)
