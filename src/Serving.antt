-- ===== src/Serving.antt =====
-- The handlers that answer with a file: `get_clip_video` and `get_clip_filmstrip` of domains/clips/router.py,
-- `get_compilation_video` of domains/compilations/router.py, and `stream_audio` of domains/soundtracks/router.py with
-- the content types of its utils.py.
pub mod Videos
pub mod Audio
pub mod Consistent
pub mod Refusals
use video_journal_be.Prelude.{
  ℕ, ◌-◌, Bool, ◌&&◌, ltb, Option, none, some, List, [], ◌∷◌, length, if◌then◌else◌,
}
use video_journal_be.Errors.{Text, Result}
use video_journal_be.Text.{codes, text_eq, lower}
use video_journal_be.Storage.{FilePath, read, split_all}
use video_journal_be.Naming.{after_last}
use video_journal_be.MediaResponse.{Response, build_media_response}
use video_journal_be.Session.{World, Env, M, pure, ◌>>=◌, request, path_of}
use video_journal_be.Clips.Service.{open_normalized, open_filmstrip}
use video_journal_be.Compilations.Service.{open_output}
use video_journal_be.Soundtracks.{last_name, open_audio}

-- `CACHE_IMMUTABLE`
abbrev pub cache_immutable : Text
cache_immutable = codes "public, max-age=31536000, immutable"

-- `CONTENT_TYPES` of the soundtracks
abbrev pub content_types : List (Text × Text)
content_types =
    (codes ".mp3", codes "audio/mpeg")
    ∷ (codes ".m4a", codes "audio/mp4")
    ∷ (codes ".aac", codes "audio/aac")
    ∷ (codes ".wav", codes "audio/wav")
    ∷ (codes ".flac", codes "audio/flac")
    ∷ []

-- `d.get(key, default)`
unfoldable pub get_or : Text → Text → List (Text × Text) → Text
get_or key default [] = default
get_or key default ((k, v) ∷ d) = if text_eq key k then v else get_or key default d

-- The suffix of a name: from its last dot, where the dot is neither the first nor the last character.
unfoldable pub suffix : Text → Option Text → Text
suffix name none = []
suffix name (some tail) =
    if ltb 0 (length name - length tail - 1) && ltb 0 (length tail) then b'.' ∷ tail else []

-- `CONTENT_TYPES.get(Path(key).suffix.lower(), "audio/octet-stream")`
unfoldable pub content_type_of : Text → Text
unfolding last_name split_all get_or suffix after_last lower
content_type_of key =
    let name = last_name (split_all b'/' key) in
    get_or (lower (suffix name (after_last b'.' name))) (codes "audio/octet-stream") content_types

module _ {F : Type 0} (env : Env F) where
  -- `build_media_response` on a path.
  abbrev pub serve : FilePath → Text → Option Text → M F Response
  serve path content_type range w =
      (build_media_response (read path w.files) content_type range cache_immutable, w)

  unfoldable pub get_clip_video : ℕ → Option Text → M F Response
  get_clip_video clip_id range =
      request env (do path ← open_normalized env clip_id; serve path (codes "video/mp4") range)

  unfoldable pub get_clip_filmstrip : ℕ → Option Text → M F Response
  get_clip_filmstrip clip_id range =
      request env (do path ← open_filmstrip env clip_id; serve path (codes "image/jpeg") range)

  unfoldable pub get_compilation_video : ℕ → Option Text → M F Response
  get_compilation_video compilation_id range =
      request env (do path ← open_output env compilation_id; serve path (codes "video/mp4") range)

  unfoldable pub stream_audio : ℕ → Option Text → M F Response
  unfolding content_type_of open_audio
  stream_audio soundtrack_id range = request env (do
    found ← open_audio env soundtrack_id
    path ← path_of env found.1
    serve path (content_type_of found.1) range)
