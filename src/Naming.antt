-- ===== src/Naming.antt =====
-- The pure helpers of the domains: domains/clips/utils.py, domains/soundtracks/utils.py and
-- domains/compilations/utils.py. They name the storage keys and check the uploaded file's name.
pub mod Extensions
pub mod Keys
pub mod Stderr
mod Tests
use video_journal_be.Prelude.{
  ℕ, ◌-◌, Bool, Option, none, some, List, [], ◌∷◌, ◌++◌, ◌==◌, if◌then◌else◌, leb, length, drop,
  not,
}
use video_journal_be.Errors.{
  Text, Result, ok, err, unsupported_media_type, ◌>>=◌, ◌>>◌, raise_if, or_raise,
}
use video_journal_be.Text.{codes, text_in, lower}
use video_journal_be.Uuid.{uuid_text}

-- `ALLOWED_EXTENSIONS` of the clips and of the soundtracks.
abbrev pub clip_extensions : List Text
clip_extensions = codes ".mov" ∷ codes ".mp4" ∷ codes ".m4v" ∷ []

abbrev pub soundtrack_extensions : List Text
soundtrack_extensions =
    codes ".mp3" ∷ codes ".m4a" ∷ codes ".aac" ∷ codes ".wav" ∷ codes ".flac" ∷ []

unfoldable pub found_or : Option Text → Option Text → Option Text
found_or none other = other
found_or (some t) other = some t

-- `s[s.rfind(sep) + 1:]`, or `none` where `rfind` gives -1.
unfoldable pub after_last : ℕ → Text → Option Text
unfolding found_or
after_last sep [] = none
after_last sep (c ∷ s) = found_or (after_last sep s) (if c == sep then some s else none)

-- The body of both `safe_extension` functions. Only the ASCII letters are lowered: no other character
-- has a lower case that an allowed extension holds.
unfoldable pub checked_extension : List Text → Option Text → Result Text
checked_extension allowed none = err unsupported_media_type
checked_extension allowed (some []) = err unsupported_media_type
checked_extension allowed (some (c ∷ name)) = do
  tail ← or_raise (after_last b'.' (c ∷ name)) unsupported_media_type
  let ext = b'.' ∷ lower tail
  raise_if (not (text_in ext allowed)) unsupported_media_type
  ok ext

-- `safe_extension` of domains/clips/utils.py
unfoldable pub clip_extension : Option Text → Result Text
unfolding checked_extension
clip_extension = checked_extension clip_extensions

-- `safe_extension` of domains/soundtracks/utils.py
unfoldable pub soundtrack_extension : Option Text → Result Text
unfolding checked_extension
soundtrack_extension = checked_extension soundtrack_extensions

pub build_original_key : ℕ → Text → Text
build_original_key clip_id ext = codes "clips/original/" ++ (uuid_text clip_id ++ ext)

pub build_normalized_key : ℕ → Text
build_normalized_key clip_id = codes "clips/normalized/" ++ (uuid_text clip_id ++ codes ".mp4")

pub build_filmstrip_key : ℕ → Text
build_filmstrip_key clip_id = codes "clips/filmstrip/" ++ (uuid_text clip_id ++ codes ".jpg")

pub build_soundtrack_key : ℕ → Text → Text
build_soundtrack_key soundtrack_id ext = codes "soundtracks/" ++ (uuid_text soundtrack_id ++ ext)

unfoldable pub build_output_key : ℕ → Text
build_output_key compilation_id = codes "outputs/" ++ (uuid_text compilation_id ++ codes ".mp4")

-- `text[-n:]`, which is the whole text for 0.
unfoldable pub last_chars : ℕ → Text → Text
last_chars n text = if n == 0 then text else drop (length text - n) text

-- The last `max_chars` characters (2000 by default).
unfoldable pub truncate_stderr : ℕ → Text → Text
unfolding last_chars
truncate_stderr max_chars text =
    if leb (length text) max_chars then text else last_chars max_chars text
