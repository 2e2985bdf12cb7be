-- ===== src/Soundtracks/Creating.antt =====
-- Uploading a soundtrack: what is stored and committed on success, and what is cleaned up on each error.
use video_journal_be.Prelude.{◌∷◌, [], Option, ℕ, ◌≡◌, false, none, some, ◌++◌, ◌⊎◌, ◌≤◌, length}
use video_journal_be.Errors
use video_journal_be.Errors.{Text, Bytes, Error, Result, ok, err, upload_too_large}
use video_journal_be.Models.{Soundtrack}
use video_journal_be.Ffprobe.{AudioProbeResult, parse_audio_output}
use video_journal_be.Storage.{FilePath, read, write}
use video_journal_be.Uploads.{Upload}
use video_journal_be.Session.{World, Env, put_soundtrack, apply}
use video_journal_be.Naming.{build_soundtrack_key}
use video_journal_be.Naming.Keys.{soundtrack, place}
use video_journal_be.Clips.Service.{is_ffprobe_error}
use video_journal_be.Soundtracks.{title_from_filename}

-- What ffprobe makes of a content.
abbrev pub heard : {F : Type 0} → Env F → Bytes → Result (AudioProbeResult F)
heard env content = Errors.◌>>=◌ (env.run_ffprobe (some content)) (parse_audio_output env.ops)

-- The name of the upload, empty where none is given.
abbrev pub name_given : Option Text → Text
name_given none = []
name_given (some name) = name

module _ {F : Type 0} (env : Env F) (soundtrack_id now : ℕ) (upload : Upload) (ext : Text) where
  abbrev pub audio_path : FilePath
  audio_path = env.base ++ place (soundtrack soundtrack_id ext)

  abbrev key : Text
  key = build_soundtrack_key soundtrack_id ext

  -- The title is the metadata's where that holds a character, and else what is left of the file name.
  abbrev pub IsTitle : Option Text → Text → Type 0
  IsTitle none title = title ≡ title_from_filename (name_given upload.filename)
  IsTitle (some []) title = title ≡ title_from_filename (name_given upload.filename)
  IsTitle (some (c ∷ s)) title = title ≡ c ∷ s

  -- The row with each of its columns.
  pub record IsRowOf (result : AudioProbeResult F) (s : Soundtrack F) : Type 0 where
    pub id : s.id ≡ soundtrack_id
    pub key : s.key ≡ build_soundtrack_key soundtrack_id ext
    pub title : IsTitle result.title s.title
    pub duration_s : s.duration_s ≡ result.duration_s
    pub uploaded_at : s.uploaded_at ≡ now

  abbrev pub Created : Soundtrack F → World F → World F → Type 0
  Created s w w' =
      ((result : AudioProbeResult F) × (heard env upload.content ≡ ok result) × IsRowOf result s)
      × (length upload.content ≤ env.max_upload_bytes)
      × (w'.working ≡ apply (put_soundtrack s) w.working)
      × (w'.files ≡ write audio_path upload.content w.files)

  abbrev pub NotCreated : Error → World F → World F → Type 0
  NotCreated e w w' =
      (w'.working ≡ w.working)
      × ((read audio_path w'.files ≡ none)
          ⊎ ((heard env upload.content ≡ err e) × (is_ffprobe_error e ≡ false)))
