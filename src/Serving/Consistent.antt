-- ===== src/Serving/Consistent.antt =====
-- The handlers that answer with a file leave the tables consistent.
use video_journal_be.Prelude.{ℕ, refl, Option}
use video_journal_be.Errors.{Text}
use video_journal_be.Storage.{FilePath}
use video_journal_be.Session.{Env}
use video_journal_be.Session.Keeping.{
  Anything, KeepsConsistent, KeepsConsistent-bind, KeepsConsistent-path_of, KeepsConsistent-request,
  KeepsConsistent-same,
}
use video_journal_be.Clips.Service.Consistent.{
  open_normalized-KeepsConsistent, open_filmstrip-KeepsConsistent,
}
use video_journal_be.Compilations.Service.Consistent.{open_output-KeepsConsistent}
use video_journal_be.Soundtracks.Consistent.{open_audio-KeepsConsistent}
use video_journal_be.Serving.{
  serve, get_clip_video, get_clip_filmstrip, get_compilation_video, stream_audio,
}

module _ {F : Type 0} (env : Env F) where
  serve-KeepsConsistent :
      (path : FilePath) (content_type : Text) (range : Option Text)
      → KeepsConsistent Anything (serve env path content_type range)
  serve-KeepsConsistent path content_type range =
      KeepsConsistent-same (serve env path content_type range) (λ w. (refl, refl))

  pub get_clip_video-KeepsConsistent :
      (clip_id : ℕ) (range : Option Text)
      → KeepsConsistent Anything (get_clip_video env clip_id range)
  unfolding get_clip_video
  get_clip_video-KeepsConsistent clip_id range = KeepsConsistent-request env (
      KeepsConsistent-bind (open_normalized-KeepsConsistent env clip_id)
        (λ path _. serve-KeepsConsistent path _ range))

  pub get_clip_filmstrip-KeepsConsistent :
      (clip_id : ℕ) (range : Option Text)
      → KeepsConsistent Anything (get_clip_filmstrip env clip_id range)
  unfolding get_clip_filmstrip
  get_clip_filmstrip-KeepsConsistent clip_id range = KeepsConsistent-request env (
      KeepsConsistent-bind (open_filmstrip-KeepsConsistent env clip_id)
        (λ path _. serve-KeepsConsistent path _ range))

  pub get_compilation_video-KeepsConsistent :
      (compilation_id : ℕ) (range : Option Text)
      → KeepsConsistent Anything (get_compilation_video env compilation_id range)
  unfolding get_compilation_video
  get_compilation_video-KeepsConsistent compilation_id range = KeepsConsistent-request env (
      KeepsConsistent-bind (open_output-KeepsConsistent env compilation_id)
        (λ path _. serve-KeepsConsistent path _ range))

  pub stream_audio-KeepsConsistent :
      (soundtrack_id : ℕ) (range : Option Text)
      → KeepsConsistent Anything (stream_audio env soundtrack_id range)
  unfolding stream_audio
  stream_audio-KeepsConsistent soundtrack_id range = KeepsConsistent-request env (
      KeepsConsistent-bind (open_audio-KeepsConsistent env soundtrack_id) (λ found _.
        KeepsConsistent-bind (KeepsConsistent-path_of env found.1)
          (λ path _. serve-KeepsConsistent path _ range)))
