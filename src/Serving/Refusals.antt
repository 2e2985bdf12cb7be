-- ===== src/Serving/Refusals.antt =====
-- The statuses of the errors that the routes with a file end in: 404, and 416 for a Range header.
use video_journal_be.Prelude.{ℕ, refl, Option, [], ◌∷◌}
use video_journal_be.Errors.{Text}
use video_journal_be.Storage.{FilePath, read}
use video_journal_be.MediaResponse.Refusals.{build_media_response-HasListed}
use video_journal_be.Session.{Env}
use video_journal_be.Session.Refusing.{
  Refuses, Refuses-bind, Refuses-told, Refuses-path_of, Refuses-request,
}
use video_journal_be.Clips.Service.Refusals.{open_normalized-Refuses, open_filmstrip-Refuses}
use video_journal_be.Compilations.Service.Refusals.{open_output-Refuses}
use video_journal_be.Soundtracks.Refusals.{open_audio-Refuses}
use video_journal_be.Serving.{
  cache_immutable, serve, get_clip_video, get_clip_filmstrip, get_compilation_video, stream_audio,
}

module _ {F : Type 0} (env : Env F) where
  serve-Refuses :
      (path : FilePath) (content_type : Text) (range : Option Text)
      → Refuses (404 ∷ 416 ∷ []) (serve env path content_type range)
  serve-Refuses path content_type range = Refuses-told (serve env path content_type range) (λ w.
      build_media_response-HasListed (404 ∷ 416 ∷ []) refl (read path w.files) content_type range
        cache_immutable)

  pub get_clip_video-Refuses :
      (clip_id : ℕ) (range : Option Text)
      → Refuses (404 ∷ 416 ∷ []) (get_clip_video env clip_id range)
  unfolding get_clip_video
  get_clip_video-Refuses clip_id range =
      Refuses-request env (
        Refuses-bind (open_normalized-Refuses env clip_id refl)
          (λ path. serve-Refuses path _ range))

  pub get_clip_filmstrip-Refuses :
      (clip_id : ℕ) (range : Option Text)
      → Refuses (404 ∷ 416 ∷ []) (get_clip_filmstrip env clip_id range)
  unfolding get_clip_filmstrip
  get_clip_filmstrip-Refuses clip_id range =
      Refuses-request env (
        Refuses-bind (open_filmstrip-Refuses env clip_id refl) (λ path. serve-Refuses path _ range))

  pub get_compilation_video-Refuses :
      (compilation_id : ℕ) (range : Option Text)
      → Refuses (404 ∷ 416 ∷ []) (get_compilation_video env compilation_id range)
  unfolding get_compilation_video
  get_compilation_video-Refuses compilation_id range = Refuses-request env (
      Refuses-bind (open_output-Refuses env compilation_id refl)
        (λ path. serve-Refuses path _ range))

  pub stream_audio-Refuses :
      (soundtrack_id : ℕ) (range : Option Text)
      → Refuses (404 ∷ 416 ∷ []) (stream_audio env soundtrack_id range)
  unfolding stream_audio
  stream_audio-Refuses soundtrack_id range = Refuses-request env (
      Refuses-bind (open_audio-Refuses env soundtrack_id refl)
        (λ found. Refuses-bind (Refuses-path_of env found.1) (λ path. serve-Refuses path _ range)))
