-- ===== src/Serving/Videos.antt =====
-- What the handlers of the videos and film strips answer, in consistent tables.
use video_journal_be.Prelude.{ℕ, ◌≡◌, ap, Option, false}
use video_journal_be.Errors
use video_journal_be.Errors.{Text, Result, ok, err}
use video_journal_be.Text.{codes}
use video_journal_be.Models.{Clip, Compilation}
use video_journal_be.Storage.{FilePath, read}
use video_journal_be.MediaResponse.{Response, build_media_response}
use video_journal_be.Session.{World, Env, M, ◌>>=◌, continue}
use video_journal_be.Session.Laws.{request_reads}
use video_journal_be.Session.Rows.{find}
use video_journal_be.Session.Consistent.{IsConsistent}
use video_journal_be.Clips.Service.Opening.{
  video_path, strip_path, open_normalized_lem, open_filmstrip_lem,
}
use video_journal_be.Clips.Service.{open_normalized, open_filmstrip}
use video_journal_be.Compilations.Service.{find_compilation, open_output}
use video_journal_be.Compilations.Service.Opening.{rendered_path, open_output_lem}
use video_journal_be.Serving.{
  cache_immutable, serve, get_clip_video, get_clip_filmstrip, get_compilation_video,
}

module _ {F : Type 0} (env : Env F) where
  -- The session that a request starts with.
  abbrev pub fresh : World F → World F
  fresh w = record w { working = w.committed; broken = false }

  -- The answer with the file at a path, or the error that stands for it.
  abbrev pub answer : Result FilePath → Text → Option Text → World F → Result Response
  answer path content_type range w =
      Errors.◌>>=◌ path
        (λ p. build_media_response (read p w.files) content_type range cache_immutable)

  served :
      (m : M F FilePath) (path : Result FilePath) (content_type : Text) (range : Option Text)
      (w : World F)
      → m w ≡ (path, w)
      → (m >>= λ p. serve env p content_type range) w ≡ (answer path content_type range w, w)
  served m (ok p) content_type range w h = ap (continue (λ p. serve env p content_type range)) h
  served m (err e) content_type range w h = ap (continue (λ p. serve env p content_type range)) h

  module _ (w : World F) (consistent : IsConsistent w.committed)
      (granted : env.refuses_commit w.committed ≡ false) where
    pub get_clip_video_lem :
        (clip_id : ℕ) (range : Option Text)
        → get_clip_video env clip_id range w ≡ (
          answer
              (video_path env (find (λ (c : Clip F). c.id) clip_id w.committed.clips))
              (codes "video/mp4")
              range
              w,
          fresh w,
        )
    unfolding get_clip_video
    get_clip_video_lem clip_id range =
        request_reads env _ w _
          (served (open_normalized env clip_id) _ (codes "video/mp4") range (fresh w)
            (open_normalized_lem env clip_id (fresh w) (consistent, consistent)))
          granted

    pub get_clip_filmstrip_lem :
        (clip_id : ℕ) (range : Option Text)
        → get_clip_filmstrip env clip_id range w ≡ (
          answer
              (strip_path env (find (λ (c : Clip F). c.id) clip_id w.committed.clips))
              (codes "image/jpeg")
              range
              w,
          fresh w,
        )
    unfolding get_clip_filmstrip
    get_clip_filmstrip_lem clip_id range =
        request_reads env _ w _
          (served (open_filmstrip env clip_id) _ (codes "image/jpeg") range (fresh w)
            (open_filmstrip_lem env clip_id (fresh w) (consistent, consistent)))
          granted

    pub get_compilation_video_lem :
        (compilation_id : ℕ) (range : Option Text)
        → get_compilation_video env compilation_id range w ≡ (
          answer
              (rendered_path env
                (find (λ (c : Compilation F). c.id) compilation_id w.committed.compilations))
              (codes "video/mp4")
              range
              w,
          fresh w,
        )
    unfolding get_compilation_video find_compilation
    get_compilation_video_lem compilation_id range =
        request_reads env _ w _
          (served (open_output env compilation_id) _ (codes "video/mp4") range (fresh w)
            (open_output_lem env compilation_id (fresh w) (consistent, consistent)))
          granted
