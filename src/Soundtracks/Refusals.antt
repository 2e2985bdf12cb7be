-- ===== src/Soundtracks/Refusals.antt =====
-- The statuses of the errors that the requests on soundtracks end in.
use video_journal_be.Prelude.{ℕ, refl, Option, List, [], ◌∷◌}
use video_journal_be.Errors.{Text, Bytes, not_found, ffprobe_error}
use video_journal_be.Errors.Listed.{IsListed, HasListed, HasListed-bind}
use video_journal_be.Models.{Soundtrack}
use video_journal_be.Storage.{read}
use video_journal_be.Uploads.{Upload}
use video_journal_be.Naming.{build_soundtrack_key}
use video_journal_be.Naming.Extensions.{soundtrack_extension-HasListed}
use video_journal_be.Ffprobe.Refusals.{parse_audio_output-HasListed}
use video_journal_be.Session.{Env, put_soundtrack, delete_soundtrack}
use video_journal_be.Session.Rows.{find}
use video_journal_be.Session.Refusing.{
  Refuses, Refuses-bind, Refuses-then, Refuses-pure, Refuses-raise, Refuses-require, Refuses-told,
  Refuses-lift, Refuses-look, Refuses-try, Refuses-if, Refuses-delete_file, Refuses-path_of,
  Refuses-flush, Refuses-request,
}
use video_journal_be.Clips.Service.{is_ffprobe_error}
use video_journal_be.Clips.Service.Refusals.{discard-Refuses, store_upload-Refuses}
use video_journal_be.Soundtracks.{
  probe_audio, probe_audio_upload, add_soundtrack, create_soundtrack, get_soundtrack,
  delete_soundtrack_row, open_audio, post_soundtrack, remove_soundtrack,
}

module _ {F : Type 0} (env : Env F) where
  probe_audio_upload-Refuses :
      {statuses : List ℕ} (key : Text)
      → ((content : Option Bytes) → HasListed statuses (env.run_ffprobe content))
      → IsListed statuses ffprobe_error
      → Refuses statuses (probe_audio_upload env key)
  unfolding probe_audio_upload probe_audio
  probe_audio_upload-Refuses {statuses} key probing h =
      Refuses-try
        (Refuses-bind (Refuses-path_of env key) (λ path. Refuses-told (probe_audio env path) (λ w.
          HasListed-bind (probing (read path w.files))
            (λ out. parse_audio_output-HasListed statuses h env.ops out))))
        (λ e k. Refuses-if (is_ffprobe_error e) (discard-Refuses env key e k) (Refuses-raise e k))

  add_soundtrack-Refuses :
      {statuses : List ℕ} (s : Soundtrack F) → Refuses statuses (add_soundtrack env s)
  unfolding add_soundtrack
  add_soundtrack-Refuses s = Refuses-then (Refuses-flush env (put_soundtrack s)) (Refuses-pure s)

  -- POST may answer 413, 415 and 422.
  pub post_soundtrack-Refuses :
      (soundtrack_id now : ℕ) (upload : Upload)
      → ((content : Option Bytes) → HasListed (413 ∷ 415 ∷ 422 ∷ []) (env.run_ffprobe content))
      → Refuses (413 ∷ 415 ∷ 422 ∷ []) (post_soundtrack env soundtrack_id now upload)
  unfolding post_soundtrack create_soundtrack
  post_soundtrack-Refuses soundtrack_id now upload probing = Refuses-request env (
      Refuses-bind (Refuses-lift (soundtrack_extension-HasListed _ refl upload.filename)) (λ ext.
        Refuses-then (store_upload-Refuses env (build_soundtrack_key soundtrack_id ext) upload refl)
          (Refuses-bind
            (probe_audio_upload-Refuses (build_soundtrack_key soundtrack_id ext) probing refl)
            (λ result.
              Refuses-try (add_soundtrack-Refuses _)
                (discard-Refuses env (build_soundtrack_key soundtrack_id ext))))))

  get_soundtrack-Refuses :
      {statuses : List ℕ} (soundtrack_id : ℕ)
      → IsListed statuses not_found
      → Refuses statuses (get_soundtrack env soundtrack_id)
  unfolding get_soundtrack
  get_soundtrack-Refuses soundtrack_id h = Refuses-look (λ w.
      Refuses-require (find (λ (s : Soundtrack F). s.id) soundtrack_id w.working.soundtracks)
        not_found h)

  pub remove_soundtrack-Refuses :
      (soundtrack_id : ℕ) → Refuses (404 ∷ []) (remove_soundtrack env soundtrack_id)
  unfolding remove_soundtrack delete_soundtrack_row
  remove_soundtrack-Refuses soundtrack_id = Refuses-request env (
      Refuses-bind (get_soundtrack-Refuses soundtrack_id refl) (λ s.
        Refuses-then (Refuses-delete_file env s.key) (Refuses-flush env (delete_soundtrack s.id))))

  pub open_audio-Refuses :
      {statuses : List ℕ} (soundtrack_id : ℕ)
      → IsListed statuses not_found
      → Refuses statuses (open_audio env soundtrack_id)
  unfolding open_audio
  open_audio-Refuses soundtrack_id h =
      Refuses-bind (get_soundtrack-Refuses soundtrack_id h) (λ s. Refuses-pure (s, s.key))
