-- ===== src/Soundtracks/Consistent.antt =====
-- The requests on soundtracks leave the tables consistent.
use video_journal_be.Prelude.{true, ℕ, ◌≡◌, ◌<◌, ◌^◌, refl, Option}
use video_journal_be.Errors.{Text, not_found}
use video_journal_be.Models.{Soundtrack}
use video_journal_be.Ffprobe.{AudioProbeResult}
use video_journal_be.Text.{text_in}
use video_journal_be.Uploads.{Upload}
use video_journal_be.Naming.{soundtrack_extension, soundtrack_extensions, build_soundtrack_key}
use video_journal_be.Naming.Extensions.{soundtrack_extension-allowed}
use video_journal_be.Session.{Env, put_soundtrack, delete_soundtrack}
use video_journal_be.Session.Rows.{find}
use video_journal_be.Session.Consistent.{IsConsistentSoundtrack, IsTable-find}
use video_journal_be.Session.Keeping.{
  Anything, KeepsConsistent, KeepsConsistent-bind, KeepsConsistent-delete_file,
  KeepsConsistent-flush, KeepsConsistent-if, KeepsConsistent-lift, KeepsConsistent-look,
  KeepsConsistent-path_of, KeepsConsistent-pure, KeepsConsistent-raise, KeepsConsistent-request,
  KeepsConsistent-require, KeepsConsistent-same, KeepsConsistent-then, KeepsConsistent-try,
}
use video_journal_be.Clips.Service.{is_ffprobe_error}
use video_journal_be.Clips.Service.Consistent.{
  discard-KeepsConsistent, store_upload-KeepsConsistent,
}
use video_journal_be.Soundtracks.{
  probe_audio, probe_audio_upload, new_soundtrack, add_soundtrack, create_soundtrack,
  get_soundtrack, delete_soundtrack_row, post_soundtrack, remove_soundtrack, open_audio,
}

module _ {F : Type 0} (env : Env F) where
  probe_audio_upload-KeepsConsistent :
      (key : Text) → KeepsConsistent Anything (probe_audio_upload env key)
  unfolding probe_audio_upload probe_audio
  probe_audio_upload-KeepsConsistent key =
      KeepsConsistent-try
        (KeepsConsistent-bind (KeepsConsistent-path_of env key)
          (λ path _. KeepsConsistent-same (probe_audio env path) (λ w. (refl, refl))))
        (λ e.
          KeepsConsistent-if (is_ffprobe_error e) (discard-KeepsConsistent env key e)
            (KeepsConsistent-raise e))

  new_soundtrack-IsConsistentSoundtrack :
      (soundtrack_id now : ℕ) (ext : Text) (filename : Option Text) (result : AudioProbeResult F)
      → soundtrack_id < 2 ^ 128
      → text_in ext soundtrack_extensions ≡ true
      → IsConsistentSoundtrack (
          new_soundtrack env soundtrack_id now
            (build_soundtrack_key soundtrack_id ext)
            filename
            result)
  unfolding new_soundtrack
  new_soundtrack-IsConsistentSoundtrack soundtrack_id now ext filename result h k = record {
    bound = h;
    stored = (ext, k, refl);
  }

  add_soundtrack-KeepsConsistent :
      (s : Soundtrack F)
      → IsConsistentSoundtrack s
      → KeepsConsistent Anything (add_soundtrack env s)
  unfolding add_soundtrack
  add_soundtrack-KeepsConsistent s h =
      KeepsConsistent-then (KeepsConsistent-flush env (put_soundtrack s) h)
        (KeepsConsistent-pure s tt)

  create_soundtrack-KeepsConsistent :
      (soundtrack_id now : ℕ) (upload : Upload)
      → soundtrack_id < 2 ^ 128
      → KeepsConsistent Anything (create_soundtrack env soundtrack_id now upload)
  unfolding create_soundtrack
  create_soundtrack-KeepsConsistent soundtrack_id now upload h =
      KeepsConsistent-bind {P = λ ext. text_in ext soundtrack_extensions ≡ true}
        (KeepsConsistent-lift (soundtrack_extension upload.filename)
          (soundtrack_extension-allowed upload.filename))
        (λ ext k.
          KeepsConsistent-then
            (store_upload-KeepsConsistent env (build_soundtrack_key soundtrack_id ext) upload)
            (KeepsConsistent-bind
              (probe_audio_upload-KeepsConsistent (build_soundtrack_key soundtrack_id ext))
              (λ result _.
                KeepsConsistent-try
                  (add_soundtrack-KeepsConsistent _ (
                    new_soundtrack-IsConsistentSoundtrack soundtrack_id now ext upload.filename
                      result h k))
                  (discard-KeepsConsistent env (build_soundtrack_key soundtrack_id ext)))))

  get_soundtrack-KeepsConsistent :
      (soundtrack_id : ℕ)
      → KeepsConsistent IsConsistentSoundtrack (get_soundtrack env soundtrack_id)
  unfolding get_soundtrack
  get_soundtrack-KeepsConsistent soundtrack_id =
      let id_of : Soundtrack F → ℕ = λ s. s.id in
      KeepsConsistent-look (λ w k.
        KeepsConsistent-require (find id_of soundtrack_id w.working.soundtracks) not_found (λ s e.
          IsTable-find id_of IsConsistentSoundtrack soundtrack_id w.working.soundtracks
            k.1.soundtracks e))

  delete_soundtrack_row-KeepsConsistent :
      (soundtrack_id : ℕ) → KeepsConsistent Anything (delete_soundtrack_row env soundtrack_id)
  unfolding delete_soundtrack_row
  delete_soundtrack_row-KeepsConsistent soundtrack_id =
      KeepsConsistent-bind (get_soundtrack-KeepsConsistent soundtrack_id) (λ s h.
        KeepsConsistent-then (KeepsConsistent-delete_file env s.key)
          (KeepsConsistent-flush env (delete_soundtrack s.id) tt))

  pub post_soundtrack-KeepsConsistent :
      (soundtrack_id now : ℕ) (upload : Upload)
      → soundtrack_id < 2 ^ 128
      → KeepsConsistent Anything (post_soundtrack env soundtrack_id now upload)
  unfolding post_soundtrack
  post_soundtrack-KeepsConsistent soundtrack_id now upload h =
      KeepsConsistent-request env (create_soundtrack-KeepsConsistent soundtrack_id now upload h)

  pub remove_soundtrack-KeepsConsistent :
      (soundtrack_id : ℕ) → KeepsConsistent Anything (remove_soundtrack env soundtrack_id)
  unfolding remove_soundtrack
  remove_soundtrack-KeepsConsistent soundtrack_id =
      KeepsConsistent-request env (delete_soundtrack_row-KeepsConsistent soundtrack_id)

  pub open_audio-KeepsConsistent :
      (soundtrack_id : ℕ) → KeepsConsistent Anything (open_audio env soundtrack_id)
  unfolding open_audio
  open_audio-KeepsConsistent soundtrack_id =
      KeepsConsistent-bind (get_soundtrack-KeepsConsistent soundtrack_id)
        (λ s h. KeepsConsistent-pure (s, s.key) tt)
