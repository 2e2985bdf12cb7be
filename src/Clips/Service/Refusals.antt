-- ===== src/Clips/Service/Refusals.antt =====
-- The statuses of the errors that the requests on clips end in.
use video_journal_be.Prelude.{ℕ, refl, Option, none, some, List, [], ◌∷◌}
use video_journal_be.Errors.{
  Text, Bytes, Error, not_found, invalid_trim, ffprobe_error, upload_too_large,
}
use video_journal_be.Errors.Listed.{IsListed, HasListed, HasListed-bind}
use video_journal_be.Models.{Clip}
use video_journal_be.Storage.{read}
use video_journal_be.Uploads.{Upload, iter_upload}
use video_journal_be.Uploads.Limit.{iter_upload-HasListed}
use video_journal_be.Naming.{build_original_key}
use video_journal_be.Naming.Extensions.{clip_extension-HasListed}
use video_journal_be.Ffprobe.Refusals.{parse_output-HasListed}
use video_journal_be.Session.{Env, delete_clip, put_clip}
use video_journal_be.Session.Rows.{find}
use video_journal_be.Session.Refusing.{
  Refuses, Refuses-bind, Refuses-then, Refuses-pure, Refuses-raise, Refuses-gets, Refuses-require,
  Refuses-told, Refuses-lift, Refuses-look, Refuses-try, Refuses-if, Refuses-raise_when,
  Refuses-save_file, Refuses-delete_file, Refuses-path_of, Refuses-flush, Refuses-commit,
  Refuses-request,
}
use video_journal_be.Clips.Service.{
  validation_error, ClipUpdate, is_too_large, is_ffprobe_error, discard, store_upload, probe_upload,
  probe, assign_sort_index, add_clip, create_from_upload, get_clip, updated, validate_trim,
  update_clip, delete_key, delete_clip_row, post_clip, patch_clip, remove_clip, open_key, is_ready,
  open_normalized, open_filmstrip,
}

module _ {F : Type 0} (env : Env F) where
  pub discard-Refuses :
      {statuses : List ℕ} {A : Type 0} (key : Text) (e : Error)
      → IsListed statuses e
      → Refuses {F = F} {A = A} statuses (discard env key e)
  unfolding discard
  discard-Refuses key e h = Refuses-then (Refuses-delete_file env key) (Refuses-raise e h)

  pub store_upload-Refuses :
      {statuses : List ℕ} (key : Text) (upload : Upload)
      → IsListed statuses upload_too_large
      → Refuses statuses (store_upload env key upload)
  unfolding store_upload
  store_upload-Refuses {statuses} key upload h =
      Refuses-try
        (Refuses-save_file env (iter_upload env.max_upload_bytes upload) key
          (iter_upload-HasListed statuses h env.max_upload_bytes upload))
        (λ e k. Refuses-if (is_too_large e) (discard-Refuses key e k) (Refuses-raise e k))

  probe_upload-Refuses :
      {statuses : List ℕ} (key : Text)
      → ((content : Option Bytes) → HasListed statuses (env.run_ffprobe content))
      → IsListed statuses ffprobe_error
      → Refuses statuses (probe_upload env key)
  unfolding probe_upload probe
  probe_upload-Refuses {statuses} key probing h =
      Refuses-try
        (Refuses-bind (Refuses-path_of env key) (λ path.
          Refuses-bind
            (Refuses-told (probe env path) (λ w.
              HasListed-bind (probing (read path w.files))
                (λ out. parse_output-HasListed statuses h env.ops out)))
            (λ result. Refuses-pure (path, result))))
        (λ e k. Refuses-if (is_ffprobe_error e) (discard-Refuses key e k) (Refuses-raise e k))

  add_clip-Refuses : {statuses : List ℕ} (c : Clip F) → Refuses statuses (add_clip env c)
  unfolding add_clip
  add_clip-Refuses c = Refuses-then (Refuses-flush env (put_clip c)) (Refuses-pure c)

  assign_sort_index-Refuses :
      {statuses : List ℕ} (recorded_at : ℕ) → Refuses statuses (assign_sort_index env recorded_at)
  unfolding assign_sort_index
  assign_sort_index-Refuses recorded_at = Refuses-gets _

  get_clip-Refuses :
      {statuses : List ℕ} (clip_id : ℕ)
      → IsListed statuses not_found
      → Refuses statuses (get_clip env clip_id)
  unfolding get_clip
  get_clip-Refuses clip_id h =
      Refuses-look
        (λ w. Refuses-require (find (λ (c : Clip F). c.id) clip_id w.working.clips) not_found h)

  -- POST may answer 413, 415 and 422.
  pub post_clip-Refuses :
      (clip_id now : ℕ) (upload : Upload)
      → ((content : Option Bytes) → HasListed (413 ∷ 415 ∷ 422 ∷ []) (env.run_ffprobe content))
      → Refuses (413 ∷ 415 ∷ 422 ∷ []) (post_clip env clip_id now upload)
  unfolding post_clip create_from_upload
  post_clip-Refuses clip_id now upload probing = Refuses-request env (
      Refuses-bind
        (Refuses-bind (Refuses-lift (clip_extension-HasListed _ refl upload.filename)) (λ ext.
          Refuses-then (store_upload-Refuses (build_original_key clip_id ext) upload refl) (
            Refuses-bind (probe_upload-Refuses (build_original_key clip_id ext) probing refl)
              (λ found. Refuses-bind (assign_sort_index-Refuses _) (λ sort_index.
                Refuses-try (add_clip-Refuses _)
                  (discard-Refuses (build_original_key clip_id ext)))))))
        (λ clip. Refuses-then (Refuses-commit env) (Refuses-pure clip)))

  pub patch_clip-Refuses :
      (clip_id : ℕ) (u : ClipUpdate F) → Refuses (404 ∷ 422 ∷ []) (patch_clip env clip_id u)
  unfolding patch_clip update_clip validate_trim
  patch_clip-Refuses clip_id u = Refuses-request env (
      Refuses-then (Refuses-raise_when _ validation_error refl) (
        Refuses-bind (get_clip-Refuses clip_id refl) (λ clip.
          Refuses-then (Refuses-raise_when _ invalid_trim refl)
            (add_clip-Refuses (updated env u clip)))))

  delete_key-Refuses :
      {statuses : List ℕ} (key : Option Text) → Refuses statuses (delete_key env key)
  unfolding delete_key
  delete_key-Refuses none = Refuses-pure tt
  delete_key-Refuses (some key) = Refuses-delete_file env key

  pub remove_clip-Refuses : (clip_id : ℕ) → Refuses (404 ∷ []) (remove_clip env clip_id)
  unfolding remove_clip delete_clip_row
  remove_clip-Refuses clip_id = Refuses-request env (
      Refuses-bind (get_clip-Refuses clip_id refl) (λ clip.
        Refuses-then (delete_key-Refuses (some clip.original_key)) (
          Refuses-then (delete_key-Refuses clip.normalized_key) (
            Refuses-then (delete_key-Refuses clip.filmstrip_key)
              (Refuses-flush env (delete_clip clip.id))))))

  open_key-Refuses :
      {statuses : List ℕ} (c : Clip F) (key : Option Text)
      → IsListed statuses not_found
      → Refuses statuses (open_key env c key)
  unfolding open_key
  open_key-Refuses c none h = Refuses-raise not_found h
  open_key-Refuses c (some key) h =
      Refuses-if (is_ready env c.status) (Refuses-path_of env key) (Refuses-raise not_found h)

  pub open_normalized-Refuses :
      {statuses : List ℕ} (clip_id : ℕ)
      → IsListed statuses not_found
      → Refuses statuses (open_normalized env clip_id)
  unfolding open_normalized
  open_normalized-Refuses clip_id h =
      Refuses-bind (get_clip-Refuses clip_id h) (λ c. open_key-Refuses c c.normalized_key h)

  pub open_filmstrip-Refuses :
      {statuses : List ℕ} (clip_id : ℕ)
      → IsListed statuses not_found
      → Refuses statuses (open_filmstrip env clip_id)
  unfolding open_filmstrip
  open_filmstrip-Refuses clip_id h =
      Refuses-bind (get_clip-Refuses clip_id h) (λ c. open_key-Refuses c c.filmstrip_key h)
