-- ===== src/Clips/Service/Consistent.antt =====
-- The requests on clips leave the tables consistent.
use video_journal_be.Prelude.{true, ℕ, ◌≡◌, refl, ◌<◌, ◌^◌, inl, Option, none, some}
use video_journal_be.Errors.{Text, Error, not_found}
use video_journal_be.Models.{Clip}
use video_journal_be.Ffprobe.{ProbeResult}
use video_journal_be.Text.{text_in}
use video_journal_be.Uploads.{Upload, iter_upload}
use video_journal_be.Naming.{clip_extension, clip_extensions, build_original_key}
use video_journal_be.Naming.Extensions.{clip_extension-allowed}
use video_journal_be.Session.{Env, delete_clip, put_clip}
use video_journal_be.Session.Rows.{find}
use video_journal_be.Session.Consistent.{IsConsistentClip, IsTable-find}
use video_journal_be.Session.Keeping.{
  KeepsConsistent-guard, Anything, KeepsConsistent, KeepsConsistent-bind, KeepsConsistent-commit,
  KeepsConsistent-delete_file, KeepsConsistent-flush, KeepsConsistent-gets, KeepsConsistent-if,
  KeepsConsistent-lift, KeepsConsistent-path_of, KeepsConsistent-pure, KeepsConsistent-raise,
  KeepsConsistent-raise_when, KeepsConsistent-request, KeepsConsistent-require,
  KeepsConsistent-same, KeepsConsistent-save_file, KeepsConsistent-then, KeepsConsistent-try,
  KeepsConsistent-look,
}
use video_journal_be.Clips.Service.{
  validation_error, is_valid_update, ClipUpdate, is_too_large, is_ffprobe_error, discard,
  store_upload, probe_upload, probe, assign_sort_index, new_clip, add_clip, create_from_upload,
  get_clip, updated, validate_trim, update_clip, delete_key, delete_clip_row, post_clip, patch_clip,
  remove_clip, open_key, is_ready, open_normalized, open_filmstrip,
}

module _ {F : Type 0} (env : Env F) where
  pub discard-KeepsConsistent :
      {A : Type 0} {P : A → Type 0} (key : Text) (e : Error)
      → KeepsConsistent {F = F} P (discard env key e)
  unfolding discard
  discard-KeepsConsistent key e =
      KeepsConsistent-then (KeepsConsistent-delete_file env key) (KeepsConsistent-raise e)

  pub store_upload-KeepsConsistent :
      (key : Text) (upload : Upload) → KeepsConsistent Anything (store_upload env key upload)
  unfolding store_upload
  store_upload-KeepsConsistent key upload =
      KeepsConsistent-try
        (KeepsConsistent-save_file env (iter_upload env.max_upload_bytes upload) key)
        (λ e.
          KeepsConsistent-if (is_too_large e) (discard-KeepsConsistent key e)
            (KeepsConsistent-raise e))

  probe_upload-KeepsConsistent : (key : Text) → KeepsConsistent Anything (probe_upload env key)
  unfolding probe_upload probe
  probe_upload-KeepsConsistent key =
      KeepsConsistent-try
        (KeepsConsistent-bind (KeepsConsistent-path_of env key) (λ path _.
          KeepsConsistent-bind (KeepsConsistent-same (probe env path) (λ w. (refl, refl)))
            (λ result _. KeepsConsistent-pure (path, result) tt)))
        (λ e.
          KeepsConsistent-if (is_ffprobe_error e) (discard-KeepsConsistent key e)
            (KeepsConsistent-raise e))

  add_clip-KeepsConsistent :
      (c : Clip F) → IsConsistentClip c → KeepsConsistent IsConsistentClip (add_clip env c)
  unfolding add_clip
  add_clip-KeepsConsistent c h =
      KeepsConsistent-then (KeepsConsistent-flush env (put_clip c) h) (KeepsConsistent-pure c h)

  new_clip-IsConsistentClip :
      (clip_id now : ℕ) (ext : Text) (result : ProbeResult F) (recorded_at : ℕ) (sort_index : F)
      → clip_id < 2 ^ 128
      → text_in ext clip_extensions ≡ true
      → IsConsistentClip
          (new_clip env clip_id now (build_original_key clip_id ext) result recorded_at sort_index)
  unfolding new_clip
  new_clip-IsConsistentClip clip_id now ext result recorded_at sort_index h k = record {
    bound = h;
    original = (ext, k, refl);
    normalized = inl refl;
    filmstrip = inl refl;
    finished = inl refl;
  }

  assign_sort_index-KeepsConsistent :
      (recorded_at : ℕ) → KeepsConsistent Anything (assign_sort_index env recorded_at)
  unfolding assign_sort_index
  assign_sort_index-KeepsConsistent recorded_at = KeepsConsistent-gets _ (λ w c. tt)

  create_from_upload-KeepsConsistent :
      (clip_id now : ℕ) (upload : Upload)
      → clip_id < 2 ^ 128
      → KeepsConsistent IsConsistentClip (create_from_upload env clip_id now upload)
  unfolding create_from_upload
  create_from_upload-KeepsConsistent clip_id now upload h =
      KeepsConsistent-bind {P = λ ext. text_in ext clip_extensions ≡ true}
        (KeepsConsistent-lift (clip_extension upload.filename)
          (clip_extension-allowed upload.filename))
        (λ ext k.
          KeepsConsistent-then
            (store_upload-KeepsConsistent (build_original_key clip_id ext) upload)
            (KeepsConsistent-bind (probe_upload-KeepsConsistent (build_original_key clip_id ext))
              (λ found _.
                KeepsConsistent-bind (assign_sort_index-KeepsConsistent _) (λ sort_index _.
                  KeepsConsistent-try
                    (add_clip-KeepsConsistent _
                      (new_clip-IsConsistentClip clip_id now ext found.1 _ sort_index h k))
                    (discard-KeepsConsistent (build_original_key clip_id ext))))))

  get_clip-KeepsConsistent : (clip_id : ℕ) → KeepsConsistent IsConsistentClip (get_clip env clip_id)
  unfolding get_clip
  get_clip-KeepsConsistent clip_id = KeepsConsistent-look (λ w k.
      KeepsConsistent-require (find (λ (c : Clip F). c.id) clip_id w.working.clips) not_found
        (λ c e.
          IsTable-find (λ (c : Clip F). c.id) IsConsistentClip clip_id w.working.clips k.1.clips e))

  updated-IsConsistentClip :
      (u : ClipUpdate F) (c : Clip F) → IsConsistentClip c → IsConsistentClip (updated env u c)
  unfolding updated
  updated-IsConsistentClip u c h = record {
    bound = h.bound;
    original = h.original;
    normalized = h.normalized;
    filmstrip = h.filmstrip;
    finished = h.finished;
  }

  update_clip-KeepsConsistent :
      (clip_id : ℕ) (u : ClipUpdate F)
      → KeepsConsistent IsConsistentClip (update_clip env clip_id u)
  unfolding update_clip validate_trim
  update_clip-KeepsConsistent clip_id u =
      KeepsConsistent-bind (get_clip-KeepsConsistent clip_id) (λ clip h.
        KeepsConsistent-then (KeepsConsistent-raise_when _ _)
          (add_clip-KeepsConsistent _ (updated-IsConsistentClip u clip h)))

  delete_key-KeepsConsistent : (key : Option Text) → KeepsConsistent Anything (delete_key env key)
  unfolding delete_key
  delete_key-KeepsConsistent none = KeepsConsistent-pure tt tt
  delete_key-KeepsConsistent (some key) = KeepsConsistent-delete_file env key

  delete_clip_row-KeepsConsistent :
      (clip_id : ℕ) → KeepsConsistent Anything (delete_clip_row env clip_id)
  unfolding delete_clip_row
  delete_clip_row-KeepsConsistent clip_id =
      KeepsConsistent-bind (get_clip-KeepsConsistent clip_id) (λ clip h.
        KeepsConsistent-then (delete_key-KeepsConsistent (some clip.original_key)) (
          KeepsConsistent-then (delete_key-KeepsConsistent clip.normalized_key) (
            KeepsConsistent-then (delete_key-KeepsConsistent clip.filmstrip_key)
              (KeepsConsistent-flush env (delete_clip clip.id) tt))))

  pub post_clip-KeepsConsistent :
      (clip_id now : ℕ) (upload : Upload)
      → clip_id < 2 ^ 128
      → KeepsConsistent Anything (post_clip env clip_id now upload)
  unfolding post_clip
  post_clip-KeepsConsistent clip_id now upload h = KeepsConsistent-request env (
      KeepsConsistent-bind (create_from_upload-KeepsConsistent clip_id now upload h) (λ clip _.
        KeepsConsistent-then (KeepsConsistent-commit env) (KeepsConsistent-pure clip tt)))

  pub patch_clip-KeepsConsistent :
      (clip_id : ℕ) (u : ClipUpdate F) → KeepsConsistent IsConsistentClip (patch_clip env clip_id u)
  unfolding patch_clip
  patch_clip-KeepsConsistent clip_id u = KeepsConsistent-request env (
      KeepsConsistent-guard (is_valid_update env u) validation_error
        (λ _. update_clip-KeepsConsistent clip_id u))

  pub remove_clip-KeepsConsistent :
      (clip_id : ℕ) → KeepsConsistent Anything (remove_clip env clip_id)
  unfolding remove_clip
  remove_clip-KeepsConsistent clip_id =
      KeepsConsistent-request env (delete_clip_row-KeepsConsistent clip_id)

  open_key-KeepsConsistent :
      (c : Clip F) (key : Option Text) → KeepsConsistent Anything (open_key env c key)
  unfolding open_key
  open_key-KeepsConsistent c none = KeepsConsistent-raise not_found
  open_key-KeepsConsistent c (some key) =
      KeepsConsistent-if (is_ready env c.status) (KeepsConsistent-path_of env key)
        (KeepsConsistent-raise not_found)

  pub open_normalized-KeepsConsistent :
      (clip_id : ℕ) → KeepsConsistent Anything (open_normalized env clip_id)
  unfolding open_normalized
  open_normalized-KeepsConsistent clip_id =
      KeepsConsistent-bind (get_clip-KeepsConsistent clip_id)
        (λ c h. open_key-KeepsConsistent c c.normalized_key)

  pub open_filmstrip-KeepsConsistent :
      (clip_id : ℕ) → KeepsConsistent Anything (open_filmstrip env clip_id)
  unfolding open_filmstrip
  open_filmstrip-KeepsConsistent clip_id =
      KeepsConsistent-bind (get_clip-KeepsConsistent clip_id)
        (λ c h. open_key-KeepsConsistent c c.filmstrip_key)
