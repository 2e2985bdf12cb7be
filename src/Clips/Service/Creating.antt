-- ===== src/Clips/Service/Creating.antt =====
-- Uploading a clip: what is stored on success, and what is cleaned up on each error.
use mathlib.Core.List.{flatten}
use video_journal_be.Prelude.{
  ℕ, ◌≡◌, refl, ap, ap₂, ◌∙◌, true, false, Bool-cases, none, some, ◌++◌, ◌⊎◌, inl, inr, arith, ltb,
  ◌≤◌, ◌<◌, ◌^◌, if◌then◌else◌, length,
}
use video_journal_be.Errors
use video_journal_be.Errors.{
  Text, Bytes, Error, Result, Result-cases, ok, err, upload_too_large, ffprobe_error, unexpected,
}
use video_journal_be.Models.{Clip, processing}
use video_journal_be.Ffprobe.{ProbeResult, parse_output}
use video_journal_be.Storage.{FilePath, Stream, resolve, read, write, unlink}
use video_journal_be.Storage.Files.{read-write_self, read-unlink_self}
use video_journal_be.Uploads.{Upload, iter_upload}
use video_journal_be.Uploads.Limit.{iter_upload_limit}
use video_journal_be.Session.{
  World, Env, M, recover, raise, delete_file, put_clip, apply, try_except,
}
use video_journal_be.Session.Laws.{
  Outcome, save_file_lem, delete_file_lem, path_of_lem, flush_lem, >>=-ok,
}
use video_journal_be.Clips.Queries.{max_sort_index, previous_clip, next_clip}
use video_journal_be.Naming.{clip_extension, build_original_key}
use video_journal_be.Naming.Extensions.{clip_extension-HasNoSlash}
use video_journal_be.Naming.Keys.{original, place, resolve-asset}
use video_journal_be.Clips.Service.{
  or_else, or_option, assign_sort_index, fractional_index, store_upload, discard, is_too_large,
  is_ffprobe_error, probe_upload, probe, create_from_upload, add_clip, new_clip,
}

-- What ffprobe makes of a content.
abbrev pub probed : {F : Type 0} → Env F → Bytes → Result (ProbeResult F)
probed env content = Errors.◌>>=◌ (env.run_ffprobe (some content)) (parse_output env.ops)

module _ {F : Type 0} (env : Env F) (key : Text) (p : FilePath)
    (resolved : resolve env.base key ≡ ok p) where
  -- The world with no file at `p`.
  pub discard_lem :
      {A : Type 0} (e : Error) (w : World F)
      → discard env {A = A} key e w ≡ (err e, record w { files = unlink p w.files })
  unfolding discard
  discard_lem e w =
      >>=-ok (delete_file env key) (λ _. raise e) w (delete_file_lem env key p w resolved)

  pub store_small :
      (upload : Upload) (w : World F)
      → ltb env.max_upload_bytes (length upload.content) ≡ false
      → store_upload env key upload w
        ≡ (ok key, record w { files = write p upload.content w.files })
  unfolding store_upload
  store_small upload w h =
      let s : Stream = iter_upload env.max_upload_bytes upload in
      let (ending, whole, _) = iter_upload_limit env.max_upload_bytes upload in
      let handler : Error → M F Text = λ e. if is_too_large e then discard env key e else raise e in
      let ended : s.ending ≡ ok tt = rw ending (rw h) in
      ap (recover handler) (
        save_file_lem env s key p w resolved
        ∙ ap₂
            (λ (r : Result (Unit {0})) (b : Bytes).
              (Errors.◌>>◌ r (ok key), record w { files = write p b w.files }))
            ended (whole (ground arith)))

  pub store_large :
      (upload : Upload) (w : World F)
      → ltb env.max_upload_bytes (length upload.content) ≡ true
      → store_upload env key upload w ≡ (
        err upload_too_large,
        record w {
          files =
              unlink p (write p (flatten (iter_upload env.max_upload_bytes upload).chunks) w.files);
        },
      )
  unfolding store_upload
  store_large upload w h =
      let s : Stream = iter_upload env.max_upload_bytes upload in
      let (ending, _, _) = iter_upload_limit env.max_upload_bytes upload in
      let handler : Error → M F Text = λ e. if is_too_large e then discard env key e else raise e in
      let ended : s.ending ≡ err upload_too_large = rw ending (rw h) in
      ap (recover handler) (
        save_file_lem env s key p w resolved
        ∙ ap
            (λ (r : Result (Unit {0})).
              (Errors.◌>>◌ r (ok key), record w { files = write p (flatten s.chunks) w.files }))
            ended)
      ∙ discard_lem upload_too_large (record w { files = write p (flatten s.chunks) w.files })

  module _ (content : Bytes) (w : World F) (stored : read p w.files ≡ some content) where
    probe_at : probe env p w ≡ (probed env content, w)
    unfolding probe
    probe_at = rw stored

    probe_found :
        {result : ProbeResult F}
        → probed env content ≡ ok result
        → probe_upload env key w ≡ (ok (p, result), w)
    unfolding probe_upload
    probe_found e = rw (path_of_lem env key p w resolved, probe_at, e)

    probe_failed :
        {e : Error}
        → probed env content ≡ err e
        → probe_upload env key w
          ≡ (err e, if is_ffprobe_error e then record w { files = unlink p w.files } else w)
    unfolding probe_upload
    probe_failed {e} h =
        rw (path_of_lem env key p w resolved, probe_at, h)
          (elim (Bool-cases (is_ffprobe_error e)) [
            | inl named ↦ rw named (discard_lem e w)
            | inr other ↦ rw other
          ])

  -- The row is inserted, or the file is removed again.
  add_or_discard :
      (clip : Clip F) (w : World F)
      → (try_except (add_clip env clip) (discard env key) w
          ≡ (ok clip, record w { working = apply (put_clip clip) w.working }))
        ⊎ (try_except (add_clip env clip) (discard env key) w
            ≡ (err unexpected, record w { broken = true; files = unlink p w.files }))
  unfolding add_clip
  add_or_discard clip w = elim (flush_lem env (put_clip clip) w) [
    | inl done ↦ inl (rw done)
    | inr refused ↦ inr (rw refused (discard_lem unexpected (record w { broken = true })))
  ]

module _ {F : Type 0} (env : Env F) (clip_id now : ℕ) (upload : Upload) (ext : Text) where
  abbrev pub original_path : FilePath
  original_path = env.base ++ place (original clip_id ext)

  abbrev key : Text
  key = build_original_key clip_id ext

  -- The row for a probed upload, beside the clips that are there.
  abbrev pub created : ProbeResult F → World F → Clip F
  created result w =
      let recorded_at = or_else (or_option result.recorded_at (env.mtime original_path)) now in
      new_clip env clip_id now key result recorded_at (
        fractional_index env (max_sort_index env.ops.floats w.working.clips)
          (previous_clip recorded_at w.working.clips) (next_clip recorded_at w.working.clips))

  abbrev pub Created : Clip F → World F → World F → Type 0
  Created clip w w' =
      (clip.id ≡ clip_id)
      × (clip.original_key ≡ key)
      × (clip.status ≡ processing)
      × (clip.trim_in_s ≡ some (env.ops.floats.of_ℕ 0))
      × (clip.trim_out_s ≡ some (or_else clip.duration_s (env.ops.floats.of_ℕ 0)))
      × (length upload.content ≤ env.max_upload_bytes)
      × (w'.working ≡ apply (put_clip clip) w.working)
      × (w'.files ≡ write original_path upload.content w.files)

  abbrev pub NotCreated : Error → World F → World F → Type 0
  NotCreated e w w' =
      (w'.working ≡ w.working)
      × ((read original_path w'.files ≡ none)
          ⊎ ((probed env upload.content ≡ err e) × (is_ffprobe_error e ≡ false)))

  module _ (w : World F) (named : clip_extension upload.filename ≡ ok ext)
      (resolved : resolve env.base key ≡ ok original_path) where
    abbrev stored : World F
    stored = record w { files = write original_path upload.content w.files }

    not_stored :
        ltb env.max_upload_bytes (length upload.content) ≡ true
        → Outcome
            (λ clip w'. Created clip w w')
            (λ e w'. NotCreated e w w')
            (create_from_upload env clip_id now upload w)
    unfolding create_from_upload
    not_stored large =
        rw (named, store_large env key original_path resolved upload w large)
          (refl, inl (read-unlink_self original_path _))

    module _ (fits : ltb env.max_upload_bytes (length upload.content) ≡ false) where
      not_probed :
          (e : Error)
          → probed env upload.content ≡ err e
          → Outcome
              (λ clip w'. Created clip w w')
              (λ e w'. NotCreated e w w')
              (create_from_upload env clip_id now upload w)
      unfolding create_from_upload
      not_probed e failed =
          rw
            (
              named,
              store_small env key original_path resolved upload w fits,
              probe_failed env key original_path resolved upload.content stored
                  (read-write_self original_path upload.content w.files) failed,
            )
            (elim (Bool-cases (is_ffprobe_error e)) [
              | inl removed ↦ rw removed (refl, inl (read-unlink_self original_path _))
              | inr left ↦ rw left (refl, inr (failed, refl))
            ])

      was_probed :
          (result : ProbeResult F)
          → probed env upload.content ≡ ok result
          → Outcome
              (λ clip w'. Created clip w w')
              (λ e w'. NotCreated e w w')
              (create_from_upload env clip_id now upload w)
      unfolding create_from_upload assign_sort_index new_clip
      was_probed result found =
          rw
            (
              named,
              store_small env key original_path resolved upload w fits,
              probe_found env key original_path resolved upload.content stored
                  (read-write_self original_path upload.content w.files) found,
            )
            (elim (add_or_discard env key original_path resolved (created result w) stored) [
              | inl done ↦ rw done (refl, refl, refl, refl, refl, ground arith, refl, refl)
              | inr refused ↦ rw refused (refl, inl (read-unlink_self original_path _))
            ])

  -- An accepted upload creates a clip in processing whose trim window is its whole duration, with its
  -- content stored under its key and its row inserted. A refused one inserts nothing, and leaves no file, unless
  -- reading ffprobe's output raised something other than FfprobeError.
  pub create_from_upload-Outcome :
      (w : World F)
      → clip_id < 2 ^ 128
      → clip_extension upload.filename ≡ ok ext
      → Outcome
          (λ clip w'. Created clip w w')
          (λ e w'. NotCreated e w w')
          (create_from_upload env clip_id now upload w)
  create_from_upload-Outcome w small named =
      let resolved : resolve env.base key ≡ ok original_path =
        resolve-asset env.base (original clip_id ext)
          (small, clip_extension-HasNoSlash upload.filename named) in
      elim (Bool-cases (ltb env.max_upload_bytes (length upload.content))) [
        | inl large ↦ not_stored w named resolved large
        | inr fits ↦ elim (Result-cases (probed env upload.content)) [
          | inl (result, found) ↦ was_probed w named resolved fits result found
          | inr (e, failed) ↦ not_probed w named resolved fits e failed
        ]
      ]
