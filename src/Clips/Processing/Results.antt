-- ===== src/Clips/Processing/Results.antt =====
-- How processing a clip ends: ready with its video in the storage, failed, or with a session that wants a rollback.
use mathlib.Core.Bool.{false≢true}
use video_journal_be.Prelude.{◌≡◌, refl, sym, ◌∙◌, true, false, none, some, [], inl, inr, ◌<◌, ◌^◌}
use video_journal_be.Errors.{Bytes, Result, ok, err}
use video_journal_be.Models.{Clip, ready, failed}
use video_journal_be.Storage.{FilePath, resolve, read, write}
use video_journal_be.Storage.Files.{read-unlink_self}
use video_journal_be.Media.{build_normalize_command, path_text}
use video_journal_be.Naming.{build_normalized_key}
use video_journal_be.Session.{World, Env, put_clip, apply, flush, open_temp, unlink_temp}
use video_journal_be.Session.Rows.{find}
use video_journal_be.Session.Laws.{
  Outcome, Outcome-finally, Outcome-mono, flush_lem, flush_broken, path_of_lem, request-Outcome,
}
use video_journal_be.Clips.Processing.{
  generate_and_store_filmstrip, store_normalized, published, normalized as normalized_step,
  normalization_failed, mark_failed, transcode, process_found, process_clip, run_normalization,
}
use video_journal_be.Clips.Processing.Filmstrip.{
  video_path, normalization, HasVideo, Stored, store_normalized-Outcome, row_written, done,
  Processed, Ends, Ends-unlink, filmstrip-Ends, SameDb, processed_ready, processed_failed,
  processed_broken,
}

module _ {F : Type 0} (env : Env F) (tmp strip : FilePath) (clip : Clip F)
    (small : clip.id < 2 ^ 128) (ran : Result Bytes) where
  abbrev failed_row : (c : Clip F) → Clip F
  failed_row c = record c { status = failed; error_message = some normalization_failed }

  -- A clip whose video could not be made is marked, or the session breaks.
  mark_failed-Ends :
      (w : World F)
      → w.broken ≡ false
      → Outcome
          (λ _ w'. (Ends env tmp strip clip small ran) w w')
          (λ e w'. (Ends env tmp strip clip small ran) w w')
          (mark_failed env tmp strip clip w)
  unfolding mark_failed
  mark_failed-Ends w intact =
      elim (flush_lem env
        (put_clip (record clip { status = failed; error_message = some normalization_failed })) w) [
          | inl done_it ↦
              rw done_it (
                refl,
                processed_failed ((row_written env tmp strip clip small ran) _ w refl) intact,
              )
          | inr refused ↦ rw refused (refl, processed_broken refl)
        ]

  -- In a broken session the mark fails as well.
  mark_failed_broken :
      (c : Clip F) (w : World F)
      → w.broken ≡ true
      → Outcome
          (λ _ w'. (Ends env tmp strip clip small ran) w w')
          (λ e w'. (Ends env tmp strip clip small ran) w w')
          (mark_failed env tmp strip c w)
  unfolding mark_failed
  mark_failed_broken c w h =
      rw (flush_broken env (put_clip (failed_row c)) w h) (refl, processed_broken refl)

  publish-Ends :
      (w : World F)
      → w.broken ≡ false
      → (HasVideo env tmp strip clip small ran) w
      → Outcome
          (λ _ w'. (Ends env tmp strip clip small ran) w w')
          (λ e w'. (Ends env tmp strip clip small ran) w w')
          (published env tmp strip
            (done env tmp strip clip small ran)
            (flush env (put_clip (done env tmp strip clip small ran)) w))
  unfolding published
  publish-Ends w intact video =
      let written : World F = record w {
        working = apply (put_clip (done env tmp strip clip small ran)) w.working;
      } in
      elim (flush_lem env (put_clip (done env tmp strip clip small ran)) w) [
        | inl done_it ↦ rw done_it (
            Outcome-mono (λ _ w'. (Ends env tmp strip clip small ran) written w') _ (λ _ w'. ⊥) _
              (generate_and_store_filmstrip env tmp strip (done env tmp strip clip small ran)
                written)
              (λ _ w' h. h) (λ e w' h. absurd h)
              ((filmstrip-Ends env tmp strip clip small ran) written
                ((row_written env tmp strip clip small ran) (done env tmp strip clip small ran) w
                  refl)
                intact video))
        | inr refused ↦ rw refused (
            mark_failed_broken (done env tmp strip clip small ran) (record w { broken = true })
              refl)
      ]

  Ends-from :
      (w w1 : World F)
      → w1.committed ≡ w.committed
      → (r : Result (Unit {0}) × World F)
      → Outcome
          (λ _ w'. (Ends env tmp strip clip small ran) w1 w')
          (λ e w'. (Ends env tmp strip clip small ran) w1 w')
          r
      → Outcome
          (λ _ w'. (Ends env tmp strip clip small ran) w w')
          (λ e w'. (Ends env tmp strip clip small ran) w w')
          r
  Ends-from w w1 base r =
      Outcome-mono (λ _ w'. (Ends env tmp strip clip small ran) w1 w') _
        (λ _ w'. (Ends env tmp strip clip small ran) w1 w') _ r (λ _ w' h. (h.0 ∙ base, h.1))
        (λ _ w' h. (h.0 ∙ base, h.1))

  transcode-Ends :
      (src : FilePath) (w : World F)
      → env.run_ffmpeg (normalization env tmp strip clip small ran src) w.files w.temps ≡ ran
      → w.broken ≡ false
      → Outcome
          (λ _ w'. (Ends env tmp strip clip small ran) w w')
          (λ e w'. (Ends env tmp strip clip small ran) w w')
          (transcode env tmp strip clip.id clip src w)
  unfolding transcode
  transcode-Ends src w told intact =
      go (store_normalized env tmp strip clip.id src w)
        ((store_normalized-Outcome env tmp strip clip small ran) src w told)
    where
      go :
          (r : Result (Unit {0}) × World F)
          → Outcome (λ _ w'. (Stored env tmp strip clip small ran) w w') (λ _ w'. SameDb w w') r
          → Outcome
              (λ _ w'. (Ends env tmp strip clip small ran) w w')
              (λ e w'. (Ends env tmp strip clip small ran) w w')
              (normalized_step env tmp strip clip.id clip r)
      go (ok _, w1) k = Ends-from w w1 k.0.0 _ (publish-Ends w1 (k.0.2 ∙ intact) k.1)
      go (err e, w1) k = Ends-from w w1 k.0 _ (mark_failed-Ends w1 (k.2 ∙ intact))

  -- The task on a stored clip: the row is settled or the session broken, and the temporary file is gone.
  process_found-Ends :
      (w : World F) (src : FilePath)
      → resolve env.base clip.original_key ≡ ok src
      → env.run_ffmpeg
          (normalization env tmp strip clip small ran src)
          w.files
          (write tmp [] w.temps)
        ≡ ran
      → w.broken ≡ false
      → Outcome
          (λ _ w'. (Ends env tmp strip clip small ran) w w' × (read tmp w'.temps ≡ none))
          (λ e w'. (Ends env tmp strip clip small ran) w w' × (read tmp w'.temps ≡ none))
          (process_found env tmp strip clip.id clip w)
  unfolding process_found open_temp
  process_found-Ends w src stored told intact =
      let opened : World F = record w { temps = write tmp [] w.temps } in
      let P : World F → Type 0 =
        λ w'. (Ends env tmp strip clip small ran) w w' × (read tmp w'.temps ≡ none) in
      rw (path_of_lem env clip.original_key src w stored) (
        Outcome-finally (λ _ w'. P w') (λ _ w'. P w') (transcode env tmp strip clip.id clip src)
          (unlink_temp tmp) opened
          (Outcome-mono (λ _ w'. (Ends env tmp strip clip small ran) opened w') _
            (λ _ w'. (Ends env tmp strip clip small ran) opened w') _
            (transcode env tmp strip clip.id clip src opened)
            (λ _ w' h. (
              (Ends-unlink env tmp strip clip small ran) tmp w w' h,
              unfold unlink_temp in read-unlink_self tmp w'.temps,
            ))
            (λ _ w' h. (
              (Ends-unlink env tmp strip clip small ran) tmp w w' h,
              unfold unlink_temp in read-unlink_self tmp w'.temps,
            ))
            (transcode-Ends src opened told intact)))

  -- What the task leaves in the committed tables and the storage when it has committed.
  pub data Settled (w : World F) : Type 0 where
    is_ready :
        (c : Clip F) (bytes : Bytes)
        → find (λ (r : Clip F). r.id) clip.id w.committed.clips ≡ some c
        → c.status ≡ ready
        → c.normalized_key ≡ some (build_normalized_key clip.id)
        → read (video_path env tmp strip clip small ran) w.files ≡ some bytes
        → ran ≡ ok bytes
        → Settled w
    is_failed :
        find (λ (r : Clip F). r.id) clip.id w.committed.clips ≡ some (failed_row clip) → Settled w

  Processed-Settled :
      (w : World F)
      → (Processed env tmp strip clip small ran) w
      → w.broken ≡ false
      → Settled (record w { committed = w.working })
  Processed-Settled w (processed_ready k b r v m i) h =
      is_ready (record (done env tmp strip clip small ran) { filmstrip_key = k }) b r refl refl v m
  Processed-Settled w (processed_failed r i) h = is_failed r
  Processed-Settled w (processed_broken i) h = absurd (false≢true (sym h ∙ i))

  -- Processing a stored clip either commits it as ready, with the bytes that ffmpeg has made of the upload in the storage
  -- under the key that the row names, or as failed with a message; or else it raises, and then the committed tables are
  -- as they were. In every case the temporary video is removed. `ran` is what ffmpeg returns for that upload.
  pub run_normalization-Outcome :
      (w : World F) (src : FilePath)
      → find (λ (r : Clip F). r.id) clip.id w.committed.clips ≡ some clip
      → resolve env.base clip.original_key ≡ ok src
      → env.run_ffmpeg
          (build_normalize_command (path_text src) (path_text tmp))
          w.files
          (write tmp [] w.temps)
        ≡ ran
      → Outcome
          (λ _ w'. Settled w' × (read tmp w'.temps ≡ none))
          (λ e w'. (w'.committed ≡ w.committed) × (read tmp w'.temps ≡ none))
          (run_normalization env tmp strip clip.id w)
  unfolding run_normalization process_clip
  run_normalization-Outcome w src there stored told =
      let opened : World F = record w { working = w.committed; broken = false } in
      let P : World F → Type 0 =
        λ w'. (Ends env tmp strip clip small ran) opened w' × (read tmp w'.temps ≡ none) in
      request-Outcome env _ _ (process_clip env tmp strip clip.id) w (
        rw there (
          Outcome-mono (λ _ w'. P w') _ (λ _ w'. P w') _
            (process_found env tmp strip clip.id clip opened)
            (λ _ w' h. (λ intact. (Processed-Settled w' h.0.1 intact, h.1), (h.0.0, h.1)))
            (λ _ w' h. (h.0.0, h.1)) (process_found-Ends opened src stored told refl)))
