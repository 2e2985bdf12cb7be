-- ===== src/Clips/Processing/Filmstrip.antt =====
-- The transcoded video is stored, and making its film strip keeps the row and the video.
use mathlib.Core.List.{flatten}
use video_journal_be.Prelude.{
  sym, List, ◌≡◌, ◌≢◌, refl, ap, ◌∙◌, true, false, Bool-cases, Option, some, Option-cases, [], ◌∷◌,
  ◌++◌, inl, inr, arith, ◌<◌, ◌^◌,
}
use video_journal_be.Errors.{Text, Bytes, Result, Result-cases, ok}
use video_journal_be.Models.{Clip, ready, failed, Tables}
use video_journal_be.Storage.{FilePath, Files, read, write, path_eq}
use video_journal_be.Storage.Files.{read-write, read-write_self, path_eq_iff, flatten-one}
use video_journal_be.Naming.{build_normalized_key, build_filmstrip_key}
use video_journal_be.Naming.Keys.{normalized, filmstrip, place, resolve-asset}
use video_journal_be.Uuid.Injective.{append-injective}
use video_journal_be.Media.{
  build_normalize_command, path_text, effective_duration, compute_frame_count,
}
use video_journal_be.Session.{
  World, Env, pure, ◌>>=◌, put_clip, apply, flush, save_file, open_temp, unlink_temp, file_stream,
  try_except,
}
use video_journal_be.Session.Rows.{find, find-upsert}
use video_journal_be.Session.Laws.{
  run_ffmpeg_to-ok, run_ffmpeg_to-err, Outcome, Outcome-bind, Outcome-try, Outcome-finally,
  Outcome-mono, Keeps, run_ffmpeg_to-Keeps, flush_lem, save_file_lem,
}
use video_journal_be.Clips.Processing.{
  generate_filmstrip, store_filmstrip, generate_and_store_filmstrip, store_normalized,
  normalization_failed,
}

module _ {F : Type 0} (env : Env F) (tmp strip : FilePath) where
  generate_filmstrip-Keeps :
      (d : Option F) (w : World F)
      → Outcome (λ _ w'. Keeps w w') (λ _ w'. Keeps w w') (generate_filmstrip env tmp strip d w)
  unfolding generate_filmstrip
  generate_filmstrip-Keeps d w =
      elim (Option-cases
        (compute_frame_count env.ops.floats (some (effective_duration env.ops.floats d)))) [
          | inl odd ↦ rw odd (refl, refl, refl, refl)
          | inr (n, counted) ↦ rw counted (run_ffmpeg_to-Keeps env strip _ w)
        ]

-- The database part of two worlds is the same.
abbrev pub SameDb : {F : Type 0} → World F → World F → Type 0
SameDb w w' = (w'.committed ≡ w.committed) × (w'.working ≡ w.working) × (w'.broken ≡ w.broken)

module _ {F : Type 0} (env : Env F) (tmp strip : FilePath) (clip : Clip F)
    (small : clip.id < 2 ^ 128) (ran : Result Bytes) where
  abbrev pub video_path : FilePath
  video_path = env.base ++ place (normalized clip.id)

  abbrev pub strip_path : FilePath
  strip_path = env.base ++ place (filmstrip clip.id)

  -- The arguments of ffmpeg for a source.
  abbrev pub normalization : FilePath → List Text
  normalization src = build_normalize_command (path_text src) (path_text tmp)

  -- What ffmpeg has returned, in `ran`, is in the storage.
  abbrev pub HasVideo : World F → Type 0
  HasVideo w = (bytes : Bytes) × (read video_path w.files ≡ some bytes) × (ran ≡ ok bytes)

  abbrev pub Stored : World F → World F → Type 0
  Stored w w' = SameDb w w' × HasVideo w'

  -- The result of normalisation is in the storage, or the step has raised; the database is untouched.
  pub store_normalized-Outcome :
      (src : FilePath) (w : World F)
      → env.run_ffmpeg (normalization src) w.files w.temps ≡ ran
      → Outcome
          (λ _ w'. Stored w w')
          (λ _ w'. SameDb w w')
          (store_normalized env tmp strip clip.id src w)
  unfolding store_normalized
  store_normalized-Outcome src w told =
      elim (Result-cases (env.run_ffmpeg (normalization src) w.files w.temps)) [
        | inr (e, raised) ↦
            rw (run_ffmpeg_to-err env tmp (normalization src) w raised) (refl, refl, refl)
        | inl (b, made) ↦
            let w1 : World F = record w { temps = write tmp b w.temps } in
            unfold file_stream in
            rw
              (
                run_ffmpeg_to-ok env tmp (normalization src) w made,
                read-write_self tmp b w.temps,
                save_file_lem env (record { chunks = b ∷ []; ending = ok tt })
                    (build_normalized_key clip.id) video_path w1
                    (resolve-asset env.base (normalized clip.id) small),
              )
              (
                (refl, refl, refl),
                (
                  flatten (b ∷ []),
                  read-write_self video_path (flatten (b ∷ [])) w.files,
                  sym told ∙ made ∙ ap ok (sym (flatten-one b)),
                ),
              )
      ]

  abbrev pub row : World F → Option (Clip F)
  row w = find (λ (c : Clip F). c.id) clip.id w.working.clips

  pub row_written :
      (c : Clip F) (w : World F)
      → c.id ≡ clip.id
      → row (record w { working = apply (put_clip c) w.working }) ≡ some c
  unfolding apply
  row_written c w e =
      rw (find-upsert (λ (r : Clip F). r.id) clip.id c w.working.clips) (ground arith)

  strip_apart : path_eq strip_path video_path ≡ false
  strip_apart = elim (Bool-cases (path_eq strip_path video_path)) [
    | inl e ↦ absurd (
        other_directory
          (append-injective env.base env.base refl ((path_eq_iff strip_path video_path).0 e)).1)
    | inr e ↦ e
  ]
    where
      other_directory : place (filmstrip clip.id) ≢ place (normalized clip.id)
      other_directory e = ground arith

  video_kept :
      (b : Bytes) (files : Files)
      → read video_path (write strip_path b files) ≡ read video_path files
  video_kept b files = rw (read-write strip_path video_path b files, strip_apart)

  abbrev pub done : Clip F
  done = record clip { normalized_key = some (build_normalized_key clip.id); status = ready }

  -- What the row, the storage and the session are like when the task has run.
  pub data Processed (w : World F) : Type 0 where
    processed_ready :
        (strip_key : Option Text) (bytes : Bytes)
        → row w
          ≡ some (record clip {
            normalized_key = some (build_normalized_key clip.id);
            filmstrip_key = strip_key;
            status = ready;
          })
        → read video_path w.files ≡ some bytes
        → ran ≡ ok bytes
        → w.broken ≡ false
        → Processed w
    processed_failed :
        row w ≡ some (record clip { status = failed; error_message = some normalization_failed })
        → w.broken ≡ false
        → Processed w
    processed_broken : w.broken ≡ true → Processed w

  abbrev pub Ends : World F → World F → Type 0
  Ends w w' = (w'.committed ≡ w.committed) × Processed w'

  -- Nothing that a client of the row or the video sees has changed.
  still_ready :
      (w w1 : World F) → row w ≡ some done → w.broken ≡ false → HasVideo w → Keeps w w1 → Ends w w1
  still_ready w w1 there intact video k = (
    k.0,
    processed_ready clip.filmstrip_key video.0
        (ap (λ (t : Tables F). find (λ (c : Clip F). c.id) clip.id t.clips) k.1 ∙ there)
        (ap (λ (f : Files). read video_path f) k.3 ∙ video.1) video.2 (k.2 ∙ intact),
  )

  abbrev pub with_strip : Clip F
  with_strip = record done { filmstrip_key = some (build_filmstrip_key clip.id) }

  -- The strip is stored and its key written, or the write breaks the session.
  strip_written :
      (w w2 : World F)
      → w2.committed ≡ w.committed
      → w2.broken ≡ false
      → HasVideo w2
      → Outcome (λ _ w'. Ends w w') (λ _ w'. Ends w w') (flush env (put_clip with_strip) w2)
  strip_written w w2 base intact video = elim (flush_lem env (put_clip with_strip) w2) [
    | inl done_it ↦ rw done_it (
      base,
      processed_ready (some (build_filmstrip_key clip.id)) video.0 (row_written with_strip w2 refl)
          video.1 video.2 intact,
    )
    | inr refused ↦ rw refused (base, processed_broken refl)
  ]

  strip_stored :
      (w w1 : World F)
      → row w ≡ some done
      → w.broken ≡ false
      → HasVideo w
      → Keeps w w1
      → Outcome
          (λ _ w'. Ends w w')
          (λ _ w'. Ends w w')
          ((do
            stream ← file_stream strip
            key ← save_file env stream (build_filmstrip_key clip.id)
            flush env (put_clip with_strip))
            w1)
  unfolding file_stream
  strip_stored w w1 there intact video k = elim (Option-cases (read strip w1.temps)) [
    | inl gone ↦ rw gone (still_ready w w1 there intact video k)
    | inr (b, found) ↦
        let bytes : Bytes = flatten (b ∷ []) in
        rw
          (
            found,
            save_file_lem env (record { chunks = b ∷ []; ending = ok tt })
                (build_filmstrip_key clip.id) strip_path w1
                (resolve-asset env.base (filmstrip clip.id) small),
          )
          (strip_written w (record w1 { files = write strip_path bytes w1.files }) k.0
            (k.2 ∙ intact)
            (
              video.0,
              video_kept bytes w1.files ∙ ap (λ (f : Files). read video_path f) k.3 ∙ video.1,
              video.2,
            ))
  ]

  store_filmstrip-Ends :
      (w : World F)
      → row w ≡ some done
      → w.broken ≡ false
      → HasVideo w
      → Outcome (λ _ w'. Ends w w') (λ _ w'. Ends w w') (store_filmstrip env tmp strip done w)
  unfolding store_filmstrip
  store_filmstrip-Ends w there intact video =
      Outcome-bind _ _ (generate_filmstrip env tmp strip done.duration_s) _ w (
        Outcome-mono (λ _ w'. Keeps w w') _ (λ _ w'. Keeps w w') _
          (generate_filmstrip env tmp strip done.duration_s w)
          (λ _ w1 k. strip_stored w w1 there intact video k)
          (λ e w1 k. still_ready w w1 there intact video k)
          (generate_filmstrip-Keeps env tmp strip done.duration_s w))

  Processed-unlink : (name : FilePath) (w : World F) → Processed w → Processed (unlink_temp name w)
  unfolding unlink_temp
  Processed-unlink name w (processed_ready k b r v m i) = processed_ready k b r v m i
  Processed-unlink name w (processed_failed r i) = processed_failed r i
  Processed-unlink name w (processed_broken i) = processed_broken i

  pub Ends-unlink : (name : FilePath) (w w' : World F) → Ends w w' → Ends w (unlink_temp name w')
  Ends-unlink name w w' h = (unfold unlink_temp in h.0, Processed-unlink name w' h.1)

  -- Making the film strip never raises.
  pub filmstrip-Ends :
      (w : World F)
      → row w ≡ some done
      → w.broken ≡ false
      → HasVideo w
      → Outcome (λ _ w'. Ends w w') (λ _ w'. ⊥) (generate_and_store_filmstrip env tmp strip done w)
  unfolding generate_and_store_filmstrip open_temp
  filmstrip-Ends w there intact video =
      let opened : World F = record w { temps = write strip [] w.temps } in
      Outcome-finally (λ _ w'. Ends w w') (λ _ w'. ⊥)
        (try_except (store_filmstrip env tmp strip done) (λ e. pure tt)) (unlink_temp strip) opened
        (Outcome-try (λ _ w'. Ends w (unlink_temp strip w')) (λ _ w'. ⊥)
          (store_filmstrip env tmp strip done) (λ e. pure tt) opened
          (Outcome-mono (λ _ w'. Ends opened w') _ (λ _ w'. Ends opened w') _
            (store_filmstrip env tmp strip done opened) (λ _ w' h. Ends-unlink strip w w' h)
            (λ _ w' h. Ends-unlink strip w w' h) (store_filmstrip-Ends opened there intact video)))
