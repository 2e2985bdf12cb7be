-- ===== src/Clips/Processing/Consistent.antt =====
-- The background task of a clip leaves the tables consistent.
use video_journal_be.Prelude.{ℕ, ◌≡◌, refl, inl, inr, Option, none, some, subst}
use video_journal_be.Errors.{Result, ok, err, unexpected}
use video_journal_be.Models
use video_journal_be.Models.{Clip}
use video_journal_be.Storage.{FilePath}
use video_journal_be.Naming.{build_normalized_key, build_filmstrip_key}
use video_journal_be.Media.{effective_duration, compute_frame_count}
use video_journal_be.Session.{World, Env, put_clip, flush}
use video_journal_be.Session.Laws.{Outcome}
use video_journal_be.Session.Rows.{find, find-id}
use video_journal_be.Session.Consistent.{IsConsistentClip, IsConsistentWorld, IsTable-find}
use video_journal_be.Session.Keeping.{
  Anything, KeepsConsistent, KeepsConsistent-bind, KeepsConsistent-file_stream,
  KeepsConsistent-flush, KeepsConsistent-look, KeepsConsistent-open_temp, KeepsConsistent-path_of,
  KeepsConsistent-pure, KeepsConsistent-request, KeepsConsistent-require,
  KeepsConsistent-run_ffmpeg_to, KeepsConsistent-save_file, KeepsConsistent-then,
  KeepsConsistent-try, KeepsConsistent-unlink,
}
use video_journal_be.Clips.Processing.{
  generate_filmstrip, store_filmstrip, generate_and_store_filmstrip, store_normalized, mark_failed,
  published, normalized, transcode, process_found, process_row, process_clip, run_normalization,
}

module _ {F : Type 0} (env : Env F) (tmp strip : FilePath) where
  generate_filmstrip-KeepsConsistent :
      (duration_s : Option F)
      → KeepsConsistent Anything (generate_filmstrip env tmp strip duration_s)
  unfolding generate_filmstrip
  generate_filmstrip-KeepsConsistent duration_s =
      KeepsConsistent-bind {P = Anything}
        (KeepsConsistent-require
          (compute_frame_count env.ops.floats (some (effective_duration env.ops.floats duration_s)))
          unexpected (λ _ _. tt))
        (λ frames _. KeepsConsistent-run_ffmpeg_to env strip _)

  store_filmstrip-KeepsConsistent :
      (clip : Clip F)
      → IsConsistentClip clip
      → KeepsConsistent Anything (store_filmstrip env tmp strip clip)
  unfolding store_filmstrip
  store_filmstrip-KeepsConsistent clip h =
      KeepsConsistent-then (generate_filmstrip-KeepsConsistent clip.duration_s) (
        KeepsConsistent-bind (KeepsConsistent-file_stream strip) (λ stream _.
          KeepsConsistent-then (KeepsConsistent-save_file env stream (build_filmstrip_key clip.id))
            (KeepsConsistent-flush env _ (record {
              bound = h.bound;
              original = h.original;
              normalized = h.normalized;
              filmstrip = inr refl;
              finished = h.finished;
            }))))

  generate_and_store_filmstrip-KeepsConsistent :
      (clip : Clip F)
      → IsConsistentClip clip
      → KeepsConsistent Anything (generate_and_store_filmstrip env tmp strip clip)
  unfolding generate_and_store_filmstrip
  generate_and_store_filmstrip-KeepsConsistent clip h =
      KeepsConsistent-then (KeepsConsistent-open_temp strip) (
        KeepsConsistent-unlink strip (
          KeepsConsistent-try (store_filmstrip-KeepsConsistent clip h)
            (λ e. KeepsConsistent-pure tt tt)))

  mark_failed-KeepsConsistent :
      (clip : Clip F)
      → IsConsistentClip clip
      → KeepsConsistent Anything (mark_failed env tmp strip clip)
  unfolding mark_failed
  mark_failed-KeepsConsistent clip h = KeepsConsistent-flush env _ (record {
    bound = h.bound;
    original = h.original;
    normalized = h.normalized;
    filmstrip = h.filmstrip;
    finished = inr (inl refl);
  })

  store_normalized-KeepsConsistent :
      (clip_id : ℕ) (src : FilePath)
      → KeepsConsistent Anything (store_normalized env tmp strip clip_id src)
  unfolding store_normalized
  store_normalized-KeepsConsistent clip_id src =
      KeepsConsistent-then (KeepsConsistent-run_ffmpeg_to env tmp _) (
        KeepsConsistent-bind (KeepsConsistent-file_stream tmp) (λ stream _.
          KeepsConsistent-then (KeepsConsistent-save_file env stream (build_normalized_key clip_id))
            (KeepsConsistent-pure tt tt)))

  abbrev Kept : Result (Unit {0}) × World F → Type 0
  Kept r = Outcome (λ a w'. IsConsistentWorld w' × Anything a) (λ _ w'. IsConsistentWorld w') r

  published-Kept :
      (clip : Clip F) (r : Result (Unit {0}) × World F)
      → IsConsistentClip clip
      → Kept r
      → Kept (published env tmp strip clip r)
  unfolding published
  published-Kept clip (ok a, w) h k =
      (generate_and_store_filmstrip-KeepsConsistent clip h).keeps w k.0
  published-Kept clip (err e, w) h k = (mark_failed-KeepsConsistent clip h).keeps w k

  ready-IsConsistentClip :
      (clip : Clip F)
      → IsConsistentClip clip
      → IsConsistentClip (record clip {
        normalized_key = some (build_normalized_key clip.id);
        status = Models.ready;
      })
  ready-IsConsistentClip clip h = record {
    bound = h.bound;
    original = h.original;
    normalized = inr refl;
    filmstrip = h.filmstrip;
    finished = inr (inr refl);
  }

  normalized-Kept :
      (clip : Clip F) (r : Result (Unit {0}) × World F)
      → IsConsistentClip clip
      → Kept r
      → Kept (normalized env tmp strip clip.id clip r)
  unfolding normalized
  normalized-Kept clip (ok a, w) h k =
      let done : IsConsistentClip (record clip {
        normalized_key = some (build_normalized_key clip.id);
        status = Models.ready;
      }) =
        ready-IsConsistentClip clip h in
      published-Kept _ (flush env (put_clip _) w) done
        ((KeepsConsistent-flush env (put_clip _) done).keeps w k.0)
  normalized-Kept clip (err e, w) h k = (mark_failed-KeepsConsistent clip h).keeps w k

  process_found-KeepsConsistent :
      (clip : Clip F)
      → IsConsistentClip clip
      → KeepsConsistent Anything (process_found env tmp strip clip.id clip)
  unfolding process_found transcode
  process_found-KeepsConsistent clip h =
      KeepsConsistent-bind (KeepsConsistent-path_of env clip.original_key) (λ src _.
        KeepsConsistent-then (KeepsConsistent-open_temp tmp) (
          KeepsConsistent-unlink tmp (record {
            keeps = λ w k.
                normalized-Kept clip (store_normalized env tmp strip clip.id src w) h
                  ((store_normalized-KeepsConsistent clip.id src).keeps w k);
          })))

  process_row-KeepsConsistent :
      (clip_id : ℕ) (o : Option (Clip F))
      → ((c : Clip F) → o ≡ some c → IsConsistentClip c × (c.id ≡ clip_id))
      → KeepsConsistent Anything (process_row env tmp strip clip_id o)
  unfolding process_row
  process_row-KeepsConsistent clip_id none h = KeepsConsistent-pure tt tt
  process_row-KeepsConsistent clip_id (some clip) h =
      let (consistent, same) = h clip refl in
      subst (λ i. KeepsConsistent Anything (process_found env tmp strip i clip)) same
        (process_found-KeepsConsistent clip consistent)

  pub run_normalization-KeepsConsistent :
      (clip_id : ℕ) → KeepsConsistent Anything (run_normalization env tmp strip clip_id)
  unfolding run_normalization process_clip
  run_normalization-KeepsConsistent clip_id =
      let id_of : Clip F → ℕ = λ c. c.id in
      KeepsConsistent-request env (
        KeepsConsistent-look (λ w k.
          process_row-KeepsConsistent clip_id (find id_of clip_id w.working.clips) (λ c e. (
            IsTable-find id_of IsConsistentClip clip_id w.working.clips k.1.clips e,
            find-id id_of clip_id w.working.clips c e,
          ))))
