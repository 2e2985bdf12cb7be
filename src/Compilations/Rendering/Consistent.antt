-- ===== src/Compilations/Rendering/Consistent.antt =====
-- The background task of a compilation leaves the tables consistent.
use video_journal_be.Prelude.{
  ℕ, ℤ, Bool, ◌≡◌, refl, inl, inr, Option, none, some, List, [], ◌∷◌, false,
}
use video_journal_be.Errors.{Text, Bytes, Error, Result, ok, err, not_found, unexpected}
use video_journal_be.Models
use video_journal_be.Models.{Clip, Compilation, CompilationClip}
use video_journal_be.Storage.{FilePath}
use video_journal_be.Naming.{build_output_key}
use video_journal_be.Ffmpeg.{out_times, ending_of}
use video_journal_be.Media.{ClipSpec, build_compile_command, path_text, fade_start_of}
use video_journal_be.Progress.{Registry}
use video_journal_be.Session.{World, Env, put_compilation}
use video_journal_be.Session.Laws.{Outcome}
use video_journal_be.Session.Rows.{find}
use video_journal_be.Session.Consistent.{IsConsistentCompilation, IsConsistentWorld, IsTable-find}
use video_journal_be.Session.Keeping.{
  Anything, KeepsConsistent, KeepsConsistent-bind, KeepsConsistent-commit,
  KeepsConsistent-file_stream, KeepsConsistent-flush, KeepsConsistent-gets, KeepsConsistent-if,
  KeepsConsistent-lift, KeepsConsistent-open_temp, KeepsConsistent-path_of, KeepsConsistent-pure,
  KeepsConsistent-raise, KeepsConsistent-require, KeepsConsistent-rollback, KeepsConsistent-same,
  KeepsConsistent-save_file, KeepsConsistent-then, KeepsConsistent-try, KeepsConsistent-unlink,
}
use video_journal_be.Compilations.Queries.{clips_of, sorted_clips}
use video_journal_be.Compilations.Service.{find_compilation, find_soundtrack}
use video_journal_be.Compilations.Rendering.{
  specs_of, usable, spec_of, build_clip_specs, resolve_soundtrack_path, on_progress, report,
  written, compile_video, probe_duration, on_registry, percentage, probed, is_probe_error,
  completed, render, mark_failed, render_failed, render_found, render_row, run_compilation, close,
  run_render, message_of,
}

module _ {F : Type 0} where
  on_registry-KeepsConsistent :
      (f : Registry → Registry) → KeepsConsistent {F = F} Anything (on_registry f)
  unfolding on_registry
  on_registry-KeepsConsistent f = KeepsConsistent-same (on_registry f) (λ w. (refl, refl))

module _ {F : Type 0} (env : Env F) (dst : FilePath) where
  specs_of-KeepsConsistent :
      (ccs : List (CompilationClip F)) → KeepsConsistent Anything (specs_of env dst ccs)
  unfolding specs_of
  specs_of-KeepsConsistent [] = KeepsConsistent-pure [] tt
  specs_of-KeepsConsistent (cc ∷ ccs) =
      KeepsConsistent-bind {P = Anything}
        (KeepsConsistent-gets (λ (w : World F). w.working.clips) (λ w c. tt))
        (λ clips _.
          KeepsConsistent-bind {P = Anything}
            (KeepsConsistent-require (usable env dst (find (λ (x : Clip F). x.id) cc.clip_id clips))
              not_found (λ _ _. tt))
            (λ found _. KeepsConsistent-bind (KeepsConsistent-path_of env found.1) (λ path _.
              KeepsConsistent-bind (specs_of-KeepsConsistent ccs)
                (λ rest _. KeepsConsistent-pure (spec_of env dst cc found.0 path ∷ rest) tt))))

  build_clip_specs-KeepsConsistent : (k : ℕ) → KeepsConsistent Anything (build_clip_specs env dst k)
  unfolding build_clip_specs
  build_clip_specs-KeepsConsistent k =
      KeepsConsistent-bind {P = Anything}
        (KeepsConsistent-gets (λ (w : World F). w.working.compilation_clips) (λ w c. tt))
        (λ rows _. specs_of-KeepsConsistent (sorted_clips (clips_of k rows)))

  resolve_soundtrack_path-KeepsConsistent :
      (c : Compilation F) → KeepsConsistent Anything (resolve_soundtrack_path env dst c)
  unfolding resolve_soundtrack_path
  resolve_soundtrack_path-KeepsConsistent c =
      KeepsConsistent-bind {P = Anything}
        (KeepsConsistent-require c.soundtrack_id not_found (λ _ _. tt))
        (λ soundtrack_id _.
          KeepsConsistent-bind {P = Anything}
            (KeepsConsistent-gets (λ (w : World F). find_soundtrack env soundtrack_id w)
              (λ w k. tt))
            (λ found _.
              KeepsConsistent-bind {P = Anything}
                (KeepsConsistent-require found not_found (λ _ _. tt))
                (λ soundtrack _.
                  KeepsConsistent-bind (KeepsConsistent-path_of env soundtrack.key)
                    (λ path _. KeepsConsistent-pure (path_text path) tt))))

  report-KeepsConsistent :
      (k : ℕ) (total_us : F) (ts : List ℤ) → KeepsConsistent Anything (report env dst k total_us ts)
  unfolding report on_progress
  report-KeepsConsistent k total_us [] = KeepsConsistent-pure tt tt
  report-KeepsConsistent k total_us (t ∷ ts) =
      KeepsConsistent-then
        (KeepsConsistent-bind {P = Anything}
          (KeepsConsistent-require (percentage env dst total_us t) unexpected (λ _ _. tt))
          (λ pct _. on_registry-KeepsConsistent _))
        (report-KeepsConsistent k total_us ts)

  written-IsConsistentWorld :
      (o : Option Bytes) (w : World F)
      → IsConsistentWorld w
      → IsConsistentWorld (written env dst o w)
  unfolding written
  written-IsConsistentWorld none w h = h
  written-IsConsistentWorld (some bytes) w h = h

  compile_video-KeepsConsistent :
      (k : ℕ) (total_us : F) (specs : List (ClipSpec F)) (soundtrack_path : Text) (total : F)
      (mix : Bool) (volume : F)
      → KeepsConsistent Anything
          (compile_video env dst k total_us specs soundtrack_path total mix volume)
  unfolding compile_video
  compile_video-KeepsConsistent k total_us specs soundtrack_path total mix volume = record {
    keeps = λ w c.
        let process =
          env.run_process
            (build_compile_command env.ops.floats specs soundtrack_path (path_text dst)
              (fade_start_of env.ops.floats total) mix volume)
            w.files w.temps in
        (KeepsConsistent-bind {P = Anything}
            (report-KeepsConsistent k total_us (out_times process.stdout))
            (λ _ _. KeepsConsistent-lift (ending_of process) (λ _ _. tt))).keeps
          (written env dst process.output w) (written-IsConsistentWorld process.output w c);
  }

  probe_duration-KeepsConsistent :
      (before : Option F) → KeepsConsistent Anything (probe_duration env dst before)
  unfolding probe_duration probed
  probe_duration-KeepsConsistent before =
      KeepsConsistent-try (KeepsConsistent-same _ (λ w. (refl, refl))) (λ e.
        KeepsConsistent-if (is_probe_error env dst e) (KeepsConsistent-pure before tt)
          (KeepsConsistent-raise e))

  completed-IsConsistentCompilation :
      (now : ℕ) (c : Compilation F) (duration : Option F)
      → IsConsistentCompilation c
      → IsConsistentCompilation (completed env dst now c (build_output_key c.id) duration)
  unfolding completed
  completed-IsConsistentCompilation now c duration h = record {
    bound = h.bound;
    output = inr refl;
    finished = inr (inr (inr refl));
  }

  render-KeepsConsistent :
      (now : ℕ) (c : Compilation F)
      → IsConsistentCompilation c
      → KeepsConsistent Anything (render env dst now c)
  unfolding render
  render-KeepsConsistent now c h =
      KeepsConsistent-bind (build_clip_specs-KeepsConsistent c.id) (λ specs _.
        KeepsConsistent-bind (resolve_soundtrack_path-KeepsConsistent c) (λ soundtrack_path _.
          KeepsConsistent-then
            (compile_video-KeepsConsistent c.id _ specs soundtrack_path _ c.mix_clip_audio
              c.clip_audio_volume)
            (KeepsConsistent-bind (KeepsConsistent-file_stream dst) (λ stream _.
              KeepsConsistent-then (KeepsConsistent-save_file env stream (build_output_key c.id)) (
                KeepsConsistent-bind (probe_duration-KeepsConsistent c.duration_s) (λ duration _.
                  KeepsConsistent-then
                    (KeepsConsistent-flush env (put_compilation _)
                      (completed-IsConsistentCompilation now c duration h))
                    (KeepsConsistent-then (KeepsConsistent-commit env)
                      (on_registry-KeepsConsistent _))))))))

  mark_failed-KeepsConsistent :
      (now : ℕ) (message : Text) (o : Option (Compilation F))
      → ((c : Compilation F) → o ≡ some c → IsConsistentCompilation c)
      → KeepsConsistent Anything (mark_failed env dst now message o)
  unfolding mark_failed
  mark_failed-KeepsConsistent now message none h = KeepsConsistent-pure tt tt
  mark_failed-KeepsConsistent now message (some c) h =
      let k : IsConsistentCompilation c = h c refl in
      KeepsConsistent-then
        (KeepsConsistent-flush env (put_compilation _)
          (record { bound = k.bound; output = k.output; finished = inr (inr (inl refl)) }))
        (KeepsConsistent-commit env)

  find_compilation-IsConsistent :
      (k : ℕ) (w : World F)
      → IsConsistentWorld w
      → (c : Compilation F) → find_compilation env k w ≡ some c
      → IsConsistentCompilation c
  unfolding find_compilation
  find_compilation-IsConsistent k w h c e =
      IsTable-find (λ (r : Compilation F). r.id) IsConsistentCompilation k w.working.compilations
        h.1.compilations e

  render_failed-KeepsConsistent :
      (now k : ℕ) (e : Error) → KeepsConsistent Anything (render_failed env dst now k e)
  unfolding render_failed
  render_failed-KeepsConsistent now k e = KeepsConsistent-then (on_registry-KeepsConsistent _) (
      KeepsConsistent-then (KeepsConsistent-rollback env) (
        KeepsConsistent-bind {P = λ o. (c : Compilation F) → o ≡ some c → IsConsistentCompilation c}
          (KeepsConsistent-gets (λ (w : World F). find_compilation env k w)
            (find_compilation-IsConsistent k))
          (λ found h. mark_failed-KeepsConsistent now (message_of e) found h)))

  render_found-KeepsConsistent :
      (now : ℕ) (c : Compilation F)
      → IsConsistentCompilation c
      → KeepsConsistent Anything (render_found env dst now c)
  unfolding render_found
  render_found-KeepsConsistent now c h =
      let started : IsConsistentCompilation (record c { status = Models.running }) = record {
        bound = h.bound;
        output = h.output;
        finished = inr (inl refl);
      } in
      KeepsConsistent-then (on_registry-KeepsConsistent _) (
        KeepsConsistent-then (KeepsConsistent-flush env (put_compilation _) started) (
          KeepsConsistent-then (KeepsConsistent-commit env) (
            KeepsConsistent-then (KeepsConsistent-open_temp dst) (
              KeepsConsistent-unlink dst (
                KeepsConsistent-try
                  (render-KeepsConsistent now (record c { status = Models.running }) started)
                  (render_failed-KeepsConsistent now c.id))))))

  render_row-KeepsConsistent :
      (now : ℕ) (o : Option (Compilation F))
      → ((c : Compilation F) → o ≡ some c → IsConsistentCompilation c)
      → KeepsConsistent Anything (render_row env dst now o)
  unfolding render_row
  render_row-KeepsConsistent now none h = KeepsConsistent-pure tt tt
  render_row-KeepsConsistent now (some c) h = render_found-KeepsConsistent now c (h c refl)

  close-Kept :
      (r : Result (Unit {0}) × World F)
      → Outcome (λ a w'. IsConsistentWorld w' × Anything a) (λ _ w'. IsConsistentWorld w') r
      → Outcome
          (λ a w'. IsConsistentWorld w' × Anything a)
          (λ _ w'. IsConsistentWorld w')
          (close env dst r)
  unfolding close
  close-Kept (ok a, w) h = ((h.0.0, h.0.0), tt)
  close-Kept (err e, w) h = (h.0, h.0)

  pub run_render-KeepsConsistent : (now k : ℕ) → KeepsConsistent Anything (run_render env dst now k)
  unfolding run_render run_compilation
  run_render-KeepsConsistent now k = record {
    keeps = λ w h.
        let opened : World F = record w { working = w.committed; broken = false } in
        close-Kept (render_row env dst now (find_compilation env k opened) opened) (
          (render_row-KeepsConsistent now (find_compilation env k opened)
              (find_compilation-IsConsistent k opened (h.0, h.0))).keeps
            opened (h.0, h.0));
  }
