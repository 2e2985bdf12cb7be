-- ===== src/Compilations/Rendering/Output.antt =====
-- What the process of a render leaves: its temporary file, where it has exited with 0.
use video_journal_be.Prelude.{
  arith, ℕ, ℤ, ◌≡◌, refl, ◌∙◌, Bool, Option, none, some, List, [], ◌∷◌, inl, inr, Option-cases,
}
use video_journal_be.Errors.{Result-cases, Text, Bytes, Result, ok}
use video_journal_be.Storage.{FilePath, Files}
use video_journal_be.Ffmpeg.{exited, out_times, ending_of}
use video_journal_be.Media.{ClipSpec, build_compile_command, path_text, fade_start_of}
use video_journal_be.Session.{World, Env, lift}
use video_journal_be.Session.Laws.{Outcome, Outcome-bind, Outcome-mono}
use video_journal_be.Compilations.Rendering.{
  Process, write, on_progress, report, compile_video, on_registry, written, percentage,
}

module _ {F : Type 0} (env : Env F) (dst : FilePath) where
  written_lem : (o : Option Bytes) (w : World F) → (written env dst o w).committed ≡ w.committed
  unfolding written
  written_lem none w = refl
  written_lem (some bytes) w = refl

  -- The temporary files that a process leaves.
  abbrev pub left_in : Option Bytes → Files → Files
  left_in none temps = temps
  left_in (some bytes) temps = write dst bytes temps

  written_temps : (o : Option Bytes) (w : World F) → (written env dst o w).temps ≡ left_in o w.temps
  unfolding written
  written_temps none w = refl
  written_temps (some bytes) w = refl

  -- A step that returns has left the tables and the temporary files alone.
  abbrev Reported : World F → Result (Unit {0}) × World F → Type 0
  Reported w =
      Outcome (λ _ w'. (w'.committed ≡ w.committed) × (w'.temps ≡ w.temps))
        (λ _ w'. w'.committed ≡ w.committed)

  on_progress-Reported :
      (compilation_id : ℕ) (total_us : F) (t : ℤ) (w : World F)
      → Reported w (on_progress env dst compilation_id total_us t w)
  unfolding on_progress on_registry
  on_progress-Reported compilation_id total_us t w =
      elim (Option-cases (percentage env dst total_us t)) [
        | inl none_told ↦ rw none_told refl
        | inr (pct, told) ↦ rw told (refl, refl)
      ]

  report-Reported :
      (compilation_id : ℕ) (total_us : F) (ts : List ℤ) (w : World F)
      → Reported w (report env dst compilation_id total_us ts w)
  unfolding report
  report-Reported compilation_id total_us [] w = (refl, refl)
  report-Reported compilation_id total_us (t ∷ ts) w =
      Outcome-bind _ _ (on_progress env dst compilation_id total_us t) _ w (
        Outcome-mono (λ _ w'. (w'.committed ≡ w.committed) × (w'.temps ≡ w.temps)) _
          (λ _ w'. w'.committed ≡ w.committed) _ (on_progress env dst compilation_id total_us t w)
          (λ _ w1 h.
            Outcome-mono (λ _ w'. (w'.committed ≡ w1.committed) × (w'.temps ≡ w1.temps)) _
              (λ _ w'. w'.committed ≡ w1.committed) _ (report env dst compilation_id total_us ts w1)
              (λ _ w2 k. (k.0 ∙ h.0, k.1 ∙ h.1)) (λ _ w2 k. k ∙ h.0)
              (report-Reported compilation_id total_us ts w1))
          (λ _ w1 h. h) (on_progress-Reported compilation_id total_us t w))

  ending_of-ok : (p : Process) → ending_of p ≡ ok tt → p.exit ≡ exited 0
  unfolding ending_of
  ending_of-ok p h = ground arith

  module _ (mix : Bool) (volume : F) where
    -- The process that renders some specs over a soundtrack, run in a world.
    abbrev pub rendering : List (ClipSpec F) → Text → F → World F → Process
    rendering specs soundtrack_path total w =
        env.run_process
          (build_compile_command env.ops.floats specs soundtrack_path (path_text dst)
            (fade_start_of env.ops.floats total) mix volume)
          w.files w.temps

    -- Rendering returns only where the process has exited with 0, and has left what the process wrote.
    pub compile_video-Outcome :
        (compilation_id : ℕ) (total_us : F) (specs : List (ClipSpec F)) (soundtrack_path : Text)
        (total : F) (w : World F)
        → let p = rendering specs soundtrack_path total w in
          Outcome
            (λ _ w'.
              (w'.committed ≡ w.committed)
              × (p.exit ≡ exited 0)
              × (w'.temps ≡ left_in p.output w.temps))
            (λ _ w'. w'.committed ≡ w.committed)
            (compile_video env dst compilation_id total_us specs soundtrack_path total mix volume w)
    unfolding compile_video
    compile_video-Outcome compilation_id total_us specs soundtrack_path total w =
        let p : Process = rendering specs soundtrack_path total w in
        let start : World F = written env dst p.output w in
        Outcome-bind _ _ (report env dst compilation_id total_us (out_times p.stdout)) _ start (
          Outcome-mono (λ _ w'. (w'.committed ≡ start.committed) × (w'.temps ≡ start.temps)) _
            (λ _ w'. w'.committed ≡ start.committed) _
            (report env dst compilation_id total_us (out_times p.stdout) start)
            (λ _ w1 h. ended p w1 (h.0 ∙ written_lem p.output w) (h.1 ∙ written_temps p.output w))
            (λ _ w1 h. h ∙ written_lem p.output w)
            (report-Reported compilation_id total_us (out_times p.stdout) start))
      where
        ended :
            (p : Process) (w1 : World F) {temps : Files}
            → w1.committed ≡ w.committed
            → w1.temps ≡ temps
            → Outcome
                (λ _ w'. (w'.committed ≡ w.committed) × (p.exit ≡ exited 0) × (w'.temps ≡ temps))
                (λ _ w'. w'.committed ≡ w.committed)
                (lift (ending_of p) w1)
        ended p w1 c t = elim (Result-cases (ending_of p)) [
          | inl (_, fine) ↦ rw fine (c, ending_of-ok p fine, t)
          | inr (e, bad) ↦ rw bad c
        ]
