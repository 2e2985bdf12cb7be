-- ===== src/Compilations/Rendering/Publishing.antt =====
-- The body of a render: it publishes its output, or an error is raised and nothing is committed.
use mathlib.Core.List.{flatten}
use video_journal_be.Prelude.{
  pos, none, Option-cases, sym, subst, [], ◌∷◌, ℕ, ◌≡◌, refl, ap, ◌∙◌, ◌<◌, ◌^◌, ◌==◌, true, Option,
  some, List, ◌++◌, map, if◌then◌else◌, inl, inr, ==_refl,
}
use video_journal_be.Errors.{Text, Bytes, Result, ok, err, Result-cases}
use video_journal_be.Models.{Compilation, Tables}
use video_journal_be.Models
use video_journal_be.Storage.{FilePath, Stream, read, write}
use video_journal_be.Storage.Files.{read-write_self, flatten-one}
use video_journal_be.Naming.{build_output_key}
use video_journal_be.Naming.Keys.{output, place, resolve-asset}
use video_journal_be.Text.{codes}
use video_journal_be.Uuid.{uuid_text}
use video_journal_be.Ffmpeg.{exited}
use video_journal_be.Progress
use video_journal_be.Media.{ClipSpec}
use video_journal_be.Progress.{get_terminal, finalize}
use video_journal_be.Progress.Ending.{get_terminal-finalize}
use video_journal_be.Session.{
  World, Env, ◌>>=◌, continue, put_compilation, apply, flush, commit, save_file, file_stream,
}
use video_journal_be.Session.Rows.{find, upsert, find-upsert}
use video_journal_be.Session.Laws.{
  Outcome, Outcome-bind, Outcome-mono, flush_lem, commit_lem, save_file_lem,
}
use video_journal_be.Compilations.Rendering.{
  on_registry, success, build_clip_specs, resolve_soundtrack_path, compile_video, probe_duration,
  completed, render, floats,
}
use video_journal_be.Compilations.Rendering.Output.{rendering, left_in, compile_video-Outcome}
use video_journal_be.Compilations.Rendering.Keeping.{
  KeepsCommitted-then, build_clip_specs-KeepsCommitted, resolve_soundtrack_path-KeepsCommitted,
  probe_duration_world,
}

abbrev pub committed_row : {F : Type 0} → ℕ → World F → Option (Compilation F)
committed_row {F} k w = find (λ (c : Compilation F). c.id) k w.committed.compilations

abbrev pub as_running : {F : Type 0} → Compilation F → Compilation F
as_running c = record c { status = Models.running }

module _ {F : Type 0} (env : Env F) (dst : FilePath) (now : ℕ) (c : Compilation F)
    (small : c.id < 2 ^ 128) where
  abbrev pub output_at : FilePath
  output_at = env.base ++ place (output c.id)

  -- What a process that exited with 0 has left in the temporary file: what it wrote, and what was there where it wrote
  -- nothing. It was run on the command for some specs and a soundtrack, with the mix and the volume of the row.
  abbrev pub IsRendered : Bytes → Type 0
  IsRendered bytes =
      (specs : List (ClipSpec F)) × (soundtrack_path : Text) × (total : F) × (v : World F)
      × ((rendering env dst c.mix_clip_audio c.clip_audio_volume specs soundtrack_path total v).exit
          ≡ exited 0)
      × (read dst (
            left_in env dst
              (rendering env dst c.mix_clip_audio c.clip_audio_volume specs soundtrack_path total
                v).output
              v.temps)
          ≡ some bytes)

  abbrev pub HasOutput : World F → Type 0
  HasOutput w = (bytes : Bytes) × (read output_at w.files ≡ some bytes) × IsRendered bytes

  -- The row is complete, with the key and the time, its output is in the storage, and the stream ends with success and
  -- the address of the video.
  abbrev pub IsPublished : World F → Type 0
  IsPublished w =
      ((d : Option F) × (committed_row c.id w
          ≡ some (record c {
            status = Models.complete;
            output_key = some (build_output_key c.id);
            duration_s = d;
            completed_at = some now;
          })))
      × HasOutput w
      × (get_terminal c.id w.progress
          ≡ some (record {
            progress = pos 100;
            status = Progress.complete;
            video_url = some (codes "/api/v1/compilations/" ++ (uuid_text c.id ++ codes "/video"));
            error = none;
          }))

  -- The row is failed with the message that the stream ends with.
  abbrev pub IsFailed : World F → Type 0
  IsFailed w =
      (m : Text) × (committed_row c.id w
        ≡ some (record c { status = Models.failed; error = some m; completed_at = some now }))
      × (get_terminal c.id w.progress
          ≡ some (record {
            progress = pos 0;
            status = Progress.failed;
            video_url = none;
            error = some m;
          }))

  -- The row that an upsert has written is the one that is found.
  pub find_written :
      (r : Compilation F) (rows : List (Compilation F))
      → r.id ≡ c.id
      → find (λ (x : Compilation F). x.id) c.id (upsert (λ (x : Compilation F). x.id) r rows)
        ≡ some r
  find_written r rows e =
      find-upsert (λ (x : Compilation F). x.id) c.id r rows
      ∙ (let same : (r.id == c.id) ≡ true = rw e (==_refl c.id) in
          ap (λ b. if b then some r else find (λ (x : Compilation F). x.id) c.id rows) same)

  commit-Outcome :
      (d : Option F) (t : Tables F) (w : World F)
      → w.committed ≡ t
      → HasOutput w
      → Outcome
          (λ _ w'. IsPublished w')
          (λ _ w'. w'.committed ≡ t)
          ((flush env (put_compilation (completed env dst now c (build_output_key c.id) d)) >>= λ _.
              commit env >>= λ _. on_registry (finalize c.id (success c.id)))
            w)
  unfolding on_registry apply completed success
  commit-Outcome d t w start stored =
      let r : Compilation F = completed env dst now c (build_output_key c.id) d in
      let w1 : World F = record w { working = apply (put_compilation r) w.working } in
      elim (flush_lem env (put_compilation r) w) [
        | inl written ↦ rw written (elim (commit_lem env w1) [
          | inl (intact, granted) ↦ rw granted (
            (d, find_written r w.working.compilations refl),
            stored,
            get_terminal-finalize c.id (success c.id) w.progress,
          )
          | inr refused ↦ rw refused start
        ])
        | inr refused ↦ rw refused start
      ]

  save-Outcome :
      (stream : Stream) (t : Tables F) (w : World F)
      → w.committed ≡ t
      → IsRendered (flatten stream.chunks)
      → Outcome
          (λ _ w'. IsPublished w')
          (λ _ w'. w'.committed ≡ t)
          ((save_file env stream (build_output_key c.id) >>= λ _.
              probe_duration env dst c.duration_s >>= λ d.
              flush env (put_compilation (completed env dst now c (build_output_key c.id) d))
              >>= λ _. commit env >>= λ _. on_registry (finalize c.id (success c.id)))
            w)
  save-Outcome stream t w start rendered = elim (Result-cases stream.ending) [
    | inl (_, whole) ↦
        rw
          (
            save_file_lem env stream (build_output_key c.id) output_at w
                (resolve-asset env.base (output c.id) small),
            whole,
          )
          (probed-Outcome (record w { files = write output_at (flatten stream.chunks) w.files })
            start
            (
              flatten stream.chunks,
              read-write_self output_at (flatten stream.chunks) w.files,
              rendered,
            ))
    | inr (e, cut) ↦
        rw
          (
            save_file_lem env stream (build_output_key c.id) output_at w
                (resolve-asset env.base (output c.id) small),
            cut,
          )
          start
  ]
    where
      probed-Outcome :
          (w1 : World F)
          → w1.committed ≡ t
          → HasOutput w1
          → Outcome
              (λ _ w'. IsPublished w')
              (λ _ w'. w'.committed ≡ t)
              ((probe_duration env dst c.duration_s >>= λ d.
                  flush env (put_compilation (completed env dst now c (build_output_key c.id) d))
                  >>= λ _. commit env >>= λ _. on_registry (finalize c.id (success c.id)))
                w1)
      probed-Outcome w1 start1 stored =
          go (probe_duration env dst c.duration_s w1) (probe_duration_world env dst c.duration_s w1)
        where
          go :
              (r : Result (Option F) × World F)
              → r.1 ≡ w1
              → Outcome
                  (λ _ w'. IsPublished w')
                  (λ _ w'. w'.committed ≡ t)
                  (continue
                    (λ d.
                      flush env
                        (put_compilation (completed env dst now c (build_output_key c.id) d))
                      >>= λ _. commit env >>= λ _. on_registry (finalize c.id (success c.id)))
                    r)
          go (ok d, w2) same = rw same (commit-Outcome d t w1 start1 stored)
          go (err e, w2) same = rw same start1

  -- The content of the temporary file is what is published.
  streamed-Outcome :
      (t : Tables F) (w : World F)
      → w.committed ≡ t
      → ((b : Bytes) → read dst w.temps ≡ some b → IsRendered b)
      → Outcome
          (λ _ w'. IsPublished w')
          (λ _ w'. w'.committed ≡ t)
          ((file_stream dst >>= λ stream. save_file env stream (build_output_key c.id) >>= λ _.
              probe_duration env dst c.duration_s >>= λ d.
              flush env (put_compilation (completed env dst now c (build_output_key c.id) d))
              >>= λ _. commit env >>= λ _. on_registry (finalize c.id (success c.id)))
            w)
  unfolding file_stream
  streamed-Outcome t w start rendered = elim (Option-cases (read dst w.temps)) [
    | inl gone ↦ rw gone start
    | inr (b, there) ↦ rw there (
        save-Outcome (record { chunks = b ∷ []; ending = ok tt }) t w start
          (subst IsRendered (sym (flatten-one b)) (rendered b there)))
  ]

  -- The render proper: it is published, or an error is raised and nothing has been committed.
  pub render-Outcome :
      (w : World F)
      → Outcome
          (λ _ w'. IsPublished w')
          (λ _ w'. w'.committed ≡ w.committed)
          (render env dst now c w)
  unfolding render
  render-Outcome w =
      KeepsCommitted-then _ w.committed (build_clip_specs env dst c.id) _ w
        (build_clip_specs-KeepsCommitted env dst c.id) refl
        (λ specs w1 e1.
          KeepsCommitted-then _ w.committed (resolve_soundtrack_path env dst c) _ w1
            (resolve_soundtrack_path-KeepsCommitted env dst c) e1
            (λ path w2 e2.
              let total =
                (floats env dst).sum
                  (map (λ (s : ClipSpec F). (floats env dst).sub s.trim_out_s s.trim_in_s) specs) in
              let total_us = (floats env dst).mul total ((floats env dst).of_ℕ 1000000) in
              let process =
                rendering env dst c.mix_clip_audio c.clip_audio_volume specs path total w2 in
              Outcome-bind _ _
                (compile_video env dst c.id total_us specs path total c.mix_clip_audio
                  c.clip_audio_volume)
                _ w2
                (Outcome-mono
                  (λ _ w3.
                    (w3.committed ≡ w2.committed)
                    × (process.exit ≡ exited 0)
                    × (w3.temps ≡ left_in env dst process.output w2.temps))
                  _ (λ _ w3. w3.committed ≡ w2.committed) _
                  (compile_video env dst c.id total_us specs path total c.mix_clip_audio
                    c.clip_audio_volume w2)
                  (λ _ w3 h. streamed-Outcome w.committed w3 (h.0 ∙ e2) (λ b there.
                    (specs, path, total, w2, h.1, ap (λ temps. read dst temps) (sym h.2) ∙ there)))
                  (λ _ w3 h. h ∙ e2)
                  (compile_video-Outcome env dst c.mix_clip_audio c.clip_audio_volume c.id total_us
                    specs path total w2))))
