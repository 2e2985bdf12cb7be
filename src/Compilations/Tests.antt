-- ===== src/Compilations/Tests.antt =====
-- The theorems on compilations and their progress at a small world.
use video_journal_be.Prelude.{
  ℕ, suc, ◌≡◌, refl, ◌<◌, ◌^◌, pos, false, none, some, List, [], ◌∷◌, ◌++◌, map, length, arith,
}
use video_journal_be.Errors.{err, unexpected, conflict}
use video_journal_be.Text.{codes}
use video_journal_be.Models.{Compilation, CompilationClip}
use video_journal_be.Models
use video_journal_be.Storage.{FilePath, read}
use video_journal_be.Naming.{build_output_key}
use video_journal_be.Naming.Keys.{output, place, resolve-asset}
use video_journal_be.Session.{World}
use video_journal_be.Session.Rows.{find}
use video_journal_be.Session.Laws.{Outcome}
use video_journal_be.Progress.{
  ProgressUpdate, complete, get, items, get_terminal, is_terminal, finalize, connect, disconnect,
  update, ended, waiting,
}
use video_journal_be.Progress.Delivery.{owed, bound_for}
use video_journal_be.Progress.Clients.{
  Event, pushing, turning, reading, run, joined, pushed, tick_frame, frames_in_order,
}
use video_journal_be.Progress.Settling.{settling}
use video_journal_be.Progress.Ending.{stream_completes, disconnect_ends_no_other}
use video_journal_be.Compilations.Service.{CompilationCreate, remove_compilation}
use video_journal_be.Compilations.Service.Deleting.{
  without, committed_row, remove_running, remove_compilation-Outcome,
}
use video_journal_be.Compilations.Rendering.{run_render}
use video_journal_be.Compilations.Rendering.Ending.{HasEnded, IsStuck, run_render-Outcome}
use video_journal_be.Samples.{tools, journal, stored, compilation_three, media_root, no_renders}

abbrev render_file : FilePath
render_file = codes "tmp" ∷ codes "a.mp4" ∷ []

three_is_small : compilation_three.id < 2 ^ 128
three_is_small = omega arith

three-found :
    find (λ (c : Compilation ℕ). c.id) 3 journal.committed.compilations ≡ some compilation_three
unfolding find
three-found = refl

no_render_file : read render_file journal.temps ≡ none
unfolding read
no_render_file = refl

run_render-Outcome_example :
    Outcome
      (λ _ w'. HasEnded tools render_file 8 compilation_three three_is_small w')
      (λ _ w'. IsStuck tools render_file 8 compilation_three three_is_small w')
      (run_render tools render_file 8 3 journal)
run_render-Outcome_example =
    run_render-Outcome tools render_file 8 compilation_three three_is_small journal three-found
      no_render_file

abbrev order_of_two : CompilationCreate ℕ
order_of_two = record { soundtrack_id = 2; mix_clip_audio = false; clip_audio_volume = 0 }

-- The compilation while it is rendered, and when it is complete.
abbrev three_running : Compilation ℕ
three_running = record compilation_three { status = Models.running }

abbrev three_complete : Compilation ℕ
three_complete = record compilation_three {
  status = Models.complete;
  output_key = some (build_output_key 3);
}

abbrev journal_with : Compilation ℕ → World ℕ
journal_with c = record journal { committed = record stored { compilations = c ∷ [] } }

running-found : committed_row tools 3 (journal_with three_running) ≡ some three_running
unfolding find
running-found = refl

complete-found : committed_row tools 3 (journal_with three_complete) ≡ some three_complete
unfolding find
complete-found = refl

remove_running_example :
    let w = journal_with three_running in
    remove_compilation tools 3 w
    ≡ (err conflict, record w { working = w.committed; broken = false })
remove_running_example =
    remove_running tools 3 (journal_with three_running) three_running running-found refl

remove_compilation-Outcome_example :
    let w = journal_with three_complete in
    Outcome
      (λ _ w'.
        (w'.committed ≡ without tools 3 w.committed)
        × (read (media_root ++ place (output 3)) w'.files ≡ none))
      (λ e w'.
        (w'.committed ≡ w.committed)
        × (e ≡ unexpected)
        × (read (media_root ++ place (output 3)) w'.files ≡ none))
      (remove_compilation tools 3 w)
remove_compilation-Outcome_example =
    remove_compilation-Outcome tools (journal_with three_complete) three_complete
      (build_output_key 3) (media_root ++ place (output 3)) complete-found refl refl
      (resolve-asset media_root (output 3) (omega arith))

abbrev two_ticks : List Event
two_ticks = pushing (pos 10) ∷ turning ∷ reading ∷ pushing (pos 60) ∷ []

abbrev done : ProgressUpdate
done = record { progress = pos 100; status = complete; video_url = none; error = none }

frames_in_order_example :
    let s = run 3 two_ticks (joined 3 no_renders) in
    s.frames ++ map update (owed 0 s.registry) ≡ map tick_frame (pushed two_ticks)
unfolding get_terminal get bound_for
frames_in_order_example = frames_in_order 3 no_renders two_ticks refl refl

stream_completes_example :
    let s = run 3 two_ticks (joined 3 no_renders) in
    let r' = finalize 3 done s.registry in
    let t =
      run 3
        (settling (length r'.scheduled) (suc (length (pushed two_ticks))))
        (record s { registry = r' }) in
    (t.frames ≡ map tick_frame (pushed two_ticks) ++ update done ∷ [])
    × (t.client ≡ ended)
    × (connect 3 r' ≡ (update done ∷ [], ended))
unfolding get_terminal get bound_for is_terminal
stream_completes_example = stream_completes 3 no_renders two_ticks done refl refl refl

disconnect_ends_no_other_example :
    let r = (run 3 two_ticks (joined 3 no_renders)).registry in
    let r' = finalize 3 done (disconnect 3 (waiting 0) r).1 in
    (r'.scheduled ≡ r.scheduled) × (items 0 r' ≡ items 0 r)
disconnect_ends_no_other_example =
    disconnect_ends_no_other 3 0 done (run 3 two_ticks (joined 3 no_renders)).registry
