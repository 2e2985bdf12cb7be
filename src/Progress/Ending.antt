-- ===== src/Progress/Ending.antt =====
-- The end of a render as the clients of its event stream see it.
use mathlib.Core.List.{map-append}
use video_journal_be.Prelude.{
  ℕ, suc, ◌≤◌, ℤ, ◌≡◌, refl, sym, ap, ap₂, ◌∙◌, true, Option, none, some, List, [], ◌∷◌, ◌++◌,
  append_assoc, arith, map, length, length-append,
}
use video_journal_be.Progress.{
  ProgressUpdate, Registry, get, set, pop, items, subscribe, get_terminal, schedule, connect,
  started, finalize, Frame, update, ended, waiting, is_terminal, unsubscribe, disconnect,
}
use video_journal_be.Progress.Delivery.{owed, bound_for, schedule-owed, get-set, get-pop}
use video_journal_be.Progress.Clients.{
  Event, turning, reading, Listening, run, joined, pushed, tick_frame, Following, run-Following,
  joined-Following,
}
use video_journal_be.Progress.Settling.{times, settling, run-append, reads-end, turns-settle}

-- A registry whose render has ended.
closed : ℕ → ProgressUpdate → Registry → Registry
unfolding set pop
closed c u r = record r { terminal = set c u r.terminal; channels = pop c r.channels }

finalize-schedule :
    (c q : ℕ) (u : ProgressUpdate) (r : Registry)
    → get c r.channels ≡ some q
    → finalize c u r ≡ schedule (some q) u (closed c u r)
unfolding finalize closed
finalize-schedule c q u r e = ap (λ o. schedule o u (closed c u r)) e

finalize-owed :
    (c q : ℕ) (u : ProgressUpdate) (r : Registry)
    → get c r.channels ≡ some q
    → owed q (finalize c u r) ≡ owed q r ++ u ∷ []
unfolding closed owed items
finalize-owed c q u r e =
    ap (owed q) (finalize-schedule c q u r e) ∙ schedule-owed q u (closed c u r)

length-map {ℓ κ} : {A : Type ℓ} {B : Type κ} (f : A → B) (l : List A) → length (map f l) ≡ length l
length-map f [] = refl
length-map f (x ∷ l) = ap suc (length-map f l)

-- A client is owed no more updates than have been pushed.
owed_bound :
    (c q : ℕ) (ns : List ℤ) (s : Listening)
    → Following c q ns s
    → length (owed q s.registry) ≤ length ns
owed_bound c q ns s f = omega (
  arith,
  ap (λ (l : List Frame). length l) f.accounted,
  length-append s.frames (map update (owed q s.registry)),
  length-map update (owed q s.registry),
  length-map tick_frame ns,
)

pub get_terminal-finalize :
    (c : ℕ) (u : ProgressUpdate) (r : Registry) → get_terminal c (finalize c u r) ≡ some u
unfolding get_terminal finalize schedule
get_terminal-finalize c u r = go (get c r.channels)
  where
    go :
        (o : Option ℕ)
        → get c
            (schedule o u
              (record r { terminal = set c u r.terminal; channels = pop c r.channels })).terminal
          ≡ some u
    go none = get-set c u r.terminal
    go (some q) = get-set c u r.terminal

connect-finalize :
    (c : ℕ) (u : ProgressUpdate) (r : Registry)
    → connect c (finalize c u r) ≡ (update u ∷ [], ended)
unfolding connect started
connect-finalize c u r =
    ap (λ o. started o (subscribe c (finalize c u r))) (get_terminal-finalize c u r)

-- When a render ends, a client that has listened since its start is sent every percentage pushed, in order, and
-- then the final update, whatever came before; its stream ends, and a client that connects from then on is sent
-- the final update alone. It is assumed that the callbacks scheduled are run and the client reads often enough,
-- that the render had no final state before, and that its queue's name is new.
pub stream_completes :
    (compilation_id : ℕ) (r : Registry) (events : List Event) (u : ProgressUpdate)
    → get_terminal compilation_id r ≡ none
    → bound_for r.next_queue r.scheduled ≡ []
    → is_terminal u.status ≡ true
    → let s = run compilation_id events (joined compilation_id r) in
      let r' = finalize compilation_id u s.registry in
      let t =
        run compilation_id
          (settling (length r'.scheduled) (suc (length (pushed events))))
          (record s { registry = r' }) in
      (t.frames ≡ map tick_frame (pushed events) ++ update u ∷ [])
      × (t.client ≡ ended)
      × (connect compilation_id r' ≡ (update u ∷ [], ended))
unfolding settling
stream_completes c r events u h k e =
    let s = run c events (joined c r) in
    let f = run-Following c r.next_queue [] events (joined c r) (joined-Following c r h k) in
    let r' = finalize c u s.registry in
    let s' : Listening = record s { registry = r' } in
    let n = length r'.scheduled in
    let m = suc (length (pushed events)) in
    let turned = turns-settle c r.next_queue n s' refl in
    let (sent, over) =
      reads-end c r.next_queue m (owed r.next_queue s.registry) u (run c (times n turning) s')
        (turned.same_client ∙ f.waits)
        (turned.given ∙ finalize-owed c r.next_queue u s.registry f.channel) f.passing e
        (omega (arith, owed_bound c r.next_queue (pushed events) s f)) in
    let split = run-append c (times n turning) (times m reading) s' in
    (
      ap (λ (t : Listening). t.frames) split
          ∙ sent
          ∙ ap₂ (λ fs l. fs ++ l) turned.same_frames
              (map-append update (owed r.next_queue s.registry) (u ∷ []))
          ∙ sym (append_assoc s.frames (map update (owed r.next_queue s.registry)) (update u ∷ []))
          ∙ ap (λ fs. fs ++ update u ∷ []) f.accounted,
      ap (λ (t : Listening). t.client) split ∙ over,
      connect-finalize c u s.registry,
    )

-- Where two clients wait for one render and one of them is found disconnected, the render's end schedules nothing:
-- the queue that the other client waits on gets no final update, so that its stream does not end.
pub disconnect_ends_no_other :
    (compilation_id q : ℕ) (u : ProgressUpdate) (r : Registry)
    → let r' = finalize compilation_id u (disconnect compilation_id (waiting q) r).1 in
      (r'.scheduled ≡ r.scheduled) × (items q r' ≡ items q r)
unfolding finalize disconnect unsubscribe items closed schedule
disconnect_ends_no_other c q u r =
    let nobody : finalize c u (unsubscribe c r) ≡ closed c u (unsubscribe c r) =
      ap (λ o. schedule o u (closed c u (unsubscribe c r))) (get-pop c r.channels) in
    (ap (λ (k : Registry). k.scheduled) nobody, ap (items q) nobody)
