-- ===== src/Progress/Clients.antt =====
-- A client of the event stream of a render: what it has been sent after the events of a run, in any interleaving.
use mathlib.Core.List.{map-append}
use video_journal_be.Prelude.{
  ℕ, ℤ, ◌≡◌, refl, sym, ap, ap₂, ◌∙◌, subst, false, none, some, List, [], ◌∷◌, ◌++◌, append_assoc,
  append-nil, if◌then◌else◌, map, All,
}
use video_journal_be.Text.Laws.{All-append}
use video_journal_be.Progress.{
  running, ProgressUpdate, Registry, get, set, items, register, subscribe, get_terminal, schedule,
  connect, started, push_from_thread, loop_step, Frame, update, Client, ended, waiting, receive,
  taken, is_terminal,
}
use video_journal_be.Progress.Delivery.{
  owed, bound_for, loop_step-owed, loop_step-channels, schedule-owed, items-set, get-set,
  owed-registered, owed-items,
}

-- What `_on_progress` pushes.
unfoldable pub tick : ℤ → ProgressUpdate
tick n = record { progress = n; status = running; video_url = none; error = none }

unfoldable pub tick_frame : ℤ → Frame
unfolding tick
tick_frame n = update (tick n)

-- The render thread pushes, the event loop takes a turn, or the client reads.
pub data Event : Type 0 where
  pushing : ℤ → Event
  turning reading : Event

pub record Listening : Type 0 where
  pub frames : List Frame
  pub client : Client
  pub registry : Registry

-- What a read adds.
unfoldable pub heard : List Frame → List Frame × Client × Registry → Listening
heard fs (gs, c, r) = record { frames = fs ++ gs; client = c; registry = r }

module _ (compilation_id : ℕ) where
  unfoldable pub step : Event → Listening → Listening
  unfolding push_from_thread tick loop_step heard receive
  step (pushing n) s = record s { registry = push_from_thread compilation_id (tick n) s.registry }
  step turning s = record s { registry = loop_step s.registry }
  step reading s = heard s.frames (receive s.client s.registry)

  unfoldable pub run : List Event → Listening → Listening
  unfolding step
  run [] s = s
  run (e ∷ es) s = run es (step e s)

  -- The render registers, and then the client connects.
  unfoldable pub joined : Registry → Listening
  unfolding heard connect register
  joined r =
      let r' = register compilation_id r in
      let (fs, c) = connect compilation_id r' in record { frames = fs; client = c; registry = r' }

-- The percentages pushed.
unfoldable pub pushed : List Event → List ℤ
pushed [] = []
pushed (pushing n ∷ es) = n ∷ pushed es
pushed (turning ∷ es) = pushed es
pushed (reading ∷ es) = pushed es

unfoldable pub Passing : ProgressUpdate → Type 0
Passing u = is_terminal u.status ≡ false

-- The client waits on the queue, has been sent or is owed what was pushed, and is owed nothing terminal.
pub record Following (compilation_id q : ℕ) (ns : List ℤ) (s : Listening) : Type 0 where
  pub channel : get compilation_id s.registry.channels ≡ some q
  pub waits : s.client ≡ waiting q
  pub accounted : s.frames ++ map update (owed q s.registry) ≡ map tick_frame ns
  pub passing : All Passing (owed q s.registry)

pushing-Following :
    (c q : ℕ) (ns : List ℤ) (n : ℤ) (s : Listening)
    → Following c q ns s
    → Following c q (ns ++ n ∷ []) (step c (pushing n) s)
unfolding step push_from_thread schedule tick_frame Passing tick is_terminal
pushing-Following c q ns n s f =
    let put : push_from_thread c (tick n) s.registry ≡ schedule (some q) (tick n) s.registry =
      ap (λ o. schedule o (tick n) s.registry) f.channel in
    let more : owed q (push_from_thread c (tick n) s.registry) ≡ owed q s.registry ++ tick n ∷ [] =
      ap (owed q) put ∙ schedule-owed q (tick n) s.registry in
    record {
      channel = ap (λ (r : Registry). get c r.channels) put ∙ f.channel;
      waits = f.waits;
      accounted =
          ap (λ k. s.frames ++ map update k) more
          ∙ ap (λ k. s.frames ++ k) (map-append update (owed q s.registry) (tick n ∷ []))
          ∙ sym (append_assoc s.frames (map update (owed q s.registry)) (tick_frame n ∷ []))
          ∙ ap (λ k. k ++ tick_frame n ∷ []) f.accounted
          ∙ sym (map-append tick_frame ns (n ∷ []));
      passing =
          subst (All Passing) (sym more)
            (All-append Passing (owed q s.registry) (tick n ∷ []) f.passing (refl, tt));
    }

turning-Following :
    (c q : ℕ) (ns : List ℤ) (s : Listening)
    → Following c q ns s
    → Following c q ns (step c turning s)
unfolding step
turning-Following c q ns s f = record {
  channel = ap (get c) (loop_step-channels s.registry) ∙ f.channel;
  waits = f.waits;
  accounted = ap (λ k. s.frames ++ map update k) (loop_step-owed q s.registry) ∙ f.accounted;
  passing = subst (All Passing) (sym (loop_step-owed q s.registry)) f.passing;
}

taken-Following :
    (c q : ℕ) (ns : List ℤ) (s : Listening) (us : List ProgressUpdate)
    → items q s.registry ≡ us
    → Following c q ns s
    → Following c q ns (heard s.frames (taken q us s.registry))
unfolding heard taken Passing
taken-Following c q ns s [] e f = record {
  channel = f.channel;
  waits = refl;
  accounted = ap (λ k. k ++ map update (owed q s.registry)) (append-nil s.frames) ∙ f.accounted;
  passing = f.passing;
}
taken-Following c q ns s (u ∷ us) e f =
    let later : List ProgressUpdate = bound_for q s.registry.scheduled in
    let before : owed q s.registry ≡ u ∷ us ++ later = owed-items q s.registry (u ∷ us) e in
    let after : owed q (record s.registry { queues = set q us s.registry.queues }) ≡ us ++ later =
      owed-items q (record s.registry { queues = set q us s.registry.queues }) us
        (items-set q s.registry us s.registry.scheduled) in
    let passes : All Passing (u ∷ us ++ later) = subst (All Passing) before f.passing in
    record {
      channel = f.channel;
      waits = ap (λ b. if b then ended else waiting q) passes.0;
      accounted =
          ap (λ k. (s.frames ++ update u ∷ []) ++ map update k) after
          ∙ append_assoc s.frames (update u ∷ []) (map update (us ++ later))
          ∙ ap (λ k. s.frames ++ map update k) (sym before)
          ∙ f.accounted;
      passing = subst (All Passing) (sym after) passes.1;
    }

pushed-cons : (e : Event) (es : List Event) → pushed (e ∷ es) ≡ pushed (e ∷ []) ++ pushed es
unfolding pushed
pushed-cons (pushing n) es = refl
pushed-cons turning es = refl
pushed-cons reading es = refl

step-Following :
    (c q : ℕ) (ns : List ℤ) (e : Event) (s : Listening)
    → Following c q ns s
    → Following c q (ns ++ pushed (e ∷ [])) (step c e s)
unfolding step receive pushed
step-Following c q ns (pushing n) s f = pushing-Following c q ns n s f
step-Following c q ns turning s f = rw (append-nil ns) (turning-Following c q ns s f)
step-Following c q ns reading s f =
    rw (append-nil ns, f.waits) (taken-Following c q ns s (items q s.registry) refl f)

pub run-Following :
    (c q : ℕ) (ns : List ℤ) (es : List Event) (s : Listening)
    → Following c q ns s
    → Following c q (ns ++ pushed es) (run c es s)
unfolding run pushed
run-Following c q ns [] s f = rw (append-nil ns) f
run-Following c q ns (e ∷ es) s f =
    subst (λ l. Following c q l (run c es (step c e s)))
      (append_assoc ns (pushed (e ∷ [])) (pushed es) ∙ ap (λ l. ns ++ l) (sym (pushed-cons e es)))
      (run-Following c q (ns ++ pushed (e ∷ [])) es (step c e s) (step-Following c q ns e s f))

pub joined-Following :
    (c : ℕ) (r : Registry)
    → get_terminal c r ≡ none
    → bound_for r.next_queue r.scheduled ≡ []
    → Following c r.next_queue [] (joined c r)
unfolding joined heard connect subscribe get_terminal register
joined-Following c r h k =
    let entry : get c (set c r.next_queue r.channels) ≡ some r.next_queue =
      get-set c r.next_queue r.channels in
    let start : connect c (register c r) ≡ ([], waiting r.next_queue) = ap₂ started h entry in
    let nothing : owed r.next_queue (register c r) ≡ [] = owed-registered c r ∙ k in
    record {
      channel = entry;
      waits = ap (λ t. t.1) start;
      accounted = ap₂ (λ t l. [] ++ t.0 ++ map update l) start nothing;
      passing = rw nothing tt;
    }

-- What a client that connects after its render has registered has been sent, and what it is owed, are together
-- the percentages pushed, in their order, however the pushes, the event loop's turns and the client's reads
-- interleave; it is assumed that the render has no final state yet and that the new queue's name is new.
pub frames_in_order :
    (compilation_id : ℕ) (r : Registry) (events : List Event)
    → get_terminal compilation_id r ≡ none
    → bound_for r.next_queue r.scheduled ≡ []
    → let s = run compilation_id events (joined compilation_id r) in
      s.frames ++ map update (owed r.next_queue s.registry) ≡ map tick_frame (pushed events)
frames_in_order c r events h k =
    (run-Following c r.next_queue [] events (joined c r) (joined-Following c r h k)).accounted
