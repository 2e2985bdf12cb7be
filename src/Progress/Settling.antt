-- ===== src/Progress/Settling.antt =====
-- Running every scheduled callback, and reading a queue whose last item is terminal.
use video_journal_be.Prelude.{
  ℕ, zero, suc, ◌-◌, ◌<◌, ◌≡◌, refl, sym, ap, ◌∙◌, true, List, [], ◌∷◌, ◌++◌, append_assoc,
  append-nil, if◌then◌else◌, arith, map, All, length,
}
use video_journal_be.Progress.{
  ProgressUpdate, Registry, items, loop_step, update, ended, waiting, receive, taken, is_terminal,
  put_first,
}
use video_journal_be.Progress.Delivery.{
  owed, bound_for, loop_step-owed, loop_step-channels, items-set,
}
use video_journal_be.Progress.Clients.{
  Event, turning, reading, Listening, heard, step, run, Passing,
}

unfoldable pub times : ℕ → Event → List Event
times zero e = []
times (suc n) e = e ∷ times n e

-- After the end of a render every callback runs, and the client reads as often as needed.
unfoldable pub settling : ℕ → ℕ → List Event
unfolding times
settling turns reads = times turns turning ++ times reads reading

pub run-append :
    (c : ℕ) (es fs : List Event) (s : Listening) → run c (es ++ fs) s ≡ run c fs (run c es s)
unfolding run
run-append c [] fs s = refl
run-append c (e ∷ es) fs s = run-append c es fs (step c e s)

reads-ended :
    (c n : ℕ) (s : Listening)
    → s.client ≡ ended
    → let t = run c (times n reading) s in (t.frames ≡ s.frames) × (t.client ≡ ended)
unfolding run times step receive heard
reads-ended c zero s e = (refl, e)
reads-ended c (suc n) s e =
    let same : step c reading s
        ≡ record { frames = s.frames ++ []; client = ended; registry = s.registry } =
      ap (λ d. heard s.frames (receive d s.registry)) e in
    let (f, g) = reads-ended c n (step c reading s) (ap (λ (t : Listening). t.client) same) in
    (f ∙ ap (λ (t : Listening). t.frames) same ∙ append-nil s.frames, g)

read_item :
    (c q : ℕ) (us : List ProgressUpdate) (u : ProgressUpdate) (s : Listening)
    → s.client ≡ waiting q
    → items q s.registry ≡ u ∷ us
    → step c reading s ≡ heard s.frames (taken q (u ∷ us) s.registry)
unfolding step receive
read_item c q us u s w e =
    ap (λ d. heard s.frames (receive d s.registry)) w
    ∙ ap (λ l. heard s.frames (taken q l s.registry)) e

-- The reads of a queue whose last item is terminal.
pub reads-end :
    (c q n : ℕ) (us : List ProgressUpdate) (u : ProgressUpdate) (s : Listening)
    → s.client ≡ waiting q
    → items q s.registry ≡ us ++ u ∷ []
    → All Passing us
    → is_terminal u.status ≡ true
    → length us < n
    → let t = run c (times n reading) s in
      (t.frames ≡ s.frames ++ map update (us ++ u ∷ [])) × (t.client ≡ ended)
unfolding run times heard taken Passing
reads-end c q zero us u s w e p f l = absurd (omega arith)
reads-end c q (suc n) [] u s w e p f l =
    let same = read_item c q [] u s w e in
    let (g, h) =
      reads-ended c n (step c reading s)
        (ap (λ (t : Listening). t.client) same ∙ ap (λ b. if b then ended else waiting q) f) in
    (g ∙ ap (λ (t : Listening). t.frames) same, h)
reads-end c q (suc n) (v ∷ us) u s w e p f l =
    let same = read_item c q (us ++ u ∷ []) v s w e in
    let (g, h) =
      reads-end c q n us u (step c reading s)
        (ap (λ (t : Listening). t.client) same ∙ ap (λ b. if b then ended else waiting q) p.0)
        (ap (λ (t : Listening). items q t.registry) same
          ∙ items-set q s.registry (us ++ u ∷ []) s.registry.scheduled)
        p.1 f (omega arith) in
    (
      g
          ∙ ap (λ (t : Listening). t.frames ++ map update (us ++ u ∷ [])) same
          ∙ append_assoc s.frames (update v ∷ []) (map update (us ++ u ∷ [])),
      h,
    )

-- What running every callback leaves.
pub record Settled (q : ℕ) (s t : Listening) : Type 0 where
  pub same_frames : t.frames ≡ s.frames
  pub same_client : t.client ≡ s.client
  pub given : items q t.registry ≡ owed q s.registry
  pub same_terminal : t.registry.terminal ≡ s.registry.terminal
  pub same_channels : t.registry.channels ≡ s.registry.channels

turn_scheduled : (r : Registry) → length (loop_step r).scheduled ≡ length r.scheduled - 1
unfolding loop_step put_first
turn_scheduled r = go r.scheduled r refl
  where
    go :
        (l : List (ℕ × ProgressUpdate)) (r : Registry)
        → r.scheduled ≡ l
        → length (put_first l r).scheduled ≡ length l - 1
    go [] r e = ap (λ (l : List (ℕ × ProgressUpdate)). length l) e
    go (p ∷ l) r e = omega arith

turn_terminal : (r : Registry) → (loop_step r).terminal ≡ r.terminal
unfolding loop_step put_first
turn_terminal r = go r.scheduled r
  where
    go : (l : List (ℕ × ProgressUpdate)) (r : Registry) → (put_first l r).terminal ≡ r.terminal
    go [] r = refl
    go (p ∷ l) r = refl

none_scheduled : (q : ℕ) (r : Registry) → length r.scheduled ≡ 0 → items q r ≡ owed q r
unfolding owed bound_for
none_scheduled q r e = go r.scheduled e
  where
    go : (l : List (ℕ × ProgressUpdate)) → length l ≡ 0 → items q r ≡ items q r ++ bound_for q l
    go [] e = sym (append-nil (items q r))
    go (p ∷ l) e = absurd (omega arith)

pub turns-settle :
    (c q n : ℕ) (s : Listening)
    → length s.registry.scheduled ≡ n
    → Settled q s (run c (times n turning) s)
unfolding run times step
turns-settle c q zero s e = record {
  same_frames = refl;
  same_client = refl;
  given = none_scheduled q s.registry e;
  same_terminal = refl;
  same_channels = refl;
}
turns-settle c q (suc n) s e =
    let t = turns-settle c q n (step c turning s) (omega (arith, turn_scheduled s.registry)) in
    record {
      same_frames = t.same_frames;
      same_client = t.same_client;
      given = t.given ∙ loop_step-owed q s.registry;
      same_terminal = t.same_terminal ∙ turn_terminal s.registry;
      same_channels = t.same_channels ∙ loop_step-channels s.registry;
    }
