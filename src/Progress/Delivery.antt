-- ===== src/Progress/Delivery.antt =====
-- The updates of a render reach the client that reads its queue once each and in order, however the pushes of
-- the render thread, the event loop's turns and the client's reads interleave.
use video_journal_be.Prelude.{
  ℕ, ◌≡◌, refl, sym, ap, ◌∙◌, false, none, some, List, [], ◌∷◌, ◌++◌, append_assoc, ◌==◌,
  if◌then◌else◌, arith, ==_refl, Bool-cases, inl, inr,
}
use video_journal_be.Progress.{
  ProgressUpdate, Registry, get, set, pop, items, register, schedule, put_first, loop_step,
  or_empty,
}

module _ {ℓ} {V : Type ℓ} where
  pub get-set : (k : ℕ) (v : V) (d : List (ℕ × V)) → get k (set k v d) ≡ some v
  unfolding get set
  get-set k v [] = ground arith
  get-set k v ((j, u) ∷ d) = ground (arith, get-set k v d)

  pub get-set_other :
      (k i : ℕ) (v : V) (d : List (ℕ × V)) → (k == i) ≡ false → get k (set i v d) ≡ get k d
  unfolding get set
  get-set_other k i v [] h = ground arith
  get-set_other k i v ((j, u) ∷ d) h = ground (arith, get-set_other k i v d h)

  pub get-pop : (k : ℕ) (d : List (ℕ × V)) → get k (pop k d) ≡ none
  unfolding get pop
  get-pop k [] = refl
  get-pop k ((j, u) ∷ d) = ground (arith, get-pop k d)

-- The updates among the scheduled callbacks that are for the queue.
unfoldable pub bound_for : ℕ → List (ℕ × ProgressUpdate) → List ProgressUpdate
bound_for q [] = []
bound_for q ((j, u) ∷ l) = let rest = bound_for q l in if q == j then u ∷ rest else rest

-- What the client of a queue will still be given: its items, then what is scheduled for it.
unfoldable pub owed : ℕ → Registry → List ProgressUpdate
unfolding bound_for items
owed q r = items q r ++ bound_for q r.scheduled

bound_for-append :
    (q : ℕ) (l m : List (ℕ × ProgressUpdate))
    → bound_for q (l ++ m) ≡ bound_for q l ++ bound_for q m
unfolding bound_for
bound_for-append q [] m = refl
bound_for-append q ((j, u) ∷ l) m = ground (arith, bound_for-append q l m)

pub items-set :
    (q : ℕ) (r : Registry) (l : List ProgressUpdate) (s : List (ℕ × ProgressUpdate))
    → items q (record r { queues = set q l r.queues; scheduled = s }) ≡ l
unfolding items or_empty
items-set q r l s = ap or_empty (get-set q l r.queues)

items-set_other :
    (q j : ℕ) (r : Registry) (l : List ProgressUpdate) (s : List (ℕ × ProgressUpdate))
    → (q == j) ≡ false
    → items q (record r { queues = set j l r.queues; scheduled = s }) ≡ items q r
unfolding items or_empty
items-set_other q j r l s h = ap or_empty (get-set_other q j l r.queues h)

owed-put :
    (q : ℕ) (l : List (ℕ × ProgressUpdate)) (r : Registry)
    → r.scheduled ≡ l
    → owed q (put_first l r) ≡ items q r ++ bound_for q l
unfolding owed put_first
owed-put q [] r h = ap (λ s. items q r ++ bound_for q s) h
owed-put q ((j, u) ∷ l) r h = elim (Bool-cases (q == j)) [
  | inl e ↦
      let same : q ≡ j = ground arith in
      rw e (
        rw (sym same) (
          ap (λ k. k ++ bound_for q l) (items-set q r (items q r ++ u ∷ []) l)
          ∙ append_assoc (items q r) (u ∷ []) (bound_for q l)))
  | inr e ↦ rw e (ap (λ k. k ++ bound_for q l) (items-set_other q j r (items j r ++ u ∷ []) l e))
]

-- A turn of the event loop changes what no client is owed.
pub loop_step-owed : (q : ℕ) (r : Registry) → owed q (loop_step r) ≡ owed q r
unfolding loop_step owed
loop_step-owed q r = owed-put q r.scheduled r refl

pub loop_step-channels : (r : Registry) → (loop_step r).channels ≡ r.channels
unfolding loop_step put_first
loop_step-channels r = put_channels r.scheduled r
  where
    put_channels :
        (l : List (ℕ × ProgressUpdate)) (r : Registry) → (put_first l r).channels ≡ r.channels
    put_channels [] r = refl
    put_channels (p ∷ l) r = refl

pub schedule-owed :
    (q : ℕ) (u : ProgressUpdate) (r : Registry)
    → owed q (schedule (some q) u r) ≡ owed q r ++ u ∷ []
unfolding owed schedule items bound_for
schedule-owed q u r =
    ap (λ k. items q r ++ k) (bound_for-append q r.scheduled ((q, u) ∷ []) ∙ rw (==_refl q) refl)
    ∙ sym (append_assoc (items q r) (bound_for q r.scheduled) (u ∷ []))

-- A new queue is owed what was scheduled for its name, which is nothing when the name is new.
pub owed-registered :
    (c : ℕ) (r : Registry) → owed r.next_queue (register c r) ≡ bound_for r.next_queue r.scheduled
unfolding owed register items or_empty
owed-registered c r =
    ap (λ k. or_empty k ++ bound_for r.next_queue r.scheduled) (get-set r.next_queue [] r.queues)

pub owed-items :
    (q : ℕ) (r : Registry) (us : List ProgressUpdate)
    → items q r ≡ us
    → owed q r ≡ us ++ bound_for q r.scheduled
unfolding owed
owed-items q r us e = ap (λ k. k ++ bound_for q r.scheduled) e
