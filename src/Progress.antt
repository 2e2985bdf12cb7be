-- ===== src/Progress.antt =====
-- domains/compilations/progress.py, the registry of running renders, and the event stream of
-- domains/compilations/router.py that reads it. A queue is named by a number, so that two holders of one
-- queue see the same items; a put that was scheduled on the event loop waits in `scheduled`.
pub mod Delivery
pub mod Clients
pub mod Settling
pub mod Ending
use video_journal_be.Prelude.{
  ℕ, zero, suc, ◌+◌, ℤ, pos, Bool, true, false, Option, none, some, List, [], ◌∷◌, ◌++◌, ◌==◌,
  if◌then◌else◌,
}
use video_journal_be.Errors.{Text}

-- The statuses that are pushed: `running` by the render thread, the others by `finalize`.
pub data UpdateStatus : Type 0 where
  running complete failed : UpdateStatus

pub record ProgressUpdate : Type 0 where
  pub progress : ℤ
  pub status : UpdateStatus
  pub video_url : Option Text
  pub error : Option Text

-- A dict from UUIDs.
module _ {ℓ} {V : Type ℓ} where
  unfoldable pub get : ℕ → List (ℕ × V) → Option V
  get k [] = none
  get k ((j, v) ∷ d) = if j == k then some v else get k d

  unfoldable pub set : ℕ → V → List (ℕ × V) → List (ℕ × V)
  set k v [] = (k, v) ∷ []
  set k v ((j, u) ∷ d) = if j == k then (k, v) ∷ d else (j, u) ∷ set k v d

  -- `d.pop(k, None)`
  unfoldable pub pop : ℕ → List (ℕ × V) → List (ℕ × V)
  pop k [] = []
  pop k ((j, u) ∷ d) = let rest = pop k d in if j == k then rest else (j, u) ∷ rest

pub record Registry : Type 0 where
  pub channels : List (ℕ × ℕ)
  pub terminal : List (ℕ × ProgressUpdate)
  pub scheduled : List (ℕ × ProgressUpdate)
  pub queues : List (ℕ × List ProgressUpdate)
  pub next_queue : ℕ

or_empty : Option (List ProgressUpdate) → List ProgressUpdate
or_empty none = []
or_empty (some l) = l

-- The items of a queue.
unfoldable pub items : ℕ → Registry → List ProgressUpdate
unfolding or_empty get
items q r = or_empty (get q r.queues)

unfoldable pub register : ℕ → Registry → Registry
unfolding set
register compilation_id r = record r {
  channels = set compilation_id r.next_queue r.channels;
  queues = set r.next_queue [] r.queues;
  next_queue = suc r.next_queue;
}

unfoldable pub subscribe : ℕ → Registry → Option ℕ
unfolding get
subscribe compilation_id r = get compilation_id r.channels

unfoldable pub get_terminal : ℕ → Registry → Option ProgressUpdate
unfolding get
get_terminal compilation_id r = get compilation_id r.terminal

-- `loop.call_soon_threadsafe(queue.put_nowait, update)` where there is a channel.
unfoldable pub schedule : Option ℕ → ProgressUpdate → Registry → Registry
schedule none u r = r
schedule (some q) u r = record r { scheduled = r.scheduled ++ (q, u) ∷ [] }

unfoldable pub push_from_thread : ℕ → ProgressUpdate → Registry → Registry
unfolding schedule get
push_from_thread compilation_id u r = schedule (get compilation_id r.channels) u r

unfoldable pub unsubscribe : ℕ → Registry → Registry
unfolding pop
unsubscribe compilation_id r = record r { channels = pop compilation_id r.channels }

unfoldable pub finalize : ℕ → ProgressUpdate → Registry → Registry
unfolding schedule get set pop
finalize compilation_id u r = schedule (get compilation_id r.channels) u (record r {
  terminal = set compilation_id u r.terminal;
  channels = pop compilation_id r.channels;
})

put_first : List (ℕ × ProgressUpdate) → Registry → Registry
unfolding set items
put_first [] r = r
put_first ((q, u) ∷ rest) r = record r {
  scheduled = rest;
  queues = set q (items q r ++ u ∷ []) r.queues;
}

-- The event loop runs the callback that was scheduled first.
unfoldable pub loop_step : Registry → Registry
unfolding put_first
loop_step r = put_first r.scheduled r

unfoldable pub is_terminal : UpdateStatus → Bool
is_terminal running = false
is_terminal complete = true
is_terminal failed = true

-- One frame of the event stream: an update, or the notice that the render has not begun.
pub data Frame : Type 0 where
  update : ProgressUpdate → Frame
  pending : Frame

-- What a client's generator does next: it has ended, or it waits on a queue.
pub data Client : Type 0 where
  ended : Client
  waiting : ℕ → Client

started : Option ProgressUpdate → Option ℕ → List Frame × Client
started (some u) q = (update u ∷ [], ended)
started none none = (pending ∷ [], ended)
started none (some q) = ([], waiting q)

-- The generator up to its first `await`.
unfoldable pub connect : ℕ → Registry → List Frame × Client
unfolding started get_terminal subscribe
connect compilation_id r = started (get_terminal compilation_id r) (subscribe compilation_id r)

taken : ℕ → List ProgressUpdate → Registry → List Frame × Client × Registry
unfolding set is_terminal
taken q [] r = ([], waiting q, r)
taken q (u ∷ us) r = (
  update u ∷ [],
  if is_terminal u.status then ended else waiting q,
  record r { queues = set q us r.queues },
)

-- One round of the loop: the first item of the queue is sent, and a terminal one ends the stream; an
-- empty queue times out, and the client goes on waiting.
unfoldable pub receive : Client → Registry → List Frame × Client × Registry
unfolding taken items
receive ended r = ([], ended, r)
receive (waiting q) r = taken q (items q r) r

-- A timeout at which the request is found disconnected: the generator leaves and unsubscribes.
unfoldable pub disconnect : ℕ → Client → Registry → Client × Registry
unfolding unsubscribe
disconnect compilation_id ended r = (ended, r)
disconnect compilation_id (waiting q) r = (ended, unsubscribe compilation_id r)
