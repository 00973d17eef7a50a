-- ===== src/Autobatch.antt =====
-- `client_autobatch_queue.py` and the queue of `AutobatchFlowClient` in `client_autobatch.py`: operations that
-- wait to be sent in batches. What holds the condition's lock is one step; a step that waits changes nothing.
-- An operation is its number, which stands for the object.
pub mod Queue
mod Tests
use ferricstore_python.Base.{
  ℕ, zero, suc, ◌+◌, ◌-◌, Bool, true, false, not, ◌&&◌, ◌||◌, Option, none, some, List, [], ◌∷◌,
  ◌++◌, length, take, drop, map, ltb, leb, ◌==◌, if◌then◌else◌,
}

-- `_BatchOp`, as far as the queue reads it.
pub record Op : Type 0 where
  pub number : ℕ
  pub queued : Bool
  pub cancelled_while_queued : Bool

-- The fields of the client that the queue reads and writes.
pub record Host : Type 0 where
  pub max_batch : ℕ
  pub max_pending : ℕ
  pub pending : List Op
  pub cancelled_pending : ℕ
  pub closed : Bool

abbrev pub host : ℕ → ℕ → Host
host max_batch max_pending = record {
  max_batch = max_batch;
  max_pending = max_pending;
  pending = [];
  cancelled_pending = 0;
  closed = false;
}

abbrev pub one_if : Bool → ℕ
one_if true = 1
one_if false = 0

abbrev pub cancelled_in : List Op → ℕ
cancelled_in [] = 0
cancelled_in (o ∷ os) = one_if o.cancelled_while_queued + cancelled_in os

abbrev pub leave_queue : Op → Op
leave_queue o = record o { queued = false }

-- `take_pending_locked`
unfoldable pub take_pending_locked : Host → List Op × Host
take_pending_locked h = (
  map leave_queue (take h.max_batch h.pending),
  record h {
    pending = drop h.max_batch h.pending;
    cancelled_pending = h.cancelled_pending - cancelled_in (take h.max_batch h.pending);
  },
)

abbrev pub behind : Op → Option (List Op) → Option (List Op)
behind o none = none
behind o (some os) = some (o ∷ os)

-- The queue with one more operation cancelled, unless it has left the queue or is cancelled already.
unfoldable pub mark : ℕ → List Op → Option (List Op)
mark number [] = none
mark number (o ∷ os) =
    let rest = mark number os in
    if o.number == number
    then if o.queued && not o.cancelled_while_queued
      then some (record o { cancelled_while_queued = true } ∷ os)
      else none
    else behind o rest

abbrev pub marked : Host → Option (List Op) → Host
marked h none = h
marked h (some os) = record h { pending = os; cancelled_pending = h.cancelled_pending + 1 }

-- `pending_future_done`
unfoldable pub pending_future_done : ℕ → Bool → Host → Host
unfolding mark
pending_future_done number cancelled h =
    if not cancelled then h else marked h (mark number h.pending)

pub data Enqueued : Type 0 where
  accepted waits is_closed : Enqueued

-- `_enqueue` from outside the worker.
unfoldable pub enqueue : ℕ → Host → Host × Enqueued
enqueue number h =
    if leb h.max_pending (length h.pending) && not h.closed
    then (h, waits)
    else if h.closed
    then (h, is_closed)
    else (
      record h {
        pending =
            h.pending
            ++ (record { number = number; queued = true; cancelled_while_queued = false }) ∷ [];
      },
      accepted,
    )

pub data Taken : Type 0 where
  sleeps stops : Taken
  batch : List Op → Taken

abbrev pub taking : List Op × Host → Host × Taken
taking (os, h) = (h, batch os)

-- `_take_batch`; `due` tells whether the time since the first operation has run out.
unfoldable pub take_batch : Bool → Host → Host × Taken
unfolding take_pending_locked
take_batch due h =
    if length h.pending == 0
    then (if h.closed then (h, stops) else (h, sleeps))
    else if ltb (length h.pending) h.max_batch
        && (not h.closed && (h.cancelled_pending == 0 && not due))
    then (h, sleeps)
    else taking (take_pending_locked h)

pub data Event : Type 0 where
  enqueues : ℕ → Event
  finishes : ℕ → Bool → Event
  takes : Bool → Event
  closes : Event

abbrev pub step : Event → Host → Host
step (enqueues number) h = (enqueue number h).0
step (finishes number cancelled) h = pending_future_done number cancelled h
step (takes due) h = (take_batch due h).0
step closes h = record h { closed = true }

abbrev pub steps : List Event → Host → Host
steps [] h = h
steps (e ∷ es) h = steps es (step e h)

abbrev pub numbers : List Op → List ℕ
numbers os = map (λ o. o.number) os

abbrev pub taken_numbers : Taken → List ℕ
taken_numbers (batch os) = numbers os
taken_numbers _ = []

abbrev pub accepted_number : ℕ → Enqueued → List ℕ
accepted_number number accepted = number ∷ []
accepted_number number _ = []

-- The operations that a history has accepted, and those that it has put into batches.
abbrev pub came_in : List Event → Host → List ℕ
came_in [] h = []
came_in (enqueues number ∷ es) h =
    accepted_number number (enqueue number h).1 ++ came_in es (step (enqueues number) h)
came_in (e ∷ es) h = came_in es (step e h)

abbrev pub went_out : List Event → Host → List ℕ
went_out [] h = []
went_out (takes due ∷ es) h = taken_numbers (take_batch due h).1 ++ went_out es (step (takes due) h)
went_out (e ∷ es) h = went_out es (step e h)
