-- ===== src/Deadlines.antt =====
-- `SyncDeadlineScheduler` of `protocol_lifecycle.py`: one thread for the deadlines of many requests.
-- A heap of `heapq` is the list of its entries in the order in which they are popped. Times are natural
-- numbers, of which the code uses the order only. What holds the condition's lock is one step; waking the
-- thread up is not modelled, since a turn of the thread may come at any time.
pub mod Heap
pub mod Live
pub mod Stale
pub mod Refinement
pub mod Histories
pub mod Closed
pub mod Retention
mod Tests
use ferricstore_python.Base.{
  ℕ, zero, suc, ◌+◌, ◌*◌, Bool, true, false, ◌&&◌, ◌||◌, not, Option, none, some, List, [], ◌∷◌,
  length, ltb, leb, ◌==◌, if◌then◌else◌,
}
use ferricstore_python.Base.Assoc.{nat_eq, lookup, insert, erase}

-- A tuple of the heap. Tuples compare by the deadline, then by the token, and no two have the same token.
pub record Entry : Type 0 where
  pub deadline : ℕ
  pub token : ℕ
  pub request_id : ℕ

abbrev pub before : Entry → Entry → Bool
before a b = if a.deadline == b.deadline then ltb a.token b.token else ltb a.deadline b.deadline

-- `heapq.heappush`
unfoldable pub push : Entry → List Entry → List Entry
push e [] = e ∷ []
push e (x ∷ xs) = let rest = push e xs in if before e x then e ∷ x ∷ xs else x ∷ rest

-- `heapq.heapify`
unfoldable pub heapify : List Entry → List Entry
unfolding push
heapify [] = []
heapify (x ∷ xs) = push x (heapify xs)

unfoldable pub keep : (Entry → Bool) → List Entry → List Entry
keep p [] = []
keep p (x ∷ xs) = if p x then x ∷ keep p xs else keep p xs

-- The fields `_heap`, `_active`, `_sequence`, `_thread` (whether there is one) and `_closed`.
pub record Scheduler : Type 0 where
  pub heap : List Entry
  pub active : List (ℕ × ℕ)
  pub sequence : ℕ
  pub has_thread : Bool
  pub closed : Bool

abbrev pub scheduler : Scheduler
scheduler = record { heap = []; active = []; sequence = 0; has_thread = false; closed = false }

abbrev pub has_token : Option ℕ → ℕ → Bool
has_token none token = false
has_token (some t) token = t == token

-- `self._active.get(entry[2]) == entry[1]`
unfoldable pub is_active : List (ℕ × ℕ) → Entry → Bool
unfolding lookup
is_active active e = has_token (lookup e.request_id active) e.token

abbrev pub compact_min_stale : ℕ
compact_min_stale = 64

abbrev pub compacted : List (ℕ × ℕ) → List Entry → List Entry
compacted active heap =
    if ltb (length heap) (length active + compact_min_stale)
      || leb (length heap) (length active * 2)
    then heap
    else heapify (keep (is_active active) heap)

-- `_compact_locked`
unfoldable pub compact : Scheduler → Scheduler
unfolding is_active heapify keep
compact s = record s { heap = compacted s.active s.heap }

-- The RuntimeError of a closed scheduler, and what starting the thread raises.
pub data Error : Type 0 where
  scheduler_closed thread_failed : Error

pub data Reply : Type 0 where
  returned : Reply
  raised : Error → Reply
  stopped waiting : Reply
  waiting_until : ℕ → Reply
  expired : ℕ → Reply

abbrev pub add_entry : ℕ → ℕ → Scheduler → Scheduler
add_entry request_id deadline s = record s {
  heap =
      push (record { deadline = deadline; token = suc s.sequence; request_id = request_id }) s.heap;
  active = insert request_id (suc s.sequence) s.active;
  sequence = suc s.sequence;
}

-- What `schedule` takes back where the thread does not start.
abbrev pub take_back : ℕ → ℕ → Scheduler → Scheduler
take_back request_id token s = record s {
  heap = heapify (keep (λ e. not (e.token == token)) s.heap);
  active =
      if has_token (lookup request_id s.active) token then erase request_id s.active else s.active;
}

-- How `thread.start()` ends: it returns, or it raises, where the thread has an `ident` or none.
pub data Start : Type 0 where
  thread_starts thread_raises_with_ident thread_raises : Start

-- The end of `schedule` with a new thread.
abbrev pub start_thread : Start → ℕ → ℕ → Scheduler → Scheduler × Reply
start_thread thread_starts request_id token s = (record s { has_thread = true }, returned)
start_thread thread_raises_with_ident request_id token s =
    (record s { has_thread = true }, raised thread_failed)
start_thread thread_raises request_id token s = (take_back request_id token s, raised thread_failed)

unfoldable pub schedule : Start → ℕ → ℕ → Scheduler → Scheduler × Reply
unfolding push insert erase lookup compact heapify keep
schedule starts request_id deadline s =
    if s.closed
    then (s, raised scheduler_closed)
    else let added = compact (add_entry request_id deadline s) in
      if s.has_thread
      then (added, returned)
      else start_thread starts request_id (suc s.sequence) added

unfoldable pub cancel : ℕ → Scheduler → Scheduler × Reply
unfolding erase compact
cancel request_id s = (compact (record s { active = erase request_id s.active }), returned)

unfoldable pub close : Scheduler → Scheduler × Reply
close s =
    if s.closed
    then (s, returned)
    else (record s { heap = []; active = []; closed = true }, returned)

-- The inner loop of `_run`.
unfoldable pub drop_stale : List (ℕ × ℕ) → List Entry → List Entry
unfolding is_active
drop_stale active [] = []
drop_stale active (e ∷ heap) =
    let rest = drop_stale active heap in if is_active active e then e ∷ heap else rest

-- The head of the heap, which is active, at the time `now`. The second test of its token in the source
-- stands under the same lock, so it passes as well.
abbrev pub expire : ℕ → Scheduler → List Entry → Scheduler × Reply
expire now s [] = (record s { heap = [] }, waiting)
expire now s (e ∷ heap) =
    if ltb now e.deadline
    then (record s { heap = e ∷ heap }, waiting_until e.deadline)
    else (record s { heap = heap; active = erase e.request_id s.active }, expired e.request_id)

-- `_run` from one release of the lock to the next.
unfoldable pub turn : ℕ → Scheduler → Scheduler × Reply
unfolding drop_stale erase
turn now s = if s.closed then (s, stopped) else expire now s (drop_stale s.active s.heap)

pub data Operation : Type 0 where
  scheduling : Start → ℕ → ℕ → Operation
  cancelling : ℕ → Operation
  closing : Operation
  turning : ℕ → Operation

abbrev pub perform : Operation → Scheduler → Scheduler × Reply
perform (scheduling starts request_id deadline) s = schedule starts request_id deadline s
perform (cancelling request_id) s = cancel request_id s
perform closing s = close s
perform (turning now) s = turn now s

abbrev pub perform_all : List Operation → Scheduler → Scheduler
perform_all [] s = s
perform_all (o ∷ os) s = perform_all os (perform o s).0

abbrev pub replies : List Operation → Scheduler → List Reply
replies [] s = []
replies (o ∷ os) s = (perform o s).1 ∷ replies os (perform o s).0
