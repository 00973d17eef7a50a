-- ===== src/Deadlines/Retention.antt =====
-- How many entries `SyncDeadlineScheduler` keeps for the requests that are active.
use ferricstore_python.Base.{
  ℕ, suc, ◌+◌, ◌*◌, ◌≡◌, ◌≤◌, ◌<◌, ◌⊎◌, inl, inr, refl, Bool, true, false, some, List, [], ◌∷◌,
  length, ltb, ◌==◌, if◌then◌else◌, All, arith,
}
use ferricstore_python.Base.Assoc.{nat_eq, lookup, erase}
use ferricstore_python.Deadlines.{
  Entry, keep, Scheduler, scheduler, is_active, compact, scheduler_closed, Start, thread_starts,
  thread_raises_with_ident, thread_raises, start_thread, Reply, stopped, waiting_until, expired,
  returned, raised, add_entry, schedule, cancel, close, turn, expire, drop_stale, Operation,
  scheduling, cancelling, closing, turning, perform, perform_all,
}
use ferricstore_python.Deadlines.Closed.{closed_after, close-Emptied, perform_all-Emptied}
use ferricstore_python.Deadlines.Heap.{IsDistinct, keep-IsDistinct}
use ferricstore_python.Deadlines.Live.{live, IsHeap}
use ferricstore_python.Deadlines.Stale.{compacted-cases, token_of, differ-is_active}
use ferricstore_python.Deadlines.Refinement.{Requests, no_requests, Holds, add-Holds}
use ferricstore_python.Deadlines.Histories.{scheduler-Holds, perform_all-Holds}

length-erase_le : (k : ℕ) (m : List (ℕ × ℕ)) → length (erase k m) ≤ length m
unfolding erase
length-erase_le k [] = omega arith
length-erase_le k ((j, v) ∷ m) = ground (arith, length-erase_le k m)

length-erase_lt : (k v : ℕ) (m : List (ℕ × ℕ)) → lookup k m ≡ some v → length (erase k m) < length m
unfolding erase lookup
length-erase_lt k v [] h = absurd cc
length-erase_lt k v ((j, w) ∷ m) h = go (j == k) h (length-erase_le k m) (length-erase_lt k v m)
  where
    go :
        (b : Bool)
        → (if b then some w else lookup k m) ≡ some v
        → length (erase k m) ≤ length m
        → (lookup k m ≡ some v → length (erase k m) < length m)
        → length (if b then erase k m else (j, w) ∷ erase k m) < suc (length m)
    go true e le lt = omega (arith, le)
    go false e le lt = omega (arith, lt e)

-- There are no more active entries than active requests.
length-actives :
    (active : List (ℕ × ℕ)) (xs : List Entry)
    → IsDistinct xs
    → All (λ y. is_active active y ≡ true) xs
    → length xs ≤ length active
length-actives active [] d h = omega arith
length-actives active (x ∷ xs) (d', d) (h', h) = omega (
  arith,
  length-actives (erase x.request_id active) xs d (differ-is_active active x xs h' d' h),
  length-erase_lt x.request_id x.token active (token_of active x h'),
)

All-kept : (p : Entry → Bool) (xs : List Entry) → All (λ y. p y ≡ true) (keep p xs)
unfolding keep
All-kept p [] = tt
All-kept p (x ∷ xs) = go (p x) refl (All-kept p xs)
  where
    go :
        (b : Bool)
        → p x ≡ b
        → All (λ y. p y ≡ true) (keep p xs)
        → All (λ y. p y ≡ true) (if b then x ∷ keep p xs else keep p xs)
    go true h rest = (h, rest)
    go false h rest = rest

length-live :
    (active : List (ℕ × ℕ)) (heap : List Entry)
    → IsDistinct heap
    → length (live active heap) ≤ length active
length-live active heap d =
    length-actives active (live active heap) (keep-IsDistinct (is_active active) heap d)
      (All-kept (is_active active) heap)

-- Fewer than 64 entries more than active requests, or at most twice as many.
abbrev pub IsCompact : Scheduler → Type 0
IsCompact s = (length s.heap < length s.active + 64) ⊎ (length s.heap ≤ length s.active * 2)

compact-IsCompact : (s : Scheduler) → IsHeap s.sequence s.heap → IsCompact (compact s)
unfolding compact
compact-IsCompact s (sorted, d, b) =
    elim (compacted-cases s.sequence s.active s.heap (sorted, d, b)) [
      | inl (few, e) ↦ rw e few
      | inr e ↦ inr (rw e (omega (arith, length-live s.active s.heap d)))
    ]

abbrev Fine : Scheduler × Reply → Type 0
Fine (s, x) = x ≡ returned → IsCompact s

start_thread-Fine :
    (starts : Start) (request_id token : ℕ) (s : Scheduler)
    → IsCompact s
    → Fine (start_thread starts request_id token s)
start_thread-Fine thread_starts request_id token s c = λ _. c
start_thread-Fine thread_raises_with_ident request_id token s c = λ k. absurd cc
start_thread-Fine thread_raises request_id token s c = λ k. absurd cc

schedule-Fine :
    (starts : Start) (request_id deadline : ℕ) (s : Scheduler) (r : Requests)
    → Holds s r
    → Fine (schedule starts request_id deadline s)
unfolding schedule
schedule-Fine starts request_id deadline s r h = go s.closed s.has_thread (
    compact-IsCompact (add_entry request_id deadline s)
      ((add-Holds request_id deadline s r h).is_heap))
  where
    added : Scheduler
    added = compact (add_entry request_id deadline s)

    go :
        (b t : Bool)
        → IsCompact added
        → Fine (
            if b
            then (s, raised scheduler_closed)
            else if t
            then (added, returned)
            else start_thread starts request_id (suc s.sequence) added)
    go true t c = λ k. absurd cc
    go false true c = λ _. c
    go false false c = start_thread-Fine starts request_id (suc s.sequence) added c

nil-IsCompact : (s : Scheduler) → s.heap ≡ [] → IsCompact s
nil-IsCompact s h = inr (rw h (omega arith))

turn-Fine : (now : ℕ) (s : Scheduler) → Fine (turn now s)
unfolding turn
turn-Fine now s = go s.closed
  where
    due :
        (b : Bool) (e : Entry) (heap : List Entry)
        → Fine (
            if b then (record s { heap = e ∷ heap }, waiting_until e.deadline) else (
              record s { heap = heap; active = erase e.request_id s.active },
              expired e.request_id,
            ))
    due true e heap = λ k. absurd cc
    due false e heap = λ k. absurd cc

    expire-Fine : (heap : List Entry) → Fine (expire now s heap)
    expire-Fine [] = λ k. absurd cc
    expire-Fine (e ∷ heap) = due (ltb now e.deadline) e heap

    go : (b : Bool) → Fine (if b then (s, stopped) else expire now s (drop_stale s.active s.heap))
    go true = λ k. absurd cc
    go false = expire-Fine (drop_stale s.active s.heap)

-- After any operations on a new scheduler, closing it included: `schedule`, `cancel` or `close`, where it
-- returns, leaves at most twice as many entries as requests are active, or fewer than 64 more.
pub compacts :
    (os : List Operation) (o : Operation)
    → (perform o (perform_all os scheduler)).1 ≡ returned
    → IsCompact (perform o (perform_all os scheduler)).0
unfolding cancel
compacts os (scheduling starts request_id deadline) =
    let (r, h) = perform_all-Holds os scheduler no_requests scheduler-Holds in
    schedule-Fine starts request_id deadline (perform_all os scheduler) r h
compacts os (cancelling request_id) = λ e.
    let (r, h) = perform_all-Holds os scheduler no_requests scheduler-Holds in
    let s = perform_all os scheduler in
    compact-IsCompact (record s { active = erase request_id s.active }) (h.is_heap)
compacts os closing = λ e.
    let s = perform_all os scheduler in
    nil-IsCompact (close s).0
      (close-Emptied s (perform_all-Emptied os scheduler (λ _. refl)) (closed_after s))
compacts os (turning now) = turn-Fine now (perform_all os scheduler)
