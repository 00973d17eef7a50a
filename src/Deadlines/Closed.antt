-- ===== src/Deadlines/Closed.antt =====
-- What `SyncDeadlineScheduler` keeps when it is closed.
use ferricstore_python.Base.{
  ℕ, suc, ◌+◌, ◌*◌, ◌≡◌, refl, sym, ap, ◌∙◌, Bool, true, false, ◌||◌, List, [], ◌∷◌, length, ltb,
  leb, if◌then◌else◌,
}
use ferricstore_python.Base.Assoc.{nat_eq, erase}
use ferricstore_python.Deadlines.{
  Entry, keep, heapify, Scheduler, compact, compacted, scheduler_closed, Start, thread_starts,
  thread_raises_with_ident, thread_raises, start_thread, Reply, stopped, waiting_until, expired,
  returned, raised, add_entry, schedule, cancel, close, turn, expire, drop_stale, Operation,
  scheduling, cancelling, closing, turning, perform, perform_all,
}

-- A closed scheduler has no entries.
abbrev pub Emptied : Scheduler → Type 0
Emptied s = s.closed ≡ true → s.heap ≡ []

abbrev Leaves : Scheduler × Reply → Type 0
Leaves r = Emptied r.0

start_thread-closed :
    (starts : Start) (request_id token : ℕ) (s : Scheduler)
    → (start_thread starts request_id token s).0.closed ≡ s.closed
start_thread-closed thread_starts request_id token s = refl
start_thread-closed thread_raises_with_ident request_id token s = refl
start_thread-closed thread_raises request_id token s = refl

schedule-Emptied :
    (starts : Start) (request_id deadline : ℕ) (s : Scheduler)
    → Emptied s
    → Emptied (schedule starts request_id deadline s).0
unfolding schedule compact
schedule-Emptied starts request_id deadline s h = go s.closed s.has_thread refl
  where
    added : Scheduler
    added = compact (add_entry request_id deadline s)

    go :
        (b t : Bool)
        → s.closed ≡ b
        → Leaves (
            if b
            then (s, raised scheduler_closed)
            else if t
            then (added, returned)
            else start_thread starts request_id (suc s.sequence) added)
    go true t e = h
    go false true e = λ k. let open_still : false ≡ true = sym e ∙ k in absurd cc
    go false false e = λ k.
        let open_still : false ≡ true =
          sym e ∙ sym (start_thread-closed starts request_id (suc s.sequence) added) ∙ k in
        absurd cc

compacted-nil : (active : List (ℕ × ℕ)) → compacted active [] ≡ []
unfolding keep heapify
compacted-nil active = go (ltb 0 (length active + 64) || leb 0 (length active * 2))
  where
    go : (b : Bool) → ◌≡◌ {A = List Entry} (if b then [] else []) []
    go true = refl
    go false = refl

cancel-Emptied : (request_id : ℕ) (s : Scheduler) → Emptied s → Emptied (cancel request_id s).0
unfolding cancel compact
cancel-Emptied request_id s h k =
    ap (compacted (erase request_id s.active)) (h k) ∙ compacted-nil (erase request_id s.active)

turn-Emptied : (now : ℕ) (s : Scheduler) → Emptied s → Emptied (turn now s).0
unfolding turn
turn-Emptied now s h = go s.closed refl
  where
    due :
        (b : Bool) (e : Entry) (heap : List Entry)
        → s.closed ≡ false
        → Leaves (
            if b then (record s { heap = e ∷ heap }, waiting_until e.deadline) else (
              record s { heap = heap; active = erase e.request_id s.active },
              expired e.request_id,
            ))
    due true e heap open_still k = absurd cc
    due false e heap open_still k = absurd cc

    expire-Emptied : (heap : List Entry) → s.closed ≡ false → Emptied (expire now s heap).0
    expire-Emptied [] open_still = λ _. refl
    expire-Emptied (e ∷ heap) open_still = due (ltb now e.deadline) e heap open_still

    go :
        (b : Bool)
        → s.closed ≡ b
        → Leaves (if b then (s, stopped) else expire now s (drop_stale s.active s.heap))
    go true e = h
    go false e = expire-Emptied (drop_stale s.active s.heap) e

pub close-Emptied : (s : Scheduler) → Emptied s → Emptied (close s).0
unfolding close
close-Emptied s h = go s.closed
  where
    go :
        (b : Bool)
        → Leaves (
            if b
            then (s, returned)
            else (record s { heap = []; active = []; closed = true }, returned))
    go true = h
    go false = λ _. refl

perform-Emptied : (o : Operation) (s : Scheduler) → Emptied s → Emptied (perform o s).0
perform-Emptied (scheduling starts request_id deadline) s h =
    schedule-Emptied starts request_id deadline s h
perform-Emptied (cancelling request_id) s h = cancel-Emptied request_id s h
perform-Emptied closing s h = close-Emptied s h
perform-Emptied (turning now) s h = turn-Emptied now s h

pub perform_all-Emptied :
    (os : List Operation) (s : Scheduler) → Emptied s → Emptied (perform_all os s)
perform_all-Emptied [] s h = h
perform_all-Emptied (o ∷ os) s h = perform_all-Emptied os (perform o s).0 (perform-Emptied o s h)

abbrev Ends : Scheduler × Reply → Type 0
Ends r = r.0.closed ≡ true

pub closed_after : (s : Scheduler) → (close s).0.closed ≡ true
unfolding close
closed_after s = go s.closed refl
  where
    go :
        (b : Bool)
        → s.closed ≡ b
        → Ends (
            if b
            then (s, returned)
            else (record s { heap = []; active = []; closed = true }, returned))
    go true e = e
    go false e = refl
