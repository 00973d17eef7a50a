-- ===== src/Deadlines/Refinement.antt =====
-- `SyncDeadlineScheduler` against its specification: the requests that await a deadline, earliest first,
-- each with the one deadline that it was given last.
use ferricstore_python.Base.{
  ℕ, suc, ◌≡◌, refl, sym, ap, ◌∙◌, Bool, true, false, List, [], ◌∷◌, ltb, if◌then◌else◌,
}
use ferricstore_python.Base.Assoc.{nat_eq, erase}
use ferricstore_python.Deadlines.{
  Entry, push, keep, Scheduler, compact, drop_stale, Start, thread_starts, thread_raises_with_ident,
  thread_raises, scheduler_closed, thread_failed, Reply, returned, raised, stopped, waiting,
  waiting_until, expired, add_entry, cancel, close, expire, turn, Operation, scheduling, cancelling,
  closing, turning,
}
use ferricstore_python.Deadlines.Live.{live, without, IsHeap, push-IsHeap, live-erase, live-push}
use ferricstore_python.Deadlines.Stale.{
  compacted-live, compacted-IsHeap, HeadIsActive, drop_stale-live, live-expired,
}

pub record Requests : Type 0 where
  pub pending : List Entry
  pub given_out : ℕ
  pub running : Bool
  pub ended : Bool

abbrev pub no_requests : Requests
no_requests = record { pending = []; given_out = 0; running = false; ended = false }

-- A request whose thread raises awaits its deadline only where the thread runs all the same.
abbrev pub spec_start : Start → ℕ → Requests → Requests → Requests × Reply
spec_start thread_starts request_id r added = (record added { running = true }, returned)
spec_start thread_raises_with_ident request_id r added =
    (record added { running = true }, raised thread_failed)
spec_start thread_raises request_id r added = (
  record r { pending = without request_id r.pending; given_out = suc r.given_out },
  raised thread_failed,
)

abbrev pub spec_schedule : Start → ℕ → ℕ → Requests → Requests × Reply
spec_schedule starts request_id deadline r =
    let e : Entry = record {
      deadline = deadline;
      token = suc r.given_out;
      request_id = request_id;
    } in
    let added = record r {
      pending = push e (without request_id r.pending);
      given_out = suc r.given_out;
    } in
    if r.ended
    then (r, raised scheduler_closed)
    else if r.running
    then (added, returned)
    else spec_start starts request_id r added

abbrev pub spec_head : ℕ → Requests → List Entry → Requests × Reply
spec_head now r [] = (r, waiting)
spec_head now r (e ∷ rest) =
    if ltb now e.deadline
    then (r, waiting_until e.deadline)
    else (record r { pending = rest }, expired e.request_id)

abbrev pub spec_perform : Operation → Requests → Requests × Reply
spec_perform (scheduling starts request_id deadline) r = spec_schedule starts request_id deadline r
spec_perform (cancelling request_id) r =
    (record r { pending = without request_id r.pending }, returned)
spec_perform closing r = (if r.ended then r else record r { pending = []; ended = true }, returned)
spec_perform (turning now) r = if r.ended then (r, stopped) else spec_head now r r.pending

abbrev pub spec_replies : List Operation → Requests → List Reply
spec_replies [] r = []
spec_replies (o ∷ os) r = (spec_perform o r).1 ∷ spec_replies os (spec_perform o r).0

-- The scheduler holds the requests, and perhaps entries that are not active.
pub record Holds (s : Scheduler) (r : Requests) : Type 0 where
  pub is_heap : IsHeap s.sequence s.heap
  pub alive : live s.active s.heap ≡ r.pending
  pub counted : s.sequence ≡ r.given_out
  pub same_thread : s.has_thread ≡ r.running
  pub same_end : s.closed ≡ r.ended

-- The same reply, and a state that holds the requests again.
abbrev pub Agrees : Scheduler × Reply → Requests × Reply → Type 0
Agrees (s, x) (r, y) = Holds s r × (x ≡ y)

pub compact-Holds : (s : Scheduler) (r : Requests) → Holds s r → Holds (compact s) r
unfolding compact
compact-Holds s r h = record {
  is_heap = compacted-IsHeap s.sequence s.active s.heap h.is_heap;
  alive = compacted-live s.sequence s.active s.heap h.is_heap ∙ h.alive;
  counted = h.counted;
  same_thread = h.same_thread;
  same_end = h.same_end;
}

abbrev pub added_to : ℕ → ℕ → Requests → Requests
added_to request_id deadline r = record r {
  pending =
      push (record { deadline = deadline; token = suc r.given_out; request_id = request_id })
        (without request_id r.pending);
  given_out = suc r.given_out;
}

pub add-Holds :
    (request_id deadline : ℕ) (s : Scheduler) (r : Requests)
    → Holds s r
    → Holds (add_entry request_id deadline s) (added_to request_id deadline r)
add-Holds request_id deadline s r h = record {
  is_heap = push-IsHeap s.sequence deadline request_id s.heap h.is_heap;
  alive = live-push s.sequence deadline request_id s.active s.heap h.is_heap ∙ moved;
  counted = ap suc (h.counted);
  same_thread = h.same_thread;
  same_end = h.same_end;
}
  where
    moved :
        push
          (record { deadline = deadline; token = suc s.sequence; request_id = request_id })
          (without request_id (live s.active s.heap))
        ≡ push
            (record { deadline = deadline; token = suc r.given_out; request_id = request_id })
            (without request_id r.pending)
    moved = rw (h.counted, h.alive) refl

pub cancel-Holds :
    (request_id : ℕ) (s : Scheduler) (r : Requests)
    → Holds s r
    → Agrees (cancel request_id s) (spec_perform (cancelling request_id) r)
unfolding cancel
cancel-Holds request_id s r h = (
  compact-Holds (record s { active = erase request_id s.active })
      (record r { pending = without request_id r.pending })
      (record {
        is_heap = h.is_heap;
        alive = live-erase request_id s.active s.heap ∙ ap (without request_id) (h.alive);
        counted = h.counted;
        same_thread = h.same_thread;
        same_end = h.same_end;
      }),
  refl,
)

pub close-Holds :
    (s : Scheduler) (r : Requests) → Holds s r → Agrees (close s) (spec_perform closing r)
unfolding close keep
close-Holds s r h = go s.closed r.ended (h.same_end) refl
  where
    go :
        (b c : Bool)
        → b ≡ c
        → s.closed ≡ b
        → Agrees
            (if b
              then (s, returned)
              else (record s { heap = []; active = []; closed = true }, returned))
            (if c then r else record r { pending = []; ended = true }, returned)
    go true true e k = (h, refl)
    go false false e k = (
      record {
        is_heap = (tt, tt, tt);
        alive = refl;
        counted = h.counted;
        same_thread = h.same_thread;
        same_end = refl;
      },
      refl,
    )
    go true false e k = absurd cc
    go false true e k = absurd cc

expire-Holds :
    (now : ℕ) (s : Scheduler) (r : Requests) (heap : List Entry)
    → IsHeap s.sequence heap
    → live s.active heap ≡ r.pending
    → HeadIsActive s.active heap
    → Holds s r
    → Agrees (expire now s heap) (spec_head now r r.pending)
unfolding keep
expire-Holds now s r [] i l a h = go r.pending l
  where
    go : (p : List Entry) → [] ≡ p → Agrees (record s { heap = [] }, waiting) (spec_head now r p)
    go [] e = (
      record {
        is_heap = i;
        alive = l;
        counted = h.counted;
        same_thread = h.same_thread;
        same_end = h.same_end;
      },
      refl,
    )
    go (x ∷ p) e = absurd cc
expire-Holds now s r (e ∷ heap) (sorted, distinct, bounded) l a h =
    transport_head r.pending (sym first ∙ l)
  where
    first : live s.active (e ∷ heap) ≡ e ∷ live s.active heap
    first = rw a refl

    due :
        (b : Bool)
        → Agrees
            (if b then (record s { heap = e ∷ heap }, waiting_until e.deadline) else (
              record s { heap = heap; active = erase e.request_id s.active },
              expired e.request_id,
            ))
            (if b
              then (r, waiting_until e.deadline)
              else (record r { pending = live s.active heap }, expired e.request_id))
    due true = (
      record {
        is_heap = (sorted, distinct, bounded);
        alive = l;
        counted = h.counted;
        same_thread = h.same_thread;
        same_end = h.same_end;
      },
      refl,
    )
    due false = (
      record {
        is_heap = (sorted.1, distinct.1, bounded.1);
        alive = live-expired s.sequence s.active e heap (sorted, distinct, bounded) a;
        counted = h.counted;
        same_thread = h.same_thread;
        same_end = h.same_end;
      },
      refl,
    )

    transport_head :
        (p : List Entry)
        → (e ∷ live s.active heap) ≡ p
        → Agrees (expire now s (e ∷ heap)) (spec_head now r p)
    transport_head p k = rw (sym k) (due (ltb now e.deadline))

pub turn-Holds :
    (now : ℕ) (s : Scheduler) (r : Requests)
    → Holds s r
    → Agrees (turn now s) (spec_perform (turning now) r)
unfolding turn
turn-Holds now s r h = go s.closed r.ended (h.same_end)
  where
    go :
        (b c : Bool)
        → b ≡ c
        → Agrees
            (if b then (s, stopped) else expire now s (drop_stale s.active s.heap))
            (if c then (r, stopped) else spec_head now r r.pending)
    go true true e = (h, refl)
    go false false e =
        let (l, i, a) = drop_stale-live s.sequence s.active s.heap h.is_heap in
        expire-Holds now s r (drop_stale s.active s.heap) i (l ∙ h.alive) a h
    go true false e = absurd cc
    go false true e = absurd cc
