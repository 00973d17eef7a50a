-- ===== src/Deadlines/Histories.antt =====
-- Histories of `SyncDeadlineScheduler`: scheduling, and any operations one after another.
use ferricstore_python.Base.{
  ℕ, suc, ◌≡◌, ◌≤◌, refl, sym, ap, ◌∙◌, Bool, true, false, not, List, [], ◌∷◌, ◌==◌, if◌then◌else◌,
  All, arith, ==_refl, ◌&&◌,
}
use ferricstore_python.Base.Assoc.{nat_eq, lookup, erase, lookup-insert}
use ferricstore_python.Deadlines.{
  Entry, push, heapify, keep, Scheduler, scheduler, has_token, is_active, compact, scheduler_closed,
  Start, thread_starts, thread_raises_with_ident, thread_raises, start_thread, Reply, returned,
  raised, add_entry, take_back, schedule, Operation, scheduling, cancelling, closing, turning,
  perform, perform_all, replies,
}
use ferricstore_python.Deadlines.Heap.{
  keep-push_out, keep_comm, All-keep, heapify-sorted, keep-IsSorted, keep-IsDistinct, keep-keep,
  keep-agree,
}
use ferricstore_python.Deadlines.Live.{live, without, All-map, keep-IsHeap, live-erase}
use ferricstore_python.Deadlines.Refinement.{
  Requests, no_requests, spec_start, spec_perform, spec_replies, Holds, Agrees, added_to,
  compact-Holds, add-Holds, cancel-Holds, close-Holds, turn-Holds,
}

module _ (request_id deadline : ℕ) (s : Scheduler) (r : Requests) (h : Holds s r) where
  abbrev added : Scheduler
  added = compact (add_entry request_id deadline s)

  added-Holds : Holds added (added_to request_id deadline r)
  added-Holds =
      compact-Holds (add_entry request_id deadline s) (added_to request_id deadline r)
        (add-Holds request_id deadline s r h)

  taken : Entry → Bool
  taken e = not (e.token == suc s.sequence)

  pending_bounded : All (λ e. e.token ≤ s.sequence) r.pending
  pending_bounded = go r.pending (h.alive)
    where
      go : (p : List Entry) → live s.active s.heap ≡ p → All (λ e. e.token ≤ s.sequence) p
      go p e =
          rw (sym e)
            (All-keep (λ e. e.token ≤ s.sequence) (is_active s.active) s.heap (h.is_heap.2))

  other : Entry → Bool
  other e = not (e.request_id == request_id)

  -- Taking the new entry out again leaves the requests without the one that it replaced.
  taken-live :
      (A : List (ℕ × ℕ)) (H : List Entry)
      → live A H ≡ (added_to request_id deadline r).pending
      → without request_id (live A (keep taken H)) ≡ without request_id r.pending
  unfolding taken other
  taken-live A H l =
      let e : Entry = record {
        deadline = deadline;
        token = suc r.given_out;
        request_id = request_id;
      } in
      ap (without request_id) (keep_comm (is_active A) taken H ∙ ap (keep taken) l)
      ∙ keep-keep other taken (push e (without request_id r.pending))
      ∙ keep-push_out (λ y. other y && taken y) e (without request_id r.pending)
          (rw (==_refl request_id) refl)
      ∙ keep-keep (λ y. other y && taken y) other r.pending
      ∙ keep-agree (λ y. (other y && taken y) && other y) other r.pending
          (All-map r.pending kept pending_bounded)
    where
      kept : (y : Entry) → y.token ≤ s.sequence → ((other y && taken y) && other y) ≡ other y
      kept y b = go (other y) (taken y) (ground arith)
        where
          go : (a t : Bool) → t ≡ true → ((a && t) && a) ≡ a
          go true true k = refl
          go false t k = refl
          go true false k = absurd cc

  back_active :
      (if has_token (lookup request_id added.active) (suc s.sequence)
        then erase request_id added.active
        else added.active)
      ≡ erase request_id added.active
  unfolding compact
  back_active =
      rw
        (
          lookup-insert request_id request_id (suc s.sequence) s.active,
          ==_refl request_id,
          ==_refl (suc s.sequence),
        )
        refl

  back_heap : heapify (keep taken added.heap) ≡ keep taken added.heap
  back_heap =
      let (sorted, distinct, bounded) = added-Holds.is_heap in
      heapify-sorted (keep taken added.heap) (keep-IsSorted taken added.heap sorted)
        (keep-IsDistinct taken added.heap distinct)

  take_back-Holds :
      Holds
        (take_back request_id (suc s.sequence) added)
        (record r { pending = without request_id r.pending; given_out = suc r.given_out })
  unfolding taken
  take_back-Holds = record {
    is_heap = rw back_heap (keep-IsHeap taken added.sequence added.heap (added-Holds.is_heap));
    alive =
        ap (λ active. live active (heapify (keep taken added.heap))) back_active
        ∙ live-erase request_id added.active (heapify (keep taken added.heap))
        ∙ ap (λ heap. without request_id (live added.active heap)) back_heap
        ∙ taken-live added.active added.heap (added-Holds.alive);
    counted = added-Holds.counted;
    same_thread = added-Holds.same_thread;
    same_end = added-Holds.same_end;
  }

  schedule-Holds :
      (starts : Start)
      → Agrees
          (schedule starts request_id deadline s)
          (spec_perform (scheduling starts request_id deadline) r)
  unfolding schedule
  schedule-Holds starts =
      go s.closed r.ended (h.same_end) s.has_thread r.running (h.same_thread) starts
    where
      go :
          (b c : Bool)
          → b ≡ c
          → (t u : Bool) → t ≡ u
          → (starts : Start)
          → Agrees
              (if b
                then (s, raised scheduler_closed)
                else if t
                then (added, returned)
                else start_thread starts request_id (suc s.sequence) added)
              (if c
                then (r, raised scheduler_closed)
                else if u
                then (added_to request_id deadline r, returned)
                else spec_start starts request_id r (added_to request_id deadline r))
      go true true e t u f starts = (h, refl)
      go true false e t u f starts = absurd cc
      go false true e t u f starts = absurd cc
      go false false e true true f starts = (added-Holds, refl)
      go false false e true false f starts = absurd cc
      go false false e false true f starts = absurd cc
      go false false e false false f thread_starts = (
        record {
          is_heap = added-Holds.is_heap;
          alive = added-Holds.alive;
          counted = added-Holds.counted;
          same_thread = refl;
          same_end = added-Holds.same_end;
        },
        refl,
      )
      go false false e false false f thread_raises_with_ident = (
        record {
          is_heap = added-Holds.is_heap;
          alive = added-Holds.alive;
          counted = added-Holds.counted;
          same_thread = refl;
          same_end = added-Holds.same_end;
        },
        refl,
      )
      go false false e false false f thread_raises = (take_back-Holds, refl)

perform-Holds :
    (o : Operation) (s : Scheduler) (r : Requests)
    → Holds s r
    → Agrees (perform o s) (spec_perform o r)
perform-Holds (scheduling starts request_id deadline) s r h =
    schedule-Holds request_id deadline s r h starts
perform-Holds (cancelling request_id) s r h = cancel-Holds request_id s r h
perform-Holds closing s r h = close-Holds s r h
perform-Holds (turning now) s r h = turn-Holds now s r h

replies-agree :
    (os : List Operation) (s : Scheduler) (r : Requests)
    → Holds s r
    → replies os s ≡ spec_replies os r
replies-agree [] s r h = refl
replies-agree (o ∷ os) s r h =
    let (next, same) = perform-Holds o s r h in
    ap (λ x. x ∷ replies os (perform o s).0) same
    ∙ ap (λ (l : List Reply). (spec_perform o r).1 ∷ l)
        (replies-agree os (perform o s).0 (spec_perform o r).0 next)

pub scheduler-Holds : Holds scheduler no_requests
unfolding keep
scheduler-Holds = record {
  is_heap = (tt, tt, tt);
  alive = refl;
  counted = refl;
  same_thread = refl;
  same_end = refl;
}

-- Whatever is scheduled, cancelled, closed and waited for, in any order, threads that do not start included:
-- a new scheduler replies as its specification does, a list with one deadline for each request that
-- awaits it, from which the earliest expires, when it is due and never after it was cancelled.
pub deadline_replies-spec_replies :
    (os : List Operation) → replies os scheduler ≡ spec_replies os no_requests
deadline_replies-spec_replies os = replies-agree os scheduler no_requests scheduler-Holds

pub perform_all-Holds :
    (os : List Operation) (s : Scheduler) (r : Requests)
    → Holds s r
    → (t : Requests) × Holds (perform_all os s) t
perform_all-Holds [] s r h = (r, h)
perform_all-Holds (o ∷ os) s r h =
    perform_all-Holds os (perform o s).0 (spec_perform o r).0 (perform-Holds o s r h).0
