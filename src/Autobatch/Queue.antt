-- ===== src/Autobatch/Queue.antt =====
-- The queue of `AutobatchFlowClient`: its counter of cancelled operations, its bound and its order.
use ferricstore_python.Base.{
  ℕ, suc, ◌+◌, ◌≡◌, ◌≤◌, refl, sym, ap, ◌∙◌, Bool, true, false, not, ◌&&◌, Option, none, some, List,
  [], ◌∷◌, ◌++◌, length, take, drop, map, ltb, leb, ◌==◌, if◌then◌else◌, arith, length-append,
  length-drop, append_assoc, append_nil, take-drop,
}
use ferricstore_python.Autobatch.{
  Op, Host, host, one_if, cancelled_in, leave_queue, take_pending_locked, behind, mark, marked,
  pending_future_done, Enqueued, accepted, waits, is_closed, enqueue, Taken, sleeps, stops, taking,
  take_batch, Event, enqueues, finishes, takes, closes, steps, numbers, taken_numbers,
  accepted_number, came_in, went_out,
}

pub record Inv (h : Host) : Type 0 where
  pub counted : h.cancelled_pending ≡ cancelled_in h.pending
  pub bounded : length h.pending ≤ h.max_pending

cancelled_in-append :
    (xs ys : List Op) → cancelled_in (xs ++ ys) ≡ cancelled_in xs + cancelled_in ys
cancelled_in-append [] ys = omega arith
cancelled_in-append (x ∷ xs) ys = omega (arith, cancelled_in-append xs ys)

numbers-append : (xs ys : List Op) → numbers (xs ++ ys) ≡ numbers xs ++ numbers ys
numbers-append [] ys = refl
numbers-append (x ∷ xs) ys = ap (λ (l : List ℕ). x.number ∷ l) (numbers-append xs ys)

numbers-leave_queue : (xs : List Op) → numbers (map leave_queue xs) ≡ numbers xs
numbers-leave_queue [] = refl
numbers-leave_queue (x ∷ xs) = ap (λ (l : List ℕ). x.number ∷ l) (numbers-leave_queue xs)

-- What marking one operation does to a queue.
abbrev Marks : List Op → Option (List Op) → Type 0
Marks os none = Unit
Marks os (some ps) =
    (cancelled_in ps ≡ cancelled_in os + 1) × (numbers ps ≡ numbers os) × (length ps ≡ length os)

mark-Marks : (number : ℕ) (os : List Op) → Marks os (mark number os)
unfolding mark
mark-Marks number [] = tt
mark-Marks number (o ∷ os) =
    go (o.number == number) (o.queued) (o.cancelled_while_queued) refl (mark number os)
      (mark-Marks number os)
  where
    deeper : (r : Option (List Op)) → Marks os r → Marks (o ∷ os) (behind o r)
    deeper none m = tt
    deeper (some ps) (c, n, l) = (omega (arith, c), ap (λ (k : List ℕ). o.number ∷ k) n, ap suc l)

    go :
        (same q c : Bool)
        → o.cancelled_while_queued ≡ c
        → (r : Option (List Op)) → Marks os r
        → Marks (o ∷ os) (
            if same
            then if q && not c then some (record o { cancelled_while_queued = true } ∷ os) else none
            else behind o r)
    go true true false e r m =
        let before : one_if o.cancelled_while_queued ≡ 0 = ap one_if e in
        (omega (arith, before), refl, refl)
    go true true true e r m = tt
    go true false c e r m = tt
    go false q c e r m = deeper r m

-- The queue after a step: what went out of it, and what came in.
abbrev Kept : List ℕ → List ℕ → Host → Host → Type 0
Kept came went h k =
    Inv k
    × (went ++ numbers k.pending ≡ numbers h.pending ++ came)
    × (k.max_pending ≡ h.max_pending)

finish-Kept :
    (number : ℕ) (cancelled : Bool) (h : Host)
    → Inv h
    → Kept [] [] h (pending_future_done number cancelled h)
unfolding pending_future_done
finish-Kept number false h inv = (inv, sym (append_nil (numbers h.pending)), refl)
finish-Kept number true h inv = go (mark number h.pending) (mark-Marks number h.pending)
  where
    go : (r : Option (List Op)) → Marks h.pending r → Kept [] [] h (marked h r)
    go none m = (inv, sym (append_nil (numbers h.pending)), refl)
    go (some ps) (c, n, l) = (
      record { counted = omega (arith, c, inv.counted); bounded = omega (arith, l, inv.bounded) },
      n ∙ sym (append_nil (numbers h.pending)),
      refl,
    )

enqueue-Kept :
    (number : ℕ) (h : Host)
    → Inv h
    → Kept (accepted_number number (enqueue number h).1) [] h (enqueue number h).0
unfolding enqueue
enqueue-Kept number h inv = go (leb h.max_pending (length h.pending)) (h.closed) refl
  where
    new : Op
    new = record { number = number; queued = true; cancelled_while_queued = false }

    After : Host × Enqueued → Type 0
    After (k, x) = Kept (accepted_number number x) [] h k

    go :
        (full c : Bool)
        → leb h.max_pending (length h.pending) ≡ full
        → After (
            if full && not c
            then (h, waits)
            else if c
            then (h, is_closed)
            else (record h { pending = h.pending ++ new ∷ [] }, accepted))
    go true false e = (inv, sym (append_nil (numbers h.pending)), refl)
    go true true e = (inv, sym (append_nil (numbers h.pending)), refl)
    go false true e = (inv, sym (append_nil (numbers h.pending)), refl)
    go false false e = (
      record {
        counted = omega (arith, inv.counted, cancelled_in-append h.pending (new ∷ []));
        bounded =
            let room : suc (length h.pending) ≤ h.max_pending = ground arith in
            omega (arith, room, length-append h.pending (new ∷ []));
      },
      numbers-append h.pending (new ∷ []),
      refl,
    )

take_pending-Kept :
    (h : Host) → Inv h → Kept [] (numbers (take_pending_locked h).0) h (take_pending_locked h).1
unfolding take_pending_locked
take_pending-Kept h inv =
    let n = h.max_batch in
    let cut = take-drop n h.pending in
    (
      record {
        counted = omega (
          arith,
          inv.counted,
          cancelled_in-append (take n h.pending) (drop n h.pending),
          ap cancelled_in cut,
        );
        bounded = omega (arith, inv.bounded, length-drop n h.pending);
      },
      ap (λ (l : List ℕ). l ++ numbers (drop n h.pending)) (numbers-leave_queue (take n h.pending))
          ∙ sym (numbers-append (take n h.pending) (drop n h.pending))
          ∙ ap numbers cut
          ∙ sym (append_nil (numbers h.pending)),
      refl,
    )

take-Kept :
    (due : Bool) (h : Host)
    → Inv h
    → Kept [] (taken_numbers (take_batch due h).1) h (take_batch due h).0
unfolding take_batch
take-Kept due h inv =
    go (length h.pending == 0) (h.closed) (
      ltb (length h.pending) h.max_batch && (not h.closed && (h.cancelled_pending == 0 && not due)))
  where
    After : Host × Taken → Type 0
    After (k, x) = Kept [] (taken_numbers x) h k

    go :
        (empty c early : Bool)
        → After (
            if empty
            then (if c then (h, stops) else (h, sleeps))
            else if early
            then (h, sleeps)
            else taking (take_pending_locked h))
    go true true early = (inv, sym (append_nil (numbers h.pending)), refl)
    go true false early = (inv, sym (append_nil (numbers h.pending)), refl)
    go false c true = (inv, sym (append_nil (numbers h.pending)), refl)
    go false c false = take_pending-Kept h inv

-- One step and what follows it.
join :
    (came came' went went' xs ys zs : List ℕ)
    → went ++ ys ≡ xs ++ came
    → went' ++ zs ≡ ys ++ came'
    → (went ++ went') ++ zs ≡ xs ++ (came ++ came')
join came came' went went' xs ys zs a b =
    append_assoc went went' zs
    ∙ ap (λ (l : List ℕ). went ++ l) b
    ∙ sym (append_assoc went ys came')
    ∙ ap (λ (l : List ℕ). l ++ came') a
    ∙ append_assoc xs came came'

then_Kept :
    (came came' went went' : List ℕ) (h k l : Host)
    → Kept came went h k
    → Kept came' went' k l
    → Kept (came ++ came') (went ++ went') h l
then_Kept came came' went went' h k l (inv, a, m) (inv', b, m') = (
  inv',
  join came came' went went' (numbers h.pending) (numbers k.pending) (numbers l.pending) a b,
  m' ∙ m,
)

steps-Kept :
    (es : List Event) (h : Host) → Inv h → Kept (came_in es h) (went_out es h) h (steps es h)
steps-Kept [] h inv = (inv, sym (append_nil (numbers h.pending)), refl)
steps-Kept (enqueues number ∷ es) h inv =
    let k = enqueue-Kept number h inv in
    then_Kept (accepted_number number (enqueue number h).1) (came_in es (enqueue number h).0) []
      (went_out es (enqueue number h).0) h (enqueue number h).0 (steps es (enqueue number h).0) k
      (steps-Kept es (enqueue number h).0 k.0)
steps-Kept (finishes number cancelled ∷ es) h inv =
    let next = pending_future_done number cancelled h in
    let k = finish-Kept number cancelled h inv in
    then_Kept [] (came_in es next) [] (went_out es next) h next (steps es next) k
      (steps-Kept es next k.0)
steps-Kept (takes due ∷ es) h inv =
    let next = (take_batch due h).0 in
    let k = take-Kept due h inv in
    then_Kept [] (came_in es next) (taken_numbers (take_batch due h).1) (went_out es next) h next
      (steps es next) k (steps-Kept es next k.0)
steps-Kept (closes ∷ es) h inv =
    let next : Host = record h { closed = true } in
    let inv' : Inv next = record { counted = inv.counted; bounded = inv.bounded } in
    let k : Kept [] [] h next = (inv', sym (append_nil (numbers h.pending)), refl) in
    then_Kept [] (came_in es next) [] (went_out es next) h next (steps es next) k
      (steps-Kept es next inv')

-- In any history of a new queue, the operations that it accepted are, in their order, those put into batches
-- and those still pending; its counter is the number of cancelled ones that are pending, and no more are
-- pending than its bound.
pub queue-Kept :
    (max_batch max_pending : ℕ) (es : List Event)
    → (went_out es (host max_batch max_pending)
          ++ numbers (steps es (host max_batch max_pending)).pending
        ≡ came_in es (host max_batch max_pending))
      × ((steps es (host max_batch max_pending)).cancelled_pending
          ≡ cancelled_in (steps es (host max_batch max_pending)).pending)
      × (length (steps es (host max_batch max_pending)).pending ≤ max_pending)
queue-Kept max_batch max_pending es =
    let (inv, order, bound) =
      steps-Kept es (host max_batch max_pending)
        (record { counted = refl; bounded = omega arith }) in
    (order, inv.counted, omega (arith, inv.bounded, bound))
