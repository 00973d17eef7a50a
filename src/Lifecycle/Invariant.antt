-- ===== src/Lifecycle/Invariant.antt =====
-- `SyncCloseCoordinator`: its invariant, which every step of every thread keeps.
use ferricstore_python.Base.{
  ℕ, ◌+◌, ◌-◌, ◌≡◌, ◌≤◌, refl, ap, ◌∙◌, Bool, true, false, Option, none, some, List, [], ◌∷◌, ◌==◌,
  ==_iff, Bool-cases, inl, inr, get_elem?, set, if◌then◌else◌, arith,
}
use ferricstore_python.Lifecycle.Coordinator.{
  Shared, Place, outside, wants_close, waits_close, draining, waits_drain, Move, blocked, continues,
  notifies, wake_all, in_close, wants_open, operating, Choice, calls_run, calls_run_while_open,
  close_returns, close_raises, from_outside, from_close, move, System, moved, step_from, step,
  steps, system,
}
use ferricstore_python.Lifecycle.Threads.{
  sum, sum-set, sum-at, sum-replicate, sum-le, sum-wake_all, sum-woken, get_elem?-wake_all,
}
use ferricstore_python.Lifecycle.Weights.{
  bit, shuts, closes, operates, sleeps_close, sleeps_drain, shuts-wake, closes-wake, operates-wake,
  close-woken, drain-woken, closes_le,
}

pub record Inv (s : Shared) (ts : List Place) : Type 0 where
  pub shutting : sum shuts ts ≡ bit s.running
  pub counted : sum operates ts ≡ s.open_operations
  pub quiet : 1 ≤ sum closes ts → s.open_operations ≡ 0
  pub begun : s.running ≡ true → s.started ≡ true
  pub ended : s.complete ≡ true → s.running ≡ false
  pub over : s.complete ≡ true → s.started ≡ true
  pub closers : 1 ≤ sum sleeps_close ts → s.running ≡ true
  pub drainers : 1 ≤ sum sleeps_drain ts → 1 ≤ s.open_operations

abbrev MovedInv : ℕ → List Place → Move → Type 0
MovedInv i ts blocked = Unit
MovedInv i ts (continues q t) = Inv t (set ts i q)
MovedInv i ts (notifies q t) = Inv t (set (wake_all ts) i q)

-- Behind `notify_all`, the invariant holds and nobody sleeps.
woken-Inv : (s : Shared) (ts : List Place) → Inv s ts → Inv s (wake_all ts)
woken-Inv s ts inv = record {
  shutting = sum-wake_all shuts ts shuts-wake ∙ inv.shutting;
  counted = sum-wake_all operates ts operates-wake ∙ inv.counted;
  quiet = λ h. inv.quiet (omega (arith, h, sum-wake_all closes ts closes-wake));
  begun = inv.begun;
  ended = inv.ended;
  over = inv.over;
  closers = λ h. absurd (omega (arith, h, sum-woken sleeps_close ts close-woken));
  drainers = λ h. absurd (omega (arith, h, sum-woken sleeps_drain ts drain-woken));
}

module _ (i : ℕ) (ts : List Place) (s : Shared) (inv : Inv s ts) where
  pub shuts-running : 1 ≤ sum shuts ts → s.running ≡ true
  shuts-running h = go s.running refl
    where
      go : (b : Bool) → s.running ≡ b → b ≡ true
      go true e = refl
      go false e =
          let none_shuts : sum shuts ts ≡ bit false = inv.shutting ∙ ap bit e in
          absurd (omega (arith, h, none_shuts))

  pub closing-one : get_elem? ts i ≡ some in_close → sum shuts ts ≡ 1
  closing-one at = inv.shutting ∙ ap bit (shuts-running (sum-at shuts ts i in_close at))

  -- A step between places of the same weights changes none of the sums.
  same_weights :
      (p q : Place)
      → get_elem? ts i ≡ some p
      → shuts p ≡ shuts q
      → closes p ≡ closes q
      → operates p ≡ operates q
      → (1 ≤ sleeps_close q → s.running ≡ true)
      → (1 ≤ sleeps_drain q → 1 ≤ s.open_operations)
      → Inv s (set ts i q)
  same_weights p q at a b c d e = record {
    shutting = omega (arith, sum-set shuts ts i p q at, a, inv.shutting);
    counted = omega (arith, sum-set operates ts i p q at, c, inv.counted);
    quiet = λ h. inv.quiet (omega (arith, h, sum-set closes ts i p q at, b));
    begun = inv.begun;
    ended = inv.ended;
    over = inv.over;
    closers = λ h. elim (Bool-cases (sleeps_close q == 0)) [
      | inl z ↦ inv.closers (omega (arith, h, sum-set sleeps_close ts i p q at, (==_iff _ _).0 z))
      | inr z ↦ d (ground (arith, z))
    ];
    drainers = λ h. elim (Bool-cases (sleeps_drain q == 0)) [
      | inl z ↦ inv.drainers (omega (arith, h, sum-set sleeps_drain ts i p q at, (==_iff _ _).0 z))
      | inr z ↦ e (ground (arith, z))
    ];
  }

  -- The same for a place where no thread sleeps.
  awake_weights :
      (p q : Place)
      → get_elem? ts i ≡ some p
      → shuts p ≡ shuts q
      → closes p ≡ closes q
      → operates p ≡ operates q
      → sleeps_close q ≡ 0
      → sleeps_drain q ≡ 0
      → Inv s (set ts i q)
  awake_weights p q at a b c d e =
      same_weights p q at a b c (λ h. absurd (omega (arith, h, d)))
        (λ h. absurd (omega (arith, h, e)))

  outside-Inv : (c : Choice) → get_elem? ts i ≡ some outside → MovedInv i ts (from_outside c s)
  outside-Inv calls_run at = awake_weights outside wants_close at refl refl refl refl refl
  outside-Inv calls_run_while_open at = awake_weights outside wants_open at refl refl refl refl refl
  outside-Inv close_returns at = tt
  outside-Inv close_raises at = tt

  wants_close-Inv :
      (b c : Bool)
      → s.running ≡ b
      → s.complete ≡ c
      → get_elem? ts i ≡ some wants_close
      → MovedInv i ts (
          if b
          then continues waits_close s
          else if c
          then continues outside s
          else continues draining (record s { started = true; running = true }))
  wants_close-Inv true c e f at =
      same_weights wants_close waits_close at refl refl refl (λ _. e)
        (λ h. absurd (omega (arith, h)))
  wants_close-Inv false true e f at = awake_weights wants_close outside at refl refl refl refl refl
  wants_close-Inv false false e f at = record {
    shutting =
        let none_shuts : sum shuts ts ≡ bit false = inv.shutting ∙ ap bit e in
        omega (arith, sum-set shuts ts i wants_close draining at, none_shuts);
    counted = omega (arith, sum-set operates ts i wants_close draining at, inv.counted);
    quiet = λ h. inv.quiet (omega (arith, h, sum-set closes ts i wants_close draining at));
    begun = λ _. refl;
    ended = λ h. absurd cc;
    over = λ _. refl;
    closers = λ _. refl;
    drainers =
        λ h. inv.drainers (omega (arith, h, sum-set sleeps_drain ts i wants_close draining at));
  }

  draining-Inv :
      (b : Bool)
      → (s.open_operations == 0) ≡ b
      → get_elem? ts i ≡ some draining
      → MovedInv i ts (if b then continues in_close s else continues waits_drain s)
  draining-Inv false e at =
      same_weights draining waits_drain at refl refl refl (λ h. absurd (omega (arith, h)))
        (λ _. ground (arith, e))
  draining-Inv true e at = record {
    shutting = omega (arith, sum-set shuts ts i draining in_close at, inv.shutting);
    counted = omega (arith, sum-set operates ts i draining in_close at, inv.counted);
    quiet = λ _. (==_iff s.open_operations 0).0 e;
    begun = inv.begun;
    ended = inv.ended;
    over = inv.over;
    closers = λ h. inv.closers (omega (arith, h, sum-set sleeps_close ts i draining in_close at));
    drainers = λ h. inv.drainers (omega (arith, h, sum-set sleeps_drain ts i draining in_close at));
  }

  wants_open-Inv :
      (b : Bool)
      → s.started ≡ b
      → get_elem? ts i ≡ some wants_open
      → MovedInv i ts (
          if b
          then continues outside s
          else continues operating (record s { open_operations = s.open_operations + 1 }))
  wants_open-Inv true e at = awake_weights wants_open outside at refl refl refl refl refl
  wants_open-Inv false e at = record {
    shutting = omega (arith, sum-set shuts ts i wants_open operating at, inv.shutting);
    counted = omega (arith, sum-set operates ts i wants_open operating at, inv.counted);
    quiet = λ h.
        let more : 1 ≤ sum shuts ts = omega (
          arith,
          h,
          sum-set closes ts i wants_open operating at,
          sum-le closes shuts ts closes_le,
        ) in
        let began = inv.begun (shuts-running more) in absurd cc;
    begun = inv.begun;
    ended = inv.ended;
    over = inv.over;
    closers =
        λ h. inv.closers (omega (arith, h, sum-set sleeps_close ts i wants_open operating at));
    drainers = λ _. omega arith;
  }

  module _ (no_closer : sum sleeps_close ts ≡ 0) (no_drainer : sum sleeps_drain ts ≡ 0) where
    closed-Inv :
        get_elem? ts i ≡ some in_close
        → (b : Bool) → (b ≡ true → s.started ≡ true)
        → Inv (record s { complete = b; running = false }) (set ts i outside)
    closed-Inv at b began = record {
      shutting = omega (arith, sum-set shuts ts i in_close outside at, closing-one at);
      counted = omega (arith, sum-set operates ts i in_close outside at, inv.counted);
      quiet = λ h. inv.quiet (omega (arith, h, sum-set closes ts i in_close outside at));
      begun = λ h. absurd cc;
      ended = λ _. refl;
      over = began;
      closers =
          λ h. absurd (omega (arith, h, sum-set sleeps_close ts i in_close outside at, no_closer));
      drainers =
          λ h. absurd (omega (arith, h, sum-set sleeps_drain ts i in_close outside at, no_drainer));
    }

    operated-Inv :
        get_elem? ts i ≡ some operating
        → Inv (record s { open_operations = s.open_operations - 1 }) (set ts i outside)
    operated-Inv at = record {
      shutting = omega (arith, sum-set shuts ts i operating outside at, inv.shutting);
      counted = omega (
        arith,
        sum-set operates ts i operating outside at,
        inv.counted,
        sum-at operates ts i operating at,
      );
      quiet = λ h.
          let z = inv.quiet (omega (arith, h, sum-set closes ts i operating outside at)) in
          omega (arith, z);
      begun = inv.begun;
      ended = inv.ended;
      over = inv.over;
      closers =
          λ h. absurd (omega (arith, h, sum-set sleeps_close ts i operating outside at, no_closer));
      drainers = λ h.
          absurd (omega (arith, h, sum-set sleeps_drain ts i operating outside at, no_drainer));
    }

module _ (i : ℕ) (ts : List Place) (s : Shared) (inv : Inv s ts) where
  in_close-Inv : (c : Choice) → get_elem? ts i ≡ some in_close → MovedInv i ts (from_close c s)
  in_close-Inv calls_run at = tt
  in_close-Inv calls_run_while_open at = tt
  in_close-Inv close_returns at =
      closed-Inv i (wake_all ts) s (woken-Inv s ts inv) (sum-woken sleeps_close ts close-woken)
        (sum-woken sleeps_drain ts drain-woken) (get_elem?-wake_all ts i in_close at) true
        (λ _. inv.begun (shuts-running i ts s inv (sum-at shuts ts i in_close at)))
  in_close-Inv close_raises at =
      closed-Inv i (wake_all ts) s (woken-Inv s ts inv) (sum-woken sleeps_close ts close-woken)
        (sum-woken sleeps_drain ts drain-woken) (get_elem?-wake_all ts i in_close at) s.complete
        inv.over

  operating-Inv :
      get_elem? ts i ≡ some operating
      → Inv (record s { open_operations = s.open_operations - 1 }) (set (wake_all ts) i outside)
  operating-Inv at =
      operated-Inv i (wake_all ts) s (woken-Inv s ts inv) (sum-woken sleeps_close ts close-woken)
        (sum-woken sleeps_drain ts drain-woken) (get_elem?-wake_all ts i operating at)

  move-Inv : (p : Place) (c : Choice) → get_elem? ts i ≡ some p → MovedInv i ts (move p c s)
  unfolding move
  move-Inv outside c at = outside-Inv i ts s inv c at
  move-Inv wants_close c at = wants_close-Inv i ts s inv s.running s.complete refl refl at
  move-Inv waits_close c at = tt
  move-Inv draining c at = draining-Inv i ts s inv (s.open_operations == 0) refl at
  move-Inv waits_drain c at = tt
  move-Inv in_close c at = in_close-Inv c at
  move-Inv wants_open c at = wants_open-Inv i ts s inv s.started refl at
  move-Inv operating c at = operating-Inv at

moved-Inv :
    (i : ℕ) (w : System) (m : Move)
    → Inv w.shared w.threads
    → MovedInv i w.threads m
    → Inv (moved i w m).shared (moved i w m).threads
moved-Inv i w blocked inv h = inv
moved-Inv i w (continues q t) inv h = h
moved-Inv i w (notifies q t) inv h = h

step-Inv :
    (i : ℕ) (c : Choice) (w : System)
    → Inv w.shared w.threads
    → Inv (step i c w).shared (step i c w).threads
unfolding step
step-Inv i c w inv = go (get_elem? w.threads i) refl
  where
    go :
        (o : Option Place)
        → get_elem? w.threads i ≡ o
        → Inv (step_from i c w o).shared (step_from i c w o).threads
    go none e = inv
    go (some p) e = moved-Inv i w (move p c w.shared) inv (move-Inv i w.threads w.shared inv p c e)

pub steps-Inv :
    (cs : List (ℕ × Choice)) (w : System)
    → Inv w.shared w.threads
    → Inv (steps cs w).shared (steps cs w).threads
steps-Inv [] w inv = inv
steps-Inv ((i, c) ∷ cs) w inv = steps-Inv cs (step i c w) (step-Inv i c w inv)

pub system-Inv : (n : ℕ) → Inv (system n).shared (system n).threads
system-Inv n = record {
  shutting = sum-replicate shuts n outside refl;
  counted = sum-replicate operates n outside refl;
  quiet = λ _. refl;
  begun = λ h. absurd cc;
  ended = λ h. absurd cc;
  over = λ h. absurd cc;
  closers = λ h. absurd (omega (arith, h, sum-replicate sleeps_close n outside refl));
  drainers = λ h. absurd (omega (arith, h, sum-replicate sleeps_drain n outside refl));
}
