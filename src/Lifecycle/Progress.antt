-- ===== src/Lifecycle/Progress.antt =====
-- `SyncCloseCoordinator`: who can step when threads wait, and that no wake-up is lost.
use ferricstore_python.Base.{
  ℕ, ◌≡◌, ◌≢◌, ◌≤◌, refl, ap, ◌∙◌, Bool, true, false, some, List, ◌==◌, get_elem?, if_true,
  if_false, arith,
}
use ferricstore_python.Lifecycle.Coordinator.{
  Shared, Place, outside, wants_close, waits_close, draining, waits_drain, in_close, wants_open,
  operating, Choice, calls_run, close_returns, Move, blocked, continues, notifies, move, steps,
  system,
}
use ferricstore_python.Lifecycle.Threads.{sum, sum-some, sum-at}
use ferricstore_python.Lifecycle.Weights.{bit, shuts, operates, sleeps_close, sleeps_drain}
use ferricstore_python.Lifecycle.Invariant.{Inv, steps-Inv, system-Inv}

-- A step that does not end asleep.
abbrev pub progresses : Move → Bool
progresses blocked = false
progresses (continues waits_close t) = false
progresses (continues waits_drain t) = false
progresses (continues q t) = true
progresses (notifies q t) = true

-- A thread that is in a call and can step on, without going to sleep.
abbrev pub CanStep : Shared → List Place → Type 0
CanStep s ts =
    (j : ℕ) × (p : Place) × (c : Choice) × (get_elem? ts j ≡ some p)
    × (p ≢ outside)
    × (progresses (move p c s) ≡ true)

module _ (s : Shared) (ts : List Place) (inv : Inv s ts) where
  operating-CanStep : (i : ℕ) → get_elem? ts i ≡ some operating → CanStep s ts
  unfolding move
  operating-CanStep i at = (i, operating, calls_run, at, λ e. absurd cc, refl)

  operates-CanStep : (j : ℕ) (p : Place) → get_elem? ts j ≡ some p → 1 ≤ operates p → CanStep s ts
  operates-CanStep j operating at h = operating-CanStep j at
  operates-CanStep j outside at h = absurd (omega (arith, h))
  operates-CanStep j wants_close at h = absurd (omega (arith, h))
  operates-CanStep j waits_close at h = absurd (omega (arith, h))
  operates-CanStep j draining at h = absurd (omega (arith, h))
  operates-CanStep j waits_drain at h = absurd (omega (arith, h))
  operates-CanStep j in_close at h = absurd (omega (arith, h))
  operates-CanStep j wants_open at h = absurd (omega (arith, h))

  open-CanStep : 1 ≤ s.open_operations → CanStep s ts
  open-CanStep h =
      let (j, p, at, more) = sum-some operates ts (omega (arith, h, inv.counted)) in
      operates-CanStep j p at more

  in_close-CanStep : (i : ℕ) → get_elem? ts i ≡ some in_close → CanStep s ts
  unfolding move
  in_close-CanStep i at = (i, in_close, close_returns, at, λ e. absurd cc, refl)

  draining-CanStep : (i : ℕ) → get_elem? ts i ≡ some draining → CanStep s ts
  unfolding move
  draining-CanStep i at = go (s.open_operations == 0) refl
    where
      go : (b : Bool) → (s.open_operations == 0) ≡ b → CanStep s ts
      go true e = (i, draining, calls_run, at, λ e. absurd cc, ap progresses (if_true _ _ _ e))
      go false e = open-CanStep (ground arith)

  waits_drain-CanStep : (i : ℕ) → get_elem? ts i ≡ some waits_drain → CanStep s ts
  waits_drain-CanStep i at = open-CanStep (inv.drainers (sum-at sleeps_drain ts i waits_drain at))

  shuts-CanStep : (j : ℕ) (p : Place) → get_elem? ts j ≡ some p → 1 ≤ shuts p → CanStep s ts
  shuts-CanStep j draining at h = draining-CanStep j at
  shuts-CanStep j waits_drain at h = waits_drain-CanStep j at
  shuts-CanStep j in_close at h = in_close-CanStep j at
  shuts-CanStep j outside at h = absurd (omega (arith, h))
  shuts-CanStep j wants_close at h = absurd (omega (arith, h))
  shuts-CanStep j waits_close at h = absurd (omega (arith, h))
  shuts-CanStep j wants_open at h = absurd (omega (arith, h))
  shuts-CanStep j operating at h = absurd (omega (arith, h))

  running-CanStep : s.running ≡ true → CanStep s ts
  running-CanStep e =
      let busy : sum shuts ts ≡ 1 = inv.shutting ∙ ap bit e in
      let (j, p, at, more) = sum-some shuts ts (omega (arith, busy)) in shuts-CanStep j p at more

  wants_close-CanStep : (i : ℕ) → get_elem? ts i ≡ some wants_close → CanStep s ts
  unfolding move
  wants_close-CanStep i at = go s.running s.complete refl refl
    where
      go : (b c : Bool) → s.running ≡ b → s.complete ≡ c → CanStep s ts
      go true c e f = running-CanStep e
      go false true e f = (
        i,
        wants_close,
        calls_run,
        at,
        λ e. absurd cc,
        ap progresses (if_false s.running _ _ e ∙ if_true s.complete _ _ f),
      )
      go false false e f = (
        i,
        wants_close,
        calls_run,
        at,
        λ e. absurd cc,
        ap progresses (if_false s.running _ _ e ∙ if_false s.complete _ _ f),
      )

  wants_open-CanStep : (i : ℕ) → get_elem? ts i ≡ some wants_open → CanStep s ts
  unfolding move
  wants_open-CanStep i at = go s.started refl
    where
      go : (b : Bool) → s.started ≡ b → CanStep s ts
      go true e =
          (i, wants_open, calls_run, at, λ e. absurd cc, ap progresses (if_true s.started _ _ e))
      go false e =
          (i, wants_open, calls_run, at, λ e. absurd cc, ap progresses (if_false s.started _ _ e))

  any-CanStep : (i : ℕ) (p : Place) → get_elem? ts i ≡ some p → p ≢ outside → CanStep s ts
  any-CanStep i outside at h = absurd (h refl)
  any-CanStep i wants_close at h = wants_close-CanStep i at
  any-CanStep i waits_close at h =
      running-CanStep (inv.closers (sum-at sleeps_close ts i waits_close at))
  any-CanStep i draining at h = draining-CanStep i at
  any-CanStep i waits_drain at h = waits_drain-CanStep i at
  any-CanStep i in_close at h = in_close-CanStep i at
  any-CanStep i wants_open at h = wants_open-CanStep i at
  any-CanStep i operating at h = operating-CanStep i at

-- In any schedule of any number of threads that call the coordinator from outside only: while a thread is in a
-- call of it, asleep included, some thread that is in one can take a step that does not end asleep, where
-- a `close()` that runs may return. A thread asleep steps only after another one has notified it.
pub no_deadlock :
    (n : ℕ) (cs : List (ℕ × Choice)) (i : ℕ) (p : Place)
    → get_elem? (steps cs (system n)).threads i ≡ some p
    → p ≢ outside
    → CanStep (steps cs (system n)).shared (steps cs (system n)).threads
no_deadlock n cs i p at h =
    any-CanStep (steps cs (system n)).shared (steps cs (system n)).threads
      (steps-Inv cs (system n) (system-Inv n)) i p at h
