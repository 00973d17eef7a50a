-- ===== src/Lifecycle/Weights.antt =====
-- `SyncCloseCoordinator`: what a thread counts for at its place.
use ferricstore_python.Base.{ℕ, ◌≡◌, ◌≤◌, refl, Bool, true, false, arith}
use ferricstore_python.Lifecycle.Coordinator.{
  Place, outside, wants_close, waits_close, draining, waits_drain, in_close, wants_open, operating,
  wake,
}

abbrev pub bit : Bool → ℕ
bit true = 1
bit false = 0

-- A thread that shuts down, one that runs `close()`, and one that runs an operation.
abbrev pub shuts : Place → ℕ
shuts draining = 1
shuts waits_drain = 1
shuts in_close = 1
shuts _ = 0

abbrev pub closes : Place → ℕ
closes in_close = 1
closes _ = 0

abbrev pub operates : Place → ℕ
operates operating = 1
operates _ = 0

-- A thread that sleeps in the first loop of `run`, and one that sleeps in the second.
abbrev pub sleeps_close : Place → ℕ
sleeps_close waits_close = 1
sleeps_close _ = 0

abbrev pub sleeps_drain : Place → ℕ
sleeps_drain waits_drain = 1
sleeps_drain _ = 0

pub shuts-wake : (p : Place) → shuts (wake p) ≡ shuts p
shuts-wake outside = refl
shuts-wake wants_close = refl
shuts-wake waits_close = refl
shuts-wake draining = refl
shuts-wake waits_drain = refl
shuts-wake in_close = refl
shuts-wake wants_open = refl
shuts-wake operating = refl

pub closes-wake : (p : Place) → closes (wake p) ≡ closes p
closes-wake outside = refl
closes-wake wants_close = refl
closes-wake waits_close = refl
closes-wake draining = refl
closes-wake waits_drain = refl
closes-wake in_close = refl
closes-wake wants_open = refl
closes-wake operating = refl

pub operates-wake : (p : Place) → operates (wake p) ≡ operates p
operates-wake outside = refl
operates-wake wants_close = refl
operates-wake waits_close = refl
operates-wake draining = refl
operates-wake waits_drain = refl
operates-wake in_close = refl
operates-wake wants_open = refl
operates-wake operating = refl

pub close-woken : (p : Place) → sleeps_close (wake p) ≡ 0
close-woken outside = refl
close-woken wants_close = refl
close-woken waits_close = refl
close-woken draining = refl
close-woken waits_drain = refl
close-woken in_close = refl
close-woken wants_open = refl
close-woken operating = refl

pub drain-woken : (p : Place) → sleeps_drain (wake p) ≡ 0
drain-woken outside = refl
drain-woken wants_close = refl
drain-woken waits_close = refl
drain-woken draining = refl
drain-woken waits_drain = refl
drain-woken in_close = refl
drain-woken wants_open = refl
drain-woken operating = refl

pub closes_le : (p : Place) → closes p ≤ shuts p
closes_le outside = omega arith
closes_le wants_close = omega arith
closes_le waits_close = omega arith
closes_le draining = omega arith
closes_le waits_drain = omega arith
closes_le in_close = omega arith
closes_le wants_open = omega arith
closes_le operating = omega arith
