-- ===== src/Lifecycle/Tests.antt =====
-- The theorems on shutdown, with two threads and with three resources.
use ferricstore_python.Base.{
  ℕ, ◌+◌, ◌≡◌, ◌≢◌, ◌⊎◌, refl, false, none, some, List, [], ◌∷◌, get_elem?,
}
use ferricstore_python.Lifecycle.Coordinator.{
  outside, in_close, waits_close, Choice, calls_run, calls_run_while_open, steps, step, system,
  move,
}
use ferricstore_python.Lifecycle.Weights.{shuts, operates}
use ferricstore_python.Lifecycle.Exclusion.{close_exclusive}
use ferricstore_python.Lifecycle.Progress.{CanStep, no_deadlock}
use ferricstore_python.Lifecycle.Cleanup.{
  Close, close_resources_sync, all_closed, all_raised, present, causes, close_resources_sync-all,
}

-- Thread 1 starts an operation, thread 0 shuts down after it and is in `close()`, thread 1 wants to close too.
abbrev schedule : List (ℕ × Choice)
schedule =
    (1, calls_run_while_open)
    ∷ (1, calls_run)
    ∷ (0, calls_run)
    ∷ (0, calls_run)
    ∷ (0, calls_run)
    ∷ (1, calls_run)
    ∷ (0, calls_run)
    ∷ (1, calls_run)
    ∷ (1, calls_run)
    ∷ []

at_close : get_elem? (steps schedule (system 2)).threads 0 ≡ some in_close
unfolding step move
at_close = refl

at_wait : get_elem? (steps schedule (system 2)).threads 1 ≡ some waits_close
unfolding step move
at_wait = refl

close_exclusive_example :
    (◌≡◌ {A = ℕ} 0 1 ⊎ ((shuts waits_close ≡ 0) × (operates waits_close ≡ 0)))
    × ((steps schedule (system 2)).shared.complete ≡ false)
close_exclusive_example = close_exclusive 2 schedule 0 1 waits_close at_close at_wait

waits_inside : waits_close ≢ outside
waits_inside e = absurd cc

no_deadlock_example : CanStep (steps schedule (system 2)).shared (steps schedule (system 2)).threads
no_deadlock_example = no_deadlock 2 schedule 1 waits_close at_wait waits_inside

abbrev closes : List (Close ℕ ℕ)
closes = (λ s. (s + 1, some 7)) ∷ (λ s. (s + 1, none)) ∷ (λ s. (s + 1, some 9)) ∷ []

close_resources_sync_example :
    ((close_resources_sync closes 0).0 ≡ all_closed closes 0)
    × (causes (close_resources_sync closes 0).1 ≡ present (all_raised closes 0))
close_resources_sync_example = close_resources_sync-all closes 0
