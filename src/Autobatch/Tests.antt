-- ===== src/Autobatch/Tests.antt =====
-- The theorem on the queue of batches, on a history with a cancellation.
use ferricstore_python.Base.{◌≡◌, ◌≤◌, true, false, List, [], ◌∷◌, ◌++◌, length}
use ferricstore_python.Autobatch.{
  Event, enqueues, finishes, takes, closes, host, steps, numbers, went_out, came_in, cancelled_in,
}
use ferricstore_python.Autobatch.Queue.{queue-Kept}

abbrev history : List Event
history =
    enqueues 1
    ∷ enqueues 2
    ∷ enqueues 3
    ∷ finishes 2 true
    ∷ takes false
    ∷ enqueues 4
    ∷ finishes 1 false
    ∷ closes
    ∷ takes true
    ∷ []

queue-Kept_example :
    (went_out history (host 2 3) ++ numbers (steps history (host 2 3)).pending
      ≡ came_in history (host 2 3))
    × ((steps history (host 2 3)).cancelled_pending
        ≡ cancelled_in (steps history (host 2 3)).pending)
    × (length (steps history (host 2 3)).pending ≤ 3)
queue-Kept_example = queue-Kept 2 3 history
