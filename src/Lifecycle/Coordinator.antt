-- ===== src/Lifecycle/Coordinator.antt =====
-- `SyncCloseCoordinator` of `lifecycle_core.py`, for any number of threads. A thread that runs stands between
-- two of its critical sections. A critical section is one step up to the test of its loop, which is a step of
-- its own; a thread that waits on the condition sleeps until another notifies all. No thread calls the
-- coordinator from inside its own `close()` or `operation()`.
use ferricstore_python.Base.{
  ℕ, ◌+◌, ◌-◌, Bool, true, false, Option, none, some, List, [], ◌∷◌, ◌==◌, get_elem?, set,
  replicate, if◌then◌else◌,
}

-- The fields of the coordinator.
pub record Shared : Type 0 where
  pub running : Bool
  pub complete : Bool
  pub started : Bool
  pub open_operations : ℕ

abbrev pub coordinator : Shared
coordinator = record { running = false; complete = false; started = false; open_operations = 0 }

-- Where a thread is: outside; at the first loop of `run`, before its test or asleep in it; at the loop that
-- waits for the open operations, likewise; in `close()`; before the critical section of `run_while_open`; or
-- in `operation()`.
pub data Place : Type 0 where
  outside wants_close waits_close draining waits_drain in_close wants_open operating : Place

-- What a thread does outside, and whether its `close()` raises.
pub data Choice : Type 0 where
  calls_run calls_run_while_open : Choice
  close_returns close_raises : Choice

-- The end of a step: the thread cannot step, or it goes on, perhaps after `notify_all()`.
pub data Move : Type 0 where
  blocked : Move
  continues notifies : Place → Shared → Move

abbrev pub from_outside : Choice → Shared → Move
from_outside calls_run s = continues wants_close s
from_outside calls_run_while_open s = continues wants_open s
from_outside _ s = blocked

-- The end of `close()`.
abbrev pub from_close : Choice → Shared → Move
from_close close_returns s = notifies outside (record s { complete = true; running = false })
from_close close_raises s = notifies outside (record s { running = false })
from_close _ s = blocked

unfoldable pub move : Place → Choice → Shared → Move
move outside c s = from_outside c s
move wants_close c s =
    if s.running
    then continues waits_close s
    else if s.complete
    then continues outside s
    else continues draining (record s { started = true; running = true })
move waits_close c s = blocked
move draining c s = if s.open_operations == 0 then continues in_close s else continues waits_drain s
move waits_drain c s = blocked
move in_close c s = from_close c s
move wants_open c s =
    if s.started
    then continues outside s
    else continues operating (record s { open_operations = s.open_operations + 1 })
move operating c s = notifies outside (record s { open_operations = s.open_operations - 1 })

-- A thread that sleeps tests the condition of its loop again.
abbrev pub wake : Place → Place
wake waits_close = wants_close
wake waits_drain = draining
wake p = p

-- `notify_all`
abbrev pub wake_all : List Place → List Place
wake_all [] = []
wake_all (p ∷ ps) = wake p ∷ wake_all ps

pub record System : Type 0 where
  pub shared : Shared
  pub threads : List Place

abbrev pub moved : ℕ → System → Move → System
moved i w blocked = w
moved i w (continues q s) = record { shared = s; threads = set w.threads i q }
moved i w (notifies q s) = record { shared = s; threads = set (wake_all w.threads) i q }

abbrev pub step_from : ℕ → Choice → System → Option Place → System
step_from i c w none = w
step_from i c w (some p) = moved i w (move p c w.shared)

-- A turn of thread `i`, which does nothing where the thread waits.
unfoldable pub step : ℕ → Choice → System → System
unfolding move
step i c w = step_from i c w (get_elem? w.threads i)

abbrev pub steps : List (ℕ × Choice) → System → System
steps [] w = w
steps ((i, c) ∷ rest) w = steps rest (step i c w)

abbrev pub system : ℕ → System
system n = record { shared = coordinator; threads = replicate n outside }
