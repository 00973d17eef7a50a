-- ===== src/Locks.antt =====
-- `run_sync_with_locks` of `langgraph/_locks.py`: an operation under several distributed locks. A key is its
-- rank among the keys, which `sorted` orders by. The answers of the server, of the clock and of the threads
-- are parameters: `attempts` gives the answers to LOCK for a key up to the attempt behind which the clock has
-- reached the deadline, `unlock_error` what UNLOCK raises, `start_error` what starting the heartbeat raises,
-- `result` the end of the operation and `heartbeat_error` what the heartbeat has found when it is joined.
pub mod Sorting
pub mod Release
mod Tests
use ferricstore_python.Base.{
  ℕ, zero, suc, Bool, true, false, Option, none, some, List, [], ◌∷◌, ◌++◌, map, ltb, ◌==◌,
  if◌then◌else◌,
}

-- `sorted(set(keys))`
unfoldable pub insert_key : ℕ → List ℕ → List ℕ
insert_key k [] = k ∷ []
insert_key k (j ∷ js) =
    let rest = insert_key k js in
    if ltb k j then k ∷ j ∷ js else if k == j then j ∷ js else j ∷ rest

-- `_lock_keys`
unfoldable pub lock_keys : List ℕ → List ℕ
unfolding insert_key
lock_keys [] = []
lock_keys (k ∷ ks) = insert_key k (lock_keys ks)

-- How LOCK is answered: OK, refused by an answer or by LockHeldError, or with another error.
pub data Answer (E : Type 0) : Type 0 where
  acquired refused : Answer E
  failed : E → Answer E

-- The attempts for one key: the clock is before the deadline behind each one but the last.
pub data Attempts (E : Type 0) : Type 0 where
  last : Answer E → Attempts E
  attempt : Answer E → Attempts E → Attempts E

-- What the client does, in order: the locks it acquires, the UNLOCKs it sends and the operation.
pub data Event : Type 0 where
  locks unlocks : ℕ → Event
  operates : Event

pub data Error (E : Type 0) : Type 0 where
  timed_out : ℕ → Error E
  raised : E → Error E
  not_joined : Error E

pub data Result (E A : Type 0) : Type 0 where
  returns : A → Result E A
  raises : Error E → Result E A

-- `reversed`
abbrev pub backwards : List ℕ → List ℕ
backwards [] = []
backwards (k ∷ ks) = backwards ks ++ k ∷ []

module _ {E : Type 0} where
  -- The loop around `_try_sync_lock`; `none` is a lock that was acquired.
  unfoldable pub acquire : ℕ → Attempts E → Option (Error E)
  acquire key (last acquired) = none
  acquire key (last refused) = some (timed_out key)
  acquire key (last (failed e)) = some (raised e)
  acquire key (attempt acquired rest) = none
  acquire key (attempt refused rest) = acquire key rest
  acquire key (attempt (failed e) rest) = some (raised e)

  abbrev pub acquire_from :
      Option (Error E) → List ℕ → List ℕ × Option (Error E) → List ℕ × Option (Error E)
  acquire_from (some e) held rest = (held, some e)
  acquire_from none held rest = rest

  -- The loop over the keys: those acquired, latest first, and the error that ended it.
  unfoldable pub acquire_all : (ℕ → Attempts E) → List ℕ → List ℕ → List ℕ × Option (Error E)
  unfolding acquire
  acquire_all attempts [] held = (held, none)
  acquire_all attempts (key ∷ keys) held =
      acquire_from (acquire key (attempts key)) held (acquire_all attempts keys (key ∷ held))

  -- The first error of the UNLOCKs.
  abbrev pub first_error : (ℕ → Option E) → List ℕ → Option E
  first_error unlock_error [] = none
  first_error unlock_error (key ∷ keys) = elim (unlock_error key) [
    | none ↦ first_error unlock_error keys
    | some e ↦ some e
  ]

module _ {E A : Type 0} where
  -- The end of the `finally` block: the error of the body comes first, then the heartbeat's.
  abbrev pub finish : Result E A → Option E → Option E → Result E A
  finish (raises e) heartbeat_error release_error = raises e
  finish (returns a) (some e) release_error = raises (raised e)
  finish (returns a) none (some e) = raises (raised e)
  finish (returns a) none none = returns a

  -- What is done once the loop over the keys has ended. A heartbeat that did not start cannot be joined, which
  -- ends the `finally` block before its UNLOCKs.
  abbrev pub with_locks :
      (ℕ → Option E)
      → Option E
      → Option E
      → Result E A
      → List ℕ × Option (Error E)
      → List Event × Result E A
  with_locks unlock_error start_error heartbeat_error result (held, some e) =
      (map locks (backwards held) ++ map unlocks held, raises e)
  with_locks unlock_error (some e) heartbeat_error result (held, none) =
      (map locks (backwards held), raises not_joined)
  with_locks unlock_error none heartbeat_error result (held, none) = (
    map locks (backwards held) ++ operates ∷ map unlocks held,
    finish result heartbeat_error (first_error unlock_error held),
  )

  abbrev pub run_ordered :
      (ℕ → Attempts E)
      → (ℕ → Option E)
      → Option E
      → Option E
      → Result E A
      → List ℕ
      → List Event × Result E A
  run_ordered attempts unlock_error start_error heartbeat_error result [] = (operates ∷ [], result)
  run_ordered attempts unlock_error start_error heartbeat_error result (key ∷ keys) =
      with_locks unlock_error start_error heartbeat_error result
        (acquire_all attempts (key ∷ keys) [])

  unfoldable pub run_sync_with_locks :
      (ℕ → Attempts E)
      → (ℕ → Option E)
      → Option E
      → Option E
      → Result E A
      → List ℕ
      → List Event × Result E A
  unfolding acquire_all lock_keys
  run_sync_with_locks attempts unlock_error start_error heartbeat_error result keys =
      run_ordered attempts unlock_error start_error heartbeat_error result (lock_keys keys)
