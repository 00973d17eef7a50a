-- ===== src/Locks/Tests.antt =====
-- The theorem on locks, with two keys of which the second times out.
use ferricstore_python.Base.{ℕ, ◌↔◌, Option, none, [], ◌∷◌, ◌==◌, if◌then◌else◌}
use ferricstore_python.Locks.{
  Attempts, last, attempt, acquired, refused, Result, returns, lock_keys, run_sync_with_locks,
}
use ferricstore_python.Locks.Sorting.{IsAscending, IsIn}
use ferricstore_python.Locks.Release.{IsBracketed, run_sync_with_locks-IsBracketed}

abbrev server : ℕ → Attempts ℕ
server key = if key == 2 then last refused else attempt refused (last acquired)

abbrev no_error : ℕ → Option ℕ
no_error key = none

abbrev result : Result ℕ ℕ
result = returns 7

run_sync_with_locks-IsBracketed_example :
    IsAscending (lock_keys (2 ∷ 1 ∷ 2 ∷ []))
    × ((x : ℕ) → IsIn x (lock_keys (2 ∷ 1 ∷ 2 ∷ [])) ↔ IsIn x (2 ∷ 1 ∷ 2 ∷ []))
    × IsBracketed
        (lock_keys (2 ∷ 1 ∷ 2 ∷ []))
        (run_sync_with_locks server no_error none none result (2 ∷ 1 ∷ 2 ∷ []))
run_sync_with_locks-IsBracketed_example =
    run_sync_with_locks-IsBracketed no_error none result server (2 ∷ 1 ∷ 2 ∷ [])
