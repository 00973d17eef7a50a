-- ===== src/Pool/Tests.antt =====
-- The pool's theorems on a full pool of two connections, of which one is idle for another origin.
use ferricstore_python.Base.{ℕ, ◌+◌, ◌≢◌, refl, Bool, true, false, some, List, [], ◌∷◌, ◌==◌, arith}
use ferricstore_python.Pool.{Pool, repeated, take_or_create, acquire, keep_alive_pool}
use ferricstore_python.Pool.Conservation.{granted, Conserves, take_or_create-Conserves}
use ferricstore_python.Pool.Bound.{Balanced, Exhausted, take_or_create-Balanced}
use ferricstore_python.Pool.Rounds.{
  Acquired, acquire-Acquired, Action, acquiring, releasing, closing, perform_all, history-Balanced,
}

abbrev full_pool : Pool
full_pool = record {
  max_connections = 2;
  idle = (5, 40 ∷ []) ∷ [];
  total_connections = 2;
  closed = false;
}

full_pool-Balanced : Balanced full_pool 1
full_pool-Balanced = record { total = refl; bound = omega arith; shut = λ h. cc }

-- The weight of connection 40 alone.
abbrev forty : ℕ → ℕ
forty c = elim (c == 40) [ true ↦ 1 | false ↦ 0 ]

take_or_create-Conserves_example :
    Conserves forty full_pool (take_or_create 6 (some 41) false full_pool)
take_or_create-Conserves_example = take_or_create-Conserves forty 6 (some 41) false full_pool

take_or_create-Balanced_example :
    let r = take_or_create 6 (some 41) false full_pool in
    (r.0.0 ≢ repeated) × Balanced r.0.1 (1 + granted (λ c. 1) r.0.0) × Exhausted 1 r.0.1 r.0.0
take_or_create-Balanced_example =
    take_or_create-Balanced 6 1 (some 41) false full_pool full_pool-Balanced

abbrev stale_forty : ℕ → Bool
stale_forty c = c == 40

acquire-Acquired_example : Acquired stale_forty 1 (acquire stale_forty 5 (some 41) false full_pool)
acquire-Acquired_example =
    acquire-Acquired stale_forty 5 1 (some 41) false full_pool full_pool-Balanced

abbrev actions : List Action
actions =
    acquiring stale_forty 5 (some 40) false
    ∷ acquiring stale_forty 6 (some 41) false
    ∷ releasing 5 40 true
    ∷ acquiring stale_forty 5 (some 42) true
    ∷ closing
    ∷ releasing 6 41 true
    ∷ []

history-Balanced_example : let w = perform_all actions (keep_alive_pool 2, 0) in Balanced w.0 w.1
history-Balanced_example = history-Balanced 2 actions
