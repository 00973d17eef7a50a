-- ===== src/Lifecycle/Exclusion.antt =====
-- `SyncCloseCoordinator`: which threads are in `close()` and in operations together.
use ferricstore_python.Base.{
  ℕ, ◌≡◌, ◌≢◌, refl, Bool, true, false, some, List, ◌==◌, ==_iff, get_elem?, arith, ◌⊎◌, inl, inr,
  Bool-cases,
}
use ferricstore_python.Lifecycle.Coordinator.{Place, in_close, Choice, System, steps, system}
use ferricstore_python.Lifecycle.Threads.{sum, sum-at, sum-two}
use ferricstore_python.Lifecycle.Weights.{shuts, closes, operates}
use ferricstore_python.Lifecycle.Invariant.{Inv, shuts-running, closing-one, steps-Inv, system-Inv}

eq_false : (i j : ℕ) → (i == j) ≡ false → i ≢ j
eq_false i j e = λ k. ground arith

-- In any schedule of any number of threads: while one thread is in `close()`, no other shuts down or is in
-- an operation, and `close()` has not returned before.
pub close_exclusive :
    (n : ℕ) (cs : List (ℕ × Choice)) (i j : ℕ) (p : Place)
    → get_elem? (steps cs (system n)).threads i ≡ some in_close
    → get_elem? (steps cs (system n)).threads j ≡ some p
    → ((i ≡ j) ⊎ ((shuts p ≡ 0) × (operates p ≡ 0)))
      × ((steps cs (system n)).shared.complete ≡ false)
close_exclusive n cs i j p at at' = (alone (Bool-cases (i == j)), before_end w.shared.complete refl)
  where
    w : System
    w = steps cs (system n)

    inv : Inv w.shared w.threads
    inv = steps-Inv cs (system n) (system-Inv n)

    one : sum shuts w.threads ≡ 1
    one = closing-one i w.threads w.shared inv at

    none_open : w.shared.open_operations ≡ 0
    none_open = inv.quiet (sum-at closes w.threads i in_close at)

    alone : ((i == j) ≡ true) ⊎ ((i == j) ≡ false) → (i ≡ j) ⊎ ((shuts p ≡ 0) × (operates p ≡ 0))
    alone (inl e) = inl ((==_iff i j).0 e)
    alone (inr e) =
        let differ : i ≢ j = λ k. eq_false i j e k in
        inr (
          omega (arith, sum-two shuts w.threads i j in_close p at at' differ, one),
          omega (arith, sum-at operates w.threads j p at', inv.counted, none_open),
        )

    before_end : (b : Bool) → w.shared.complete ≡ b → w.shared.complete ≡ false
    before_end false e = e
    before_end true e =
        let stopped = inv.ended e in
        let runs = shuts-running i w.threads w.shared inv (omega (arith, one)) in absurd cc
