-- ===== src/Pool/Rounds.antt =====
-- `acquire` of `_KeepAlivePool`, and histories of what is done with a pool.
use ferricstore_python.Base.{
  ℕ, zero, suc, ◌+◌, ◌<◌, ◌≡◌, ◌≢◌, refl, Bool, true, false, Option, List, [], ◌∷◌, length, arith,
  Bool-cases, inl, inr,
}
use ferricstore_python.Pool.{
  Pool, Outcome, connected, pool_closed, create_failed, timed_out, waiting, repeated,
  keep_alive_pool, idle_connections, release, close, take_or_create, is_stale, discard, rounds,
  acquire,
}
use ferricstore_python.Pool.Conservation.{
  granted, Conserves, take_or_create-Conserves, weigh-idle_connections,
}
use ferricstore_python.Pool.Bound.{
  number, Balanced, Exhausted, weigh_one, take_or_create-Balanced, release-Balanced, close-Balanced,
}

-- What a round is to leave behind.
pub record Acquired (stale : ℕ → Bool) (n : ℕ) (r : (Outcome × Pool) × List ℕ) : Type 0 where
  pub settled : r.0.0 ≢ repeated
  pub balanced : Balanced r.0.1 (n + granted (λ c. 1) r.0.0)
  pub exhausted : Exhausted n r.0.1 r.0.0
  pub live : is_stale stale r.0.0 ≡ false

module _ (stale : ℕ → Bool) (key n : ℕ) (created : Option ℕ) (expired : Bool) where
  discard-Balanced :
      (r : (Outcome × Pool) × List ℕ)
      → is_stale stale r.0.0 ≡ true
      → Balanced r.0.1 (n + granted (λ c. 1) r.0.0)
      → Balanced (discard key r).0.1 n
  discard-Balanced ((connected c false, q), cs) h b =
      release-Balanced key c n false q
        (record { total = omega (arith, b.total); bound = b.bound; shut = b.shut })
  discard-Balanced ((connected c true, q), cs) h b = cc
  discard-Balanced ((pool_closed, q), cs) h b = cc
  discard-Balanced ((create_failed, q), cs) h b = cc
  discard-Balanced ((timed_out, q), cs) h b = cc
  discard-Balanced ((waiting, q), cs) h b = cc
  discard-Balanced ((repeated, q), cs) h b = cc

  discard-less :
      (p : Pool) (r : (Outcome × Pool) × List ℕ)
      → is_stale stale r.0.0 ≡ true
      → Conserves (λ c. 1) p r
      → number (discard key r).0.1.idle < number p.idle
  discard-less p ((connected c false, q), cs) h b = unfold release in omega (arith, b)
  discard-less p ((connected c true, q), cs) h b = cc
  discard-less p ((pool_closed, q), cs) h b = cc
  discard-less p ((create_failed, q), cs) h b = cc
  discard-less p ((timed_out, q), cs) h b = cc
  discard-less p ((waiting, q), cs) h b = cc
  discard-less p ((repeated, q), cs) h b = cc

  rounds-Acquired :
      (f : ℕ) (p : Pool)
      → Balanced p n
      → number p.idle < f
      → Acquired stale n (rounds stale f key created expired p)
  unfolding rounds
  rounds-Acquired zero p b enough = absurd (omega arith)
  rounds-Acquired (suc f) p b enough =
      let (settled, balanced, exhausted) = take_or_create-Balanced key n created expired p b in
      let r = take_or_create key created expired p in
      elim (Bool-cases (is_stale stale r.0.0)) [
        | inl old ↦
            let less : number (discard key r).0.1.idle < number p.idle =
              discard-less p r old (take_or_create-Conserves (λ c. 1) key created expired p) in
            let next =
              rounds-Acquired f (discard key r).0.1 (discard-Balanced r old balanced)
                (omega arith) in
            rw old (record {
              settled = next.settled;
              balanced = next.balanced;
              exhausted = next.exhausted;
              live = next.live;
            })
        | inr good ↦
            rw good (record {
              settled = settled;
              balanced = balanced;
              exhausted = exhausted;
              live = good;
            })
      ]

  -- From a pool in balance, with `n` connections given out, `acquire` ends after finitely many rounds;
  -- the pool is in balance with what the caller was given; a connection that was idle and is returned is
  -- not stale; and the caller waits or times out only while all that the pool may hold are given out.
  pub acquire-Acquired :
      (p : Pool) → Balanced p n → Acquired stale n (acquire stale key created expired p)
  unfolding acquire
  acquire-Acquired p b =
      rounds-Acquired (suc (length (idle_connections p.idle))) p b
        (omega (arith, weigh_one (idle_connections p.idle), weigh-idle_connections (λ c. 1) p.idle))

-- What the pool's callers do, in any order; a release is of a connection that was given out.
pub data Action : Type 0 where
  acquiring : (ℕ → Bool) → ℕ → Option ℕ → Bool → Action
  releasing : ℕ → ℕ → Bool → Action
  closing : Action

-- The pool, and how many connections are given out.
abbrev pub perform : Action → Pool × ℕ → Pool × ℕ
perform (acquiring stale key created expired) (p, n) =
    let r = acquire stale key created expired p in (r.0.1, n + granted (λ c. 1) r.0.0)
perform (releasing key c reusable) (p, zero) = (p, zero)
perform (releasing key c reusable) (p, suc n) = ((release key c reusable p).0, n)
perform closing (p, n) = ((close p).0, n)

abbrev pub perform_all : List Action → Pool × ℕ → Pool × ℕ
perform_all [] w = w
perform_all (a ∷ rest) w = perform_all rest (perform a w)

perform-Balanced :
    (a : Action) (w : Pool × ℕ) → Balanced w.0 w.1 → Balanced (perform a w).0 (perform a w).1
perform-Balanced (acquiring stale key created expired) (p, n) b =
    (acquire-Acquired stale key n created expired p b).balanced
perform-Balanced (releasing key c reusable) (p, zero) b = b
perform-Balanced (releasing key c reusable) (p, suc n) b = release-Balanced key c n reusable p b
perform-Balanced closing (p, n) b = close-Balanced n p b

perform_all-Balanced :
    (actions : List Action) (w : Pool × ℕ)
    → Balanced w.0 w.1
    → Balanced (perform_all actions w).0 (perform_all actions w).1
perform_all-Balanced [] w b = b
perform_all-Balanced (a ∷ actions) w b =
    perform_all-Balanced actions (perform a w) (perform-Balanced a w b)

-- Whatever the callers of a new pool do, in whatever order: its total is the number of idle connections
-- and of those given out, it never passes the bound, and a closed pool keeps nothing idle.
pub history-Balanced :
    (limit : ℕ) (actions : List Action)
    → let w = (perform_all actions (keep_alive_pool limit, 0)) in Balanced w.0 w.1
history-Balanced limit actions =
    perform_all-Balanced actions (keep_alive_pool limit, 0)
      (record { total = refl; bound = omega arith; shut = λ h. refl })
