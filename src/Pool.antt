-- ===== src/Pool.antt =====
-- `_KeepAlivePool` of `http_connection_pool.py`: HTTP connections kept alive and shared by origin, with a
-- bound on how many exist. Connections and origins are numbered. An attempt is one stretch under the
-- condition's lock: where the source waits, the attempt ends as `waiting`, and it starts again on the
-- pool that it wakes up to.
pub mod Conservation
pub mod Bound
pub mod Rounds
mod Tests
use ferricstore_python.Base.{
  ℕ, zero, suc, ◌+◌, ◌-◌, Bool, true, false, ◌||◌, not, Option, none, some, List, [], ◌∷◌, ◌++◌,
  length, ltb, ◌==◌, if◌then◌else◌,
}

-- `idle` is the dict of deques, each with the end that `append` and `pop` use in front.
pub record Pool : Type 0 where
  pub max_connections : ℕ
  pub idle : List (ℕ × List ℕ)
  pub total_connections : ℕ
  pub closed : Bool

-- How an attempt ends; `connected c new` is the pair that `_take_or_create` returns.
pub data Outcome : Type 0 where
  connected : ℕ → Bool → Outcome
  pool_closed create_failed timed_out waiting repeated : Outcome

abbrev pub keep_alive_pool : ℕ → Pool
keep_alive_pool n = record { max_connections = n; idle = []; total_connections = 0; closed = false }

-- `self._idle.setdefault(key, deque()).append(connection)`
unfoldable pub append_idle : ℕ → ℕ → List (ℕ × List ℕ) → List (ℕ × List ℕ)
append_idle key c [] = (key, c ∷ []) ∷ []
append_idle key c ((j, cs) ∷ m) =
    if j == key then (j, c ∷ cs) ∷ m else (j, cs) ∷ append_idle key c m

-- `connection = idle.pop()`, and the key deleted where that empties its deque.
abbrev pub pop_deque : ℕ → List ℕ → List (ℕ × List ℕ) → Option (ℕ × List (ℕ × List ℕ))
pop_deque j [] m = none
pop_deque j (c ∷ []) m = some (c, m)
pop_deque j (c ∷ d ∷ ds) m = some (c, (j, d ∷ ds) ∷ m)

abbrev pub behind : ℕ × List ℕ → Option (ℕ × List (ℕ × List ℕ)) → Option (ℕ × List (ℕ × List ℕ))
behind entry none = none
behind entry (some (c, m)) = some (c, entry ∷ m)

-- `idle = self._idle.get(key)`, and its connection where it is not empty.
unfoldable pub pop_key : ℕ → List (ℕ × List ℕ) → Option (ℕ × List (ℕ × List ℕ))
pop_key key [] = none
pop_key key ((j, cs) ∷ m) = if j == key then pop_deque j cs m else behind (j, cs) (pop_key key m)

-- `_pop_idle_connection`
unfoldable pub pop_idle_connection : List (ℕ × List ℕ) → Option (ℕ × List (ℕ × List ℕ))
pop_idle_connection [] = none
pop_idle_connection ((j, []) ∷ m) = behind (j, []) (pop_idle_connection m)
pop_idle_connection ((j, c ∷ cs) ∷ m) = pop_deque j (c ∷ cs) m

-- A deque from its oldest connection on; the model keeps it from the one that `pop` takes on.
abbrev pub oldest_first : List ℕ → List ℕ
oldest_first [] = []
oldest_first (c ∷ cs) = oldest_first cs ++ c ∷ []

-- All idle connections, as `close` lists them.
unfoldable pub idle_connections : List (ℕ × List ℕ) → List ℕ
idle_connections [] = []
idle_connections ((j, cs) ∷ m) = oldest_first cs ++ idle_connections m

-- `release`; the second part is the connections that are closed. The total counts the connection that
-- comes back, and in `close` the idle ones, so no subtraction stops at 0.
unfoldable pub release : ℕ → ℕ → Bool → Pool → Pool × List ℕ
unfolding append_idle
release key c reusable p =
    if reusable
    then if p.closed
      then (record p { total_connections = p.total_connections - 1 }, c ∷ [])
      else (record p { idle = append_idle key c p.idle }, [])
    else (record p { total_connections = p.total_connections - 1 }, c ∷ [])

unfoldable pub close : Pool → Pool × List ℕ
unfolding idle_connections
close p = if p.closed then (p, []) else (
  record p {
    idle = [];
    total_connections = p.total_connections - length (idle_connections p.idle);
    closed = true;
  },
  idle_connections p.idle,
)

-- `create()`: `none` where it raises.
unfoldable pub create_counted : Option ℕ → Pool → Outcome × Pool
create_counted none p =
    (create_failed, record p { total_connections = p.total_connections + 1 - 1 })
create_counted (some c) p =
    (connected c true, record p { total_connections = p.total_connections + 1 })

-- One turn of the loop of `_take_or_create`; `repeated` is its `continue`, with the connection it closed.
unfoldable pub turn : ℕ → Option ℕ → Bool → Pool → (Outcome × Pool) × List ℕ
unfolding pop_key pop_idle_connection create_counted
turn key created expired p =
    if p.closed then ((pool_closed, p), []) else elim (pop_key key p.idle) [
      | some (c, idle) ↦ ((connected c false, record p { idle = idle }), [])
      | none ↦
          if ltb p.total_connections p.max_connections
          then (create_counted created p, [])
          else elim (pop_idle_connection p.idle) [
            | some (c, idle) ↦ (
              (repeated, record p { idle = idle; total_connections = p.total_connections - 1 }),
              c ∷ [],
            )
            | none ↦ ((if expired then timed_out else waiting, p), [])
          ]
    ]

-- A turn, and what follows where it ends in `continue`.
abbrev pub followed :
    (Outcome × Pool) × List ℕ → (Outcome × Pool) × List ℕ → (Outcome × Pool) × List ℕ
followed ((repeated, q), cs) (rest, ds) = (rest, cs ++ ds)
followed r rest = r

-- The loop, with a bound on its turns; `repeated` is left where the bound is too small.
unfoldable pub turns : ℕ → ℕ → Option ℕ → Bool → Pool → (Outcome × Pool) × List ℕ
unfolding turn
turns zero key created expired p = ((repeated, p), [])
turns (suc n) key created expired p =
    let r = turn key created expired p in
    let rest = turns n key created expired r.0.1 in followed r rest

-- Each turn that repeats closes an idle connection.
unfoldable pub take_or_create : ℕ → Option ℕ → Bool → Pool → (Outcome × Pool) × List ℕ
unfolding turns
take_or_create key created expired p =
    turns (suc (length (idle_connections p.idle))) key created expired p

-- A connection that was idle and has gone stale is released, to be closed, before the next round.
abbrev pub is_stale : (ℕ → Bool) → Outcome → Bool
is_stale stale (connected c false) = stale c
is_stale stale _ = false

abbrev pub discard : ℕ → (Outcome × Pool) × List ℕ → (Outcome × Pool) × List ℕ
discard key ((connected c new, q), cs) =
    let r = release key c false q in ((connected c new, r.0), cs ++ r.1)
discard key r = r

-- `acquire`, with a bound on its rounds, and `stale` for `_connection_is_stale`.
unfoldable pub rounds : (ℕ → Bool) → ℕ → ℕ → Option ℕ → Bool → Pool → (Outcome × Pool) × List ℕ
unfolding take_or_create release
rounds stale zero key created expired p = ((repeated, p), [])
rounds stale (suc n) key created expired p =
    let r = take_or_create key created expired p in
    let s = discard key r in
    let rest = rounds stale n key created expired s.0.1 in
    if is_stale stale r.0.0 then (rest.0, s.1 ++ rest.1) else r

unfoldable pub acquire : (ℕ → Bool) → ℕ → Option ℕ → Bool → Pool → (Outcome × Pool) × List ℕ
unfolding rounds
acquire stale key created expired p =
    rounds stale (suc (length (idle_connections p.idle))) key created expired p
