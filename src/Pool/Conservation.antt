-- ===== src/Pool/Conservation.antt =====
-- `_take_or_create` of `_KeepAlivePool`, and where its connections go.
-- A count of connections is a sum of weights: 1 for each, or 1 for one of them alone.
use ferricstore_python.Base.{
  ℕ, zero, suc, ◌+◌, ◌≡◌, refl, Bool, true, Option, none, some, List, [], ◌∷◌, ◌++◌, length, ltb,
  ◌==◌, arith, Bool-cases, Option-cases, inl, inr,
}
use ferricstore_python.Pool.{
  Pool, Outcome, connected, pool_closed, create_failed, timed_out, waiting, repeated, append_idle,
  pop_deque, behind, pop_key, pop_idle_connection, oldest_first, idle_connections, create_counted,
  turn, followed, turns, take_or_create,
}

module _ (w : ℕ → ℕ) where
  abbrev pub weigh : List ℕ → ℕ
  weigh [] = 0
  weigh (c ∷ cs) = w c + weigh cs

  abbrev pub idle_weight : List (ℕ × List ℕ) → ℕ
  idle_weight [] = 0
  idle_weight ((j, cs) ∷ m) = weigh cs + idle_weight m

  weigh-append : (cs ds : List ℕ) → weigh (cs ++ ds) ≡ weigh cs + weigh ds
  weigh-append [] ds = omega arith
  weigh-append (c ∷ cs) ds = omega (arith, weigh-append cs ds)

  weigh-oldest_first : (cs : List ℕ) → weigh (oldest_first cs) ≡ weigh cs
  weigh-oldest_first [] = refl
  weigh-oldest_first (c ∷ cs) =
      omega (arith, weigh-append (oldest_first cs) (c ∷ []), weigh-oldest_first cs)

  pub weigh-idle_connections : (m : List (ℕ × List ℕ)) → weigh (idle_connections m) ≡ idle_weight m
  unfolding idle_connections
  weigh-idle_connections [] = refl
  weigh-idle_connections ((j, cs) ∷ m) = omega (
    arith,
    weigh-append (oldest_first cs) (idle_connections m),
    weigh-oldest_first cs,
    weigh-idle_connections m,
  )

  pub weight-append_idle :
      (key c : ℕ) (m : List (ℕ × List ℕ)) → idle_weight (append_idle key c m) ≡ w c + idle_weight m
  unfolding append_idle
  weight-append_idle key c [] = omega arith
  weight-append_idle key c ((j, cs) ∷ m) = ground (arith, weight-append_idle key c m)

  -- What an entry weighs less without a connection, the rest of the dict weighs less without it.
  abbrev pub Takes : Option (ℕ × List (ℕ × List ℕ)) → ℕ → Type 0
  Takes none n = Unit
  Takes (some (c, m)) n = n ≡ w c + idle_weight m

  Takes-pop_deque :
      (j : ℕ) (cs : List ℕ) (m : List (ℕ × List ℕ))
      → Takes (pop_deque j cs m) (idle_weight ((j, cs) ∷ m))
  Takes-pop_deque j [] m = tt
  Takes-pop_deque j (c ∷ []) m = omega arith
  Takes-pop_deque j (c ∷ d ∷ ds) m = omega arith

  Takes-behind :
      (j : ℕ) (cs : List ℕ) (o : Option (ℕ × List (ℕ × List ℕ))) (n : ℕ)
      → Takes o n
      → Takes (behind (j, cs) o) (weigh cs + n)
  Takes-behind j cs none n h = tt
  Takes-behind j cs (some (c, m)) n h = omega (arith, h)

  pub Takes-pop_key : (key : ℕ) (m : List (ℕ × List ℕ)) → Takes (pop_key key m) (idle_weight m)
  unfolding pop_key
  Takes-pop_key key [] = tt
  Takes-pop_key key ((j, cs) ∷ m) = elim (Bool-cases (j == key)) [
    | inl same ↦ rw same (Takes-pop_deque j cs m)
    | inr other ↦ rw other (Takes-behind j cs (pop_key key m) _ (Takes-pop_key key m))
  ]

  pub Takes-pop_idle_connection :
      (m : List (ℕ × List ℕ)) → Takes (pop_idle_connection m) (idle_weight m)
  unfolding pop_idle_connection
  Takes-pop_idle_connection [] = tt
  Takes-pop_idle_connection ((j, []) ∷ m) =
      Takes-behind j [] (pop_idle_connection m) _ (Takes-pop_idle_connection m)
  Takes-pop_idle_connection ((j, c ∷ cs) ∷ m) = Takes-pop_deque j (c ∷ cs) m

  -- What the caller gets, and what of it is new.
  abbrev pub granted : Outcome → ℕ
  granted (connected c new) = w c
  granted _ = 0

  abbrev pub created_weight : Outcome → ℕ
  created_weight (connected c true) = w c
  created_weight _ = 0

  -- Before and after, with the connections closed on the way.
  abbrev pub Conserves : Pool → (Outcome × Pool) × List ℕ → Type 0
  Conserves p ((o, q), cs) =
      idle_weight p.idle + created_weight o ≡ idle_weight q.idle + granted o + weigh cs

  Conserves-create_counted :
      (created : Option ℕ) (p : Pool) → Conserves p (create_counted created p, [])
  unfolding create_counted
  Conserves-create_counted none p = omega arith
  Conserves-create_counted (some c) p = omega arith

  pub turn-Conserves :
      (key : ℕ) (created : Option ℕ) (expired : Bool) (p : Pool)
      → Conserves p (turn key created expired p)
  unfolding turn
  turn-Conserves key created expired p = elim (Bool-cases p.closed) [
    | inl shut ↦ rw (shut, turn) (omega arith)
    | inr alive ↦ elim (Option-cases (pop_key key p.idle)) [
      | inr ((c, m), found) ↦
          let taken : Takes (some (c, m)) (idle_weight p.idle) =
            rw found at (Takes-pop_key key p.idle) in
          rw (alive, found, turn) (omega (arith, taken))
      | inl absent ↦ elim (Bool-cases (ltb p.total_connections p.max_connections)) [
        | inl room ↦ rw (alive, absent, room, turn) (Conserves-create_counted created p)
        | inr full ↦ elim (Option-cases (pop_idle_connection p.idle)) [
          | inr ((c, m), found) ↦
              let taken : Takes (some (c, m)) (idle_weight p.idle) =
                rw found at (Takes-pop_idle_connection p.idle) in
              rw (alive, absent, full, found, turn) (omega (arith, taken))
          | inl empty ↦ elim (Bool-cases expired) [
            | inl late ↦ rw (alive, absent, full, empty, late, turn) (omega arith)
            | inr early ↦ rw (alive, absent, full, empty, early, turn) (omega arith)
          ]
        ]
      ]
    ]
  ]

  chain-Conserves :
      (p : Pool) (r rest : (Outcome × Pool) × List ℕ)
      → Conserves p r
      → Conserves r.0.1 rest
      → Conserves p (followed r rest)
  chain-Conserves p ((repeated, q), cs) ((o, s), ds) h i = omega (arith, weigh-append cs ds)
  chain-Conserves p ((connected c new, q), cs) rest h i = h
  chain-Conserves p ((pool_closed, q), cs) rest h i = h
  chain-Conserves p ((create_failed, q), cs) rest h i = h
  chain-Conserves p ((timed_out, q), cs) rest h i = h
  chain-Conserves p ((waiting, q), cs) rest h i = h

  turns-Conserves :
      (n key : ℕ) (created : Option ℕ) (expired : Bool) (p : Pool)
      → Conserves p (turns n key created expired p)
  unfolding turns
  turns-Conserves zero key created expired p = omega arith
  turns-Conserves (suc n) key created expired p =
      chain-Conserves p (turn key created expired p) _ (turn-Conserves key created expired p)
        (turns-Conserves n key created expired _)

  -- Under any weight of connections: what was idle and what was created is what is idle afterwards, what
  -- the caller was given and what was closed. So no connection is lost, none is given out and kept, and
  -- none is given out twice.
  pub take_or_create-Conserves :
      (key : ℕ) (created : Option ℕ) (expired : Bool) (p : Pool)
      → Conserves p (take_or_create key created expired p)
  unfolding take_or_create
  take_or_create-Conserves key created expired p =
      turns-Conserves (suc (length (idle_connections p.idle))) key created expired p
