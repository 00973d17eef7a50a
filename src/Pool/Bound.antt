-- ===== src/Pool/Bound.antt =====
-- `_take_or_create`, `release` and `close` of `_KeepAlivePool`, and the count of its connections.
use ferricstore_python.Base.{
  ℕ, zero, suc, ◌+◌, ◌≤◌, ◌<◌, ◌≡◌, ◌≢◌, refl, sym, ◌∙◌, Bool, true, false, Option, none, some,
  List, [], ◌∷◌, length, ltb, if◌then◌else◌, arith, Bool-cases, Option-cases, inl, inr, ltb→lt,
  ltb_false→le,
}
use ferricstore_python.Pool.{
  Pool, Outcome, connected, pool_closed, create_failed, timed_out, waiting, repeated, behind,
  pop_key, pop_idle_connection, idle_connections, release, close, create_counted, turn, followed,
  turns, take_or_create,
}
use ferricstore_python.Pool.Conservation.{
  weigh, idle_weight, weigh-idle_connections, weight-append_idle, Takes, Takes-pop_key,
  Takes-pop_idle_connection, granted, Conserves, turn-Conserves,
}

-- How many connections are idle.
abbrev pub number : List (ℕ × List ℕ) → ℕ
number m = idle_weight (λ c. 1) m

-- With `n` connections given out.
pub record Balanced (p : Pool) (n : ℕ) : Type 0 where
  pub total : p.total_connections ≡ number p.idle + n
  pub bound : p.total_connections ≤ p.max_connections
  pub shut : p.closed ≡ true → number p.idle ≡ 0

pub weigh_one : (cs : List ℕ) → weigh (λ c. 1) cs ≡ length cs
weigh_one [] = refl
weigh_one (c ∷ cs) = omega (arith, weigh_one cs)

-- Where the caller has to wait, or is too late, all that the pool may hold is given out.
abbrev pub Exhausted : ℕ → Pool → Outcome → Type 0
Exhausted n q waiting = n ≡ q.max_connections
Exhausted n q timed_out = n ≡ q.max_connections
Exhausted n q _ = Unit

-- A turn that repeats has closed a connection.
abbrev pub Closes : Outcome → List ℕ → Type 0
Closes repeated cs = 1 ≤ length cs
Closes _ cs = Unit

pub record Sound (n : ℕ) (r : (Outcome × Pool) × List ℕ) : Type 0 where
  pub balanced : Balanced r.0.1 (n + granted (λ c. 1) r.0.0)
  pub exhausted : Exhausted n r.0.1 r.0.0
  pub progress : Closes r.0.0 r.1

behind-none : (e : ℕ × List ℕ) (o : Option (ℕ × List (ℕ × List ℕ))) → behind e o ≡ none → o ≡ none
behind-none e none h = refl
behind-none e (some (c, m)) h = cc

empty-number : (m : List (ℕ × List ℕ)) → pop_idle_connection m ≡ none → number m ≡ 0
unfolding pop_idle_connection
empty-number [] h = refl
empty-number ((j, []) ∷ m) h = omega (arith, empty-number m (behind-none (j, []) _ h))
empty-number ((j, c ∷ []) ∷ m) h = cc
empty-number ((j, c ∷ d ∷ ds) ∷ m) h = cc

create_counted-Sound :
    (created : Option ℕ) (p : Pool) (n : ℕ)
    → Balanced p n
    → p.closed ≡ false
    → p.total_connections < p.max_connections
    → Sound n (create_counted created p, [])
unfolding create_counted
create_counted-Sound none p n b alive room = record {
  balanced = record { total = omega (arith, b.total); bound = omega (arith, room); shut = b.shut };
  exhausted = tt;
  progress = tt;
}
create_counted-Sound (some c) p n b alive room = record {
  balanced = record { total = omega (arith, b.total); bound = omega (arith, room); shut = b.shut };
  exhausted = tt;
  progress = tt;
}

closed-open : {A : Type 0} (b : Bool) → b ≡ false → b ≡ true → A
closed-open b h i = let impossible : false ≡ true = sym h ∙ i in cc

turn-Sound :
    (key n : ℕ) (created : Option ℕ) (expired : Bool) (p : Pool)
    → Balanced p n
    → Sound n (turn key created expired p)
unfolding turn
turn-Sound key n created expired p b = elim (Bool-cases p.closed) [
  | inl shut ↦
      rw (shut, turn)
        (record {
          balanced = record {
            total = omega (arith, b.total);
            bound = b.bound;
            shut = λ h. b.shut shut;
          };
          exhausted = tt;
          progress = tt;
        })
  | inr alive ↦ elim (Option-cases (pop_key key p.idle)) [
    | inr ((c, m), found) ↦
        let taken : Takes (λ c. 1) (some (c, m)) (number p.idle) =
          rw found at (Takes-pop_key (λ c. 1) key p.idle) in
        rw (alive, found, turn)
          (record {
            balanced = record {
              total = omega (arith, b.total, taken);
              bound = b.bound;
              shut = closed-open p.closed alive;
            };
            exhausted = tt;
            progress = tt;
          })
    | inl absent ↦ elim (Bool-cases (ltb p.total_connections p.max_connections)) [
      | inl room ↦
          rw (alive, absent, room, turn)
            (create_counted-Sound created p n b alive (ltb→lt _ _ room))
      | inr full ↦ elim (Option-cases (pop_idle_connection p.idle)) [
        | inr ((c, m), found) ↦
            let taken : Takes (λ c. 1) (some (c, m)) (number p.idle) =
              rw found at (Takes-pop_idle_connection (λ c. 1) p.idle) in
            rw (alive, absent, full, found, turn)
              (record {
                balanced = record {
                  total = omega (arith, b.total, taken);
                  bound = omega (arith, b.bound);
                  shut = closed-open p.closed alive;
                };
                exhausted = tt;
                progress = omega arith;
              })
        | inl empty ↦
            rw (alive, absent, full, empty, turn)
              (give_up expired (empty-number p.idle empty) (ltb_false→le _ _ full))
      ]
    ]
  ]
]
  where
    give_up :
        (late : Bool)
        → number p.idle ≡ 0
        → p.max_connections ≤ p.total_connections
        → Sound n (((if late then timed_out else waiting), p), [])
    give_up true e f = record {
      balanced = record { total = omega (arith, b.total); bound = b.bound; shut = b.shut };
      exhausted = omega (arith, b.total, b.bound);
      progress = tt;
    }
    give_up false e f = record {
      balanced = record { total = omega (arith, b.total); bound = b.bound; shut = b.shut };
      exhausted = omega (arith, b.total, b.bound);
      progress = tt;
    }

-- What the chain of turns keeps: the record of `Sound` but its progress.
chain-Balanced :
    (n : ℕ) (r rest : (Outcome × Pool) × List ℕ)
    → Sound n r
    → (Balanced r.0.1 n
        → Balanced rest.0.1 (n + granted (λ c. 1) rest.0.0) × Exhausted n rest.0.1 rest.0.0)
    → Balanced (followed r rest).0.1 (n + granted (λ c. 1) (followed r rest).0.0)
      × Exhausted n (followed r rest).0.1 (followed r rest).0.0
chain-Balanced n ((repeated, q), cs) rest h k = k (record {
  total = omega (arith, h.balanced.total);
  bound = h.balanced.bound;
  shut = h.balanced.shut;
})
chain-Balanced n ((connected c new, q), cs) rest h k = (h.balanced, h.exhausted)
chain-Balanced n ((pool_closed, q), cs) rest h k = (h.balanced, h.exhausted)
chain-Balanced n ((create_failed, q), cs) rest h k = (h.balanced, h.exhausted)
chain-Balanced n ((timed_out, q), cs) rest h k = (h.balanced, h.exhausted)
chain-Balanced n ((waiting, q), cs) rest h k = (h.balanced, h.exhausted)

chain-settles :
    (p : Pool) (r rest : (Outcome × Pool) × List ℕ)
    → Conserves (λ c. 1) p r
    → Closes r.0.0 r.1
    → (number r.0.1.idle < number p.idle → rest.0.0 ≢ repeated)
    → (followed r rest).0.0 ≢ repeated
chain-settles p ((repeated, q), cs) rest h c k = k (omega (arith, h, c, weigh_one cs))
chain-settles p ((connected c new, q), cs) rest h d k = λ e. cc
chain-settles p ((pool_closed, q), cs) rest h d k = λ e. cc
chain-settles p ((create_failed, q), cs) rest h d k = λ e. cc
chain-settles p ((timed_out, q), cs) rest h d k = λ e. cc
chain-settles p ((waiting, q), cs) rest h d k = λ e. cc

turns-Balanced :
    (f key n : ℕ) (created : Option ℕ) (expired : Bool) (p : Pool)
    → Balanced p n
    → Balanced
        (turns f key created expired p).0.1
        (n + granted (λ c. 1) (turns f key created expired p).0.0)
      × Exhausted n (turns f key created expired p).0.1 (turns f key created expired p).0.0
unfolding turns
turns-Balanced zero key n created expired p b =
    (record { total = omega (arith, b.total); bound = b.bound; shut = b.shut }, tt)
turns-Balanced (suc f) key n created expired p b =
    chain-Balanced n (turn key created expired p) _ (turn-Sound key n created expired p b)
      (turns-Balanced f key n created expired _)

turns-settles :
    (f key n : ℕ) (created : Option ℕ) (expired : Bool) (p : Pool)
    → Balanced p n
    → number p.idle < f
    → (turns f key created expired p).0.0 ≢ repeated
unfolding turns
turns-settles zero key n created expired p b enough = absurd (omega arith)
turns-settles (suc f) key n created expired p b enough =
    let sound = turn-Sound key n created expired p b in
    let q = (turn key created expired p).0.1 in
    chain-settles p (turn key created expired p) _ (turn-Conserves (λ c. 1) key created expired p)
      sound.progress
      (λ less.
        turns-settles f key _ created expired q sound.balanced
          (let strict : number q.idle < number p.idle = less in omega arith))

-- From a pool in balance, with `n` connections given out: `_take_or_create` ends after finitely many
-- turns, the pool stays in balance with what the caller was given, so never more connections exist than
-- the pool may hold; and the caller waits or times out only while all of them are given out.
pub take_or_create-Balanced :
    (key n : ℕ) (created : Option ℕ) (expired : Bool) (p : Pool)
    → Balanced p n
    → let r = (take_or_create key created expired p) in
      (r.0.0 ≢ repeated) × Balanced r.0.1 (n + granted (λ c. 1) r.0.0) × Exhausted n r.0.1 r.0.0
unfolding take_or_create
take_or_create-Balanced key n created expired p b = (
  turns-settles (suc (length (idle_connections p.idle))) key n created expired p b
      (omega (arith, weigh_one (idle_connections p.idle), weigh-idle_connections (λ c. 1) p.idle)),
  (turns-Balanced (suc (length (idle_connections p.idle))) key n created expired p b).0,
  (turns-Balanced (suc (length (idle_connections p.idle))) key n created expired p b).1,
)

pub release-Balanced :
    (key c n : ℕ) (reusable : Bool) (p : Pool)
    → Balanced p (suc n)
    → Balanced (release key c reusable p).0 n
unfolding release
release-Balanced key c n false p b = record {
  total = omega (arith, b.total);
  bound = omega (arith, b.bound);
  shut = b.shut;
}
release-Balanced key c n true p b = elim (Bool-cases p.closed) [
  | inl shut ↦
      rw (shut, release)
        (record {
          total = omega (arith, b.total);
          bound = omega (arith, b.bound);
          shut = λ h. b.shut shut;
        })
  | inr alive ↦
      rw (alive, release)
        (record {
          total = omega (arith, b.total, weight-append_idle (λ c. 1) key c p.idle);
          bound = b.bound;
          shut = λ h. closed-open false refl h;
        })
]

pub close-Balanced : (n : ℕ) (p : Pool) → Balanced p n → Balanced (close p).0 n
unfolding close
close-Balanced n p b = elim (Bool-cases p.closed) [
  | inl shut ↦
      rw (shut, close) (record { total = b.total; bound = b.bound; shut = λ h. b.shut shut })
  | inr alive ↦
      rw (alive, close)
        (record {
          total = omega (
            arith,
            b.total,
            weigh_one (idle_connections p.idle),
            weigh-idle_connections (λ c. 1) p.idle,
          );
          bound = omega (arith, b.bound);
          shut = λ h. refl;
        })
]
