-- ===== src/Lifecycle/Threads.antt =====
-- Weights of the places of threads, summed: what a step of one thread changes.
use ferricstore_python.Base.{
  ℕ, zero, suc, ◌+◌, ◌≡◌, ◌≢◌, ◌≤◌, refl, some, List, [], ◌∷◌, get_elem?, set, replicate, arith,
}
use ferricstore_python.Lifecycle.Coordinator.{Place, wake, wake_all}

module _ (w : Place → ℕ) where
  abbrev pub sum : List Place → ℕ
  sum [] = 0
  sum (p ∷ ps) = w p + sum ps

  pub sum-set :
      (ps : List Place) (i : ℕ) (p q : Place)
      → get_elem? ps i ≡ some p
      → sum (set ps i q) + w p ≡ sum ps + w q
  sum-set [] i p q h = absurd cc
  sum-set (x ∷ ps) zero p q h = let e : x ≡ p = cc in rw e (omega arith)
  sum-set (x ∷ ps) (suc i) p q h = omega (arith, sum-set ps i p q h)

  pub sum-at : (ps : List Place) (i : ℕ) (p : Place) → get_elem? ps i ≡ some p → w p ≤ sum ps
  sum-at [] i p h = absurd cc
  sum-at (x ∷ ps) zero p h = let e : x ≡ p = cc in rw e (omega arith)
  sum-at (x ∷ ps) (suc i) p h = omega (arith, sum-at ps i p h)

  pub sum-two :
      (ps : List Place) (i j : ℕ) (p q : Place)
      → get_elem? ps i ≡ some p
      → get_elem? ps j ≡ some q
      → i ≢ j
      → w p + w q ≤ sum ps
  sum-two [] i j p q h k n = absurd cc
  sum-two (x ∷ ps) zero zero p q h k n = absurd (n refl)
  sum-two (x ∷ ps) zero (suc j) p q h k n =
      let e : x ≡ p = cc in rw e (omega (arith, sum-at ps j q k))
  sum-two (x ∷ ps) (suc i) zero p q h k n =
      let e : x ≡ q = cc in rw e (omega (arith, sum-at ps i p h))
  sum-two (x ∷ ps) (suc i) (suc j) p q h k n =
      omega (arith, sum-two ps i j p q h k (λ e. n (rw e refl)))

  -- A positive sum has a thread with a weight.
  pub sum-some :
      (ps : List Place) → 1 ≤ sum ps → (i : ℕ) × (p : Place) × (get_elem? ps i ≡ some p) × (1 ≤ w p)
  sum-some [] h = absurd (omega (arith, h))
  sum-some (x ∷ ps) h = go (w x) refl (sum-some ps)
    where
      go :
          (n : ℕ)
          → w x ≡ n
          → (1 ≤ sum ps → (i : ℕ) × (p : Place) × (get_elem? ps i ≡ some p) × (1 ≤ w p))
          → (i : ℕ) × (p : Place) × (get_elem? (x ∷ ps) i ≡ some p) × (1 ≤ w p)
      go zero e rest = let (i, p, at, more) = rest (omega (arith, e, h)) in (suc i, p, at, more)
      go (suc n) e rest = (zero, x, refl, omega (arith, e))

  pub sum-replicate : (n : ℕ) (p : Place) → w p ≡ 0 → sum (replicate n p) ≡ 0
  sum-replicate zero p h = refl
  sum-replicate (suc n) p h = omega (arith, h, sum-replicate n p h)

pub sum-wake_all :
    (w : Place → ℕ) (ps : List Place)
    → ((p : Place) → w (wake p) ≡ w p)
    → sum w (wake_all ps) ≡ sum w ps
sum-wake_all w [] h = refl
sum-wake_all w (p ∷ ps) h = omega (arith, h p, sum-wake_all w ps h)

pub sum-woken :
    (w : Place → ℕ) (ps : List Place) → ((p : Place) → w (wake p) ≡ 0) → sum w (wake_all ps) ≡ 0
sum-woken w [] h = refl
sum-woken w (p ∷ ps) h = omega (arith, h p, sum-woken w ps h)

pub get_elem?-wake_all :
    (ps : List Place) (i : ℕ) (p : Place)
    → get_elem? ps i ≡ some p
    → get_elem? (wake_all ps) i ≡ some (wake p)
get_elem?-wake_all [] i p h = absurd cc
get_elem?-wake_all (x ∷ ps) zero p h = let e : x ≡ p = cc in rw e refl
get_elem?-wake_all (x ∷ ps) (suc i) p h = get_elem?-wake_all ps i p h

pub sum-le : (u v : Place → ℕ) (ps : List Place) → ((p : Place) → u p ≤ v p) → sum u ps ≤ sum v ps
sum-le u v [] h = omega arith
sum-le u v (p ∷ ps) h = omega (arith, h p, sum-le u v ps h)
