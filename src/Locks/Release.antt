-- ===== src/Locks/Release.antt =====
-- `run_sync_with_locks` of `langgraph/_locks.py`: what is locked, done and unlocked, in which order.
use ferricstore_python.Base.{
  ℕ, zero, suc, ◌≡◌, ◌↔◌, ◌⊎◌, inl, inr, ◌≤◌, refl, sym, ap, ◌∙◌, Option, none, some, List, [], ◌∷◌,
  ◌++◌, map, length, take, arith, append_assoc, append_nil,
}
use ferricstore_python.Locks.{
  Attempts, Event, locks, unlocks, operates, Error, Result, raises, backwards, lock_keys, acquire,
  acquire_from, acquire_all, with_locks, run_ordered, run_sync_with_locks,
}
use ferricstore_python.Locks.Sorting.{IsAscending, IsIn, lock_keys-IsAscending, lock_keys-IsIn}

backwards-append : (xs ys : List ℕ) → backwards (xs ++ ys) ≡ backwards ys ++ backwards xs
backwards-append [] ys = sym (append_nil (backwards ys))
backwards-append (x ∷ xs) ys =
    ap (λ (l : List ℕ). l ++ x ∷ []) (backwards-append xs ys)
    ∙ append_assoc (backwards ys) (backwards xs) (x ∷ [])

backwards-backwards : (xs : List ℕ) → backwards (backwards xs) ≡ xs
backwards-backwards [] = refl
backwards-backwards (x ∷ xs) =
    backwards-append (backwards xs) (x ∷ []) ∙ ap (λ (l : List ℕ). x ∷ l) (backwards-backwards xs)

-- How many of the keys, in order, have been acquired, and whether an error ended the loop before all were.
abbrev Acquires : {E : Type 0} → List ℕ → List ℕ → List ℕ × Option (Error E) → Type 0
Acquires keys held (got, some e) =
    (n : ℕ) × (n ≤ length keys) × (got ≡ backwards (take n keys) ++ held)
Acquires keys held (got, none) = got ≡ backwards keys ++ held

module _ {E : Type 0} (attempts : ℕ → Attempts E) where
  Acquires-later :
      (key : ℕ) (keys held : List ℕ) (r : List ℕ × Option (Error E))
      → Acquires keys (key ∷ held) r
      → Acquires (key ∷ keys) held r
  Acquires-later key keys held (got, some e) (n, le, h) =
      (suc n, omega (arith, le), h ∙ sym (append_assoc (backwards (take n keys)) (key ∷ []) held))
  Acquires-later key keys held (got, none) h =
      h ∙ sym (append_assoc (backwards keys) (key ∷ []) held)

  acquire_all-Acquires : (keys held : List ℕ) → Acquires keys held (acquire_all attempts keys held)
  unfolding acquire_all
  acquire_all-Acquires [] held = refl
  acquire_all-Acquires (key ∷ keys) held =
      go (acquire key (attempts key))
        (Acquires-later key keys held _ (acquire_all-Acquires keys (key ∷ held)))
    where
      go :
          (o : Option (Error E))
          → Acquires (key ∷ keys) held (acquire_all attempts keys (key ∷ held))
          → Acquires
              (key ∷ keys)
              held
              (acquire_from o held (acquire_all attempts keys (key ∷ held)))
      go none rest = rest
      go (some e) rest = (zero, omega arith, refl)

-- The first `n` of the keys are locked in their order and unlocked in the opposite one; in between the
-- operation runs if those are all the keys, and it does not if an error came before.
abbrev pub IsBracketed : {E A : Type 0} → List ℕ → List Event × Result E A → Type 0
IsBracketed {E} keys (events, result) =
    (n : ℕ) × (between : List Event) × (n ≤ length keys)
    × (events ≡ map locks (take n keys) ++ (between ++ map unlocks (backwards (take n keys))))
    × (((between ≡ []) × ((e : Error E) × (result ≡ raises e)))
        ⊎ ((between ≡ operates ∷ []) × (n ≡ length keys)))

take-length : (xs : List ℕ) → take (length xs) xs ≡ xs
take-length [] = refl
take-length (x ∷ xs) = ap (λ (l : List ℕ). x ∷ l) (take-length xs)

module _ {E A : Type 0} (unlock_error : ℕ → Option E) (heartbeat_error : Option E)
    (result : Result E A) where
  with_locks-IsBracketed :
      (keys : List ℕ) (r : List ℕ × Option (Error E))
      → Acquires keys [] r
      → IsBracketed keys (with_locks unlock_error none heartbeat_error result r)
  with_locks-IsBracketed keys (held, some e) (n, le, h) =
      let same : held ≡ backwards (take n keys) = h ∙ append_nil (backwards (take n keys)) in
      (
        n,
        [],
        le,
        ap (λ l. map locks (backwards l) ++ map unlocks l) same
            ∙ ap (λ l. map locks l ++ map unlocks (backwards (take n keys)))
                (backwards-backwards (take n keys)),
        inl (refl, (e, refl)),
      )
  with_locks-IsBracketed keys (held, none) h =
      let same : held ≡ backwards (take (length keys) keys) =
        h ∙ append_nil (backwards keys) ∙ ap backwards (sym (take-length keys)) in
      (
        length keys,
        operates ∷ [],
        omega arith,
        ap (λ l. map locks (backwards l) ++ operates ∷ map unlocks l) same
            ∙ ap (λ l. map locks l ++ operates ∷ map unlocks (backwards (take (length keys) keys)))
                (backwards-backwards (take (length keys) keys)),
        inr (refl, refl),
      )

  run_ordered-IsBracketed :
      (attempts : ℕ → Attempts E) (keys : List ℕ)
      → IsBracketed keys (run_ordered attempts unlock_error none heartbeat_error result keys)
  run_ordered-IsBracketed attempts [] = (zero, operates ∷ [], omega arith, refl, inr (refl, refl))
  run_ordered-IsBracketed attempts (key ∷ keys) =
      with_locks-IsBracketed (key ∷ keys) (acquire_all attempts (key ∷ keys) [])
        (acquire_all-Acquires attempts (key ∷ keys) [])

  -- Where the heartbeat starts, however the attempts, the operation and the UNLOCKs end: the distinct
  -- ones of the keys are locked in ascending order, exactly those that were locked are unlocked, in the opposite order, and the
  -- operation runs in between once all of them are locked, or not at all and an error is raised.
  pub run_sync_with_locks-IsBracketed :
      (attempts : ℕ → Attempts E) (keys : List ℕ)
      → IsAscending (lock_keys keys)
        × ((x : ℕ) → IsIn x (lock_keys keys) ↔ IsIn x keys)
        × IsBracketed
            (lock_keys keys)
            (run_sync_with_locks attempts unlock_error none heartbeat_error result keys)
  unfolding run_sync_with_locks
  run_sync_with_locks-IsBracketed attempts keys = (
    lock_keys-IsAscending keys,
    λ x. lock_keys-IsIn x keys,
    run_ordered-IsBracketed attempts (lock_keys keys),
  )
