-- ===== src/Locks/Sorting.antt =====
-- `_lock_keys` of `langgraph/_locks.py`: the order in which locks are taken.
use ferricstore_python.Base.{
  ℕ, ◌≡◌, ◌↔◌, ◌⊎◌, inl, inr, ◌<◌, refl, Bool, true, false, List, [], ◌∷◌, ltb, ltb→lt, ◌==◌,
  ==_iff, if◌then◌else◌, All, arith,
}
use ferricstore_python.Locks.{insert_key, lock_keys}

-- Each key is above the ones before it.
abbrev pub IsAscending : List ℕ → Type 0
IsAscending [] = Unit
IsAscending (k ∷ ks) = All (λ j. k < j) ks × IsAscending ks

abbrev pub IsIn : ℕ → List ℕ → Type 0
IsIn k [] = ⊥
IsIn k (j ∷ js) = (k ≡ j) ⊎ IsIn k js

All-insert :
    (k j : ℕ) (js : List ℕ) → j < k → All (λ i. j < i) js → All (λ i. j < i) (insert_key k js)
unfolding insert_key
All-insert k j [] h a = (h, tt)
All-insert k j (i ∷ js) h (a, as') = go (ltb k i) (k == i) (All-insert k j js h as')
  where
    go :
        (b c : Bool)
        → All (λ i. j < i) (insert_key k js)
        → All (λ i. j < i) (if b then k ∷ i ∷ js else if c then i ∷ js else i ∷ insert_key k js)
    go true c rest = (h, (a, as'))
    go false true rest = (a, as')
    go false false rest = (a, rest)

lower_bounds : (k i : ℕ) (js : List ℕ) → k < i → All (λ j. i < j) js → All (λ j. k < j) js
lower_bounds k i [] h a = tt
lower_bounds k i (j ∷ js) h (a, as') = (omega (arith, h, a), lower_bounds k i js h as')

insert_key-IsAscending : (k : ℕ) (js : List ℕ) → IsAscending js → IsAscending (insert_key k js)
unfolding insert_key
insert_key-IsAscending k [] h = (tt, tt)
insert_key-IsAscending k (j ∷ js) (a, h) =
    go (ltb k j) (k == j) refl refl (insert_key-IsAscending k js h)
  where
    above : ltb k j ≡ false → (k == j) ≡ false → j < k
    above p q = ground arith

    go :
        (b c : Bool)
        → ltb k j ≡ b
        → (k == j) ≡ c
        → IsAscending (insert_key k js)
        → IsAscending (if b then k ∷ j ∷ js else if c then j ∷ js else j ∷ insert_key k js)
    go true c p q rest = ((ltb→lt k j p, lower_bounds k j js (ltb→lt k j p) a), (a, h))
    go false true p q rest = (a, h)
    go false false p q rest = (All-insert k j js (above p q) a, rest)

insert_key-IsIn : (x k : ℕ) (js : List ℕ) → IsIn x (insert_key k js) ↔ ((x ≡ k) ⊎ IsIn x js)
unfolding insert_key
insert_key-IsIn x k [] = (λ h. h, λ h. h)
insert_key-IsIn x k (j ∷ js) = go (ltb k j) (k == j) refl (insert_key-IsIn x k js)
  where
    go :
        (b c : Bool)
        → (k == j) ≡ c
        → (IsIn x (insert_key k js) ↔ ((x ≡ k) ⊎ IsIn x js))
        → IsIn x (if b then k ∷ j ∷ js else if c then j ∷ js else j ∷ insert_key k js)
          ↔ ((x ≡ k) ⊎ IsIn x (j ∷ js))
    go true c q rest = (λ h. h, λ h. h)
    go false true q rest =
        let same = (==_iff k j).0 q in (inr, λ h. elim h [ inl e ↦ inl cc | inr i ↦ i ])
    go false false q rest = (
      λ h. elim h [
        | inl e ↦ inr (inl e)
        | inr i ↦ elim (rest.0 i) [ inl e ↦ inl e | inr l ↦ inr (inr l) ]
      ],
      λ h. elim h [
        | inl e ↦ inr (rest.1 (inl e))
        | inr i ↦ elim i [ inl e ↦ inl e | inr l ↦ inr (rest.1 (inr l)) ]
      ],
    )

pub lock_keys-IsAscending : (keys : List ℕ) → IsAscending (lock_keys keys)
unfolding lock_keys
lock_keys-IsAscending [] = tt
lock_keys-IsAscending (k ∷ ks) = insert_key-IsAscending k (lock_keys ks) (lock_keys-IsAscending ks)

pub lock_keys-IsIn : (x : ℕ) (keys : List ℕ) → IsIn x (lock_keys keys) ↔ IsIn x keys
unfolding lock_keys
lock_keys-IsIn x [] = (λ h. h, λ h. h)
lock_keys-IsIn x (k ∷ ks) =
    let i = insert_key-IsIn x k (lock_keys ks) in
    let l = lock_keys-IsIn x ks in
    (
      λ h. elim (i.0 h) [ inl e ↦ inl e | inr m ↦ inr (l.0 m) ],
      λ h. elim h [ inl e ↦ i.1 (inl e) | inr m ↦ i.1 (inr (l.1 m)) ],
    )
