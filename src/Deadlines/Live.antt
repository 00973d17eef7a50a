-- ===== src/Deadlines/Live.antt =====
-- The entries of the heap of `SyncDeadlineScheduler` that are still active.
use ferricstore_python.Base.{
  ℕ, suc, ◌≡◌, ◌≤◌, refl, sym, ap, ◌∙◌, Bool, true, false, ◌&&◌, not, none, some, List, [], ◌∷◌,
  ◌==◌, ==_refl, if◌then◌else◌, All, arith,
}
use ferricstore_python.Base.Assoc.{nat_eq, lookup, insert, erase, lookup-insert, lookup-erase}
use ferricstore_python.Deadlines.{Entry, push, keep, has_token, is_active}
use ferricstore_python.Deadlines.Heap.{
  IsSorted, IsDistinct, All-push, All-keep, push-IsSorted, keep-IsSorted, push-IsDistinct,
  keep-IsDistinct, keep-agree, keep-keep, keep-push_in,
}

abbrev pub live : List (ℕ × ℕ) → List Entry → List Entry
live active heap = keep (is_active active) heap

abbrev pub without : ℕ → List Entry → List Entry
without request_id xs = keep (λ e. not (e.request_id == request_id)) xs

-- Sorted, with tokens that differ and have been given out.
abbrev pub IsHeap : ℕ → List Entry → Type 0
IsHeap sequence heap = IsSorted heap × IsDistinct heap × All (λ e. e.token ≤ sequence) heap

pub keep-IsHeap :
    (p : Entry → Bool) (n : ℕ) (heap : List Entry) → IsHeap n heap → IsHeap n (keep p heap)
keep-IsHeap p n heap (s, d, b) =
    (keep-IsSorted p heap s, keep-IsDistinct p heap d, All-keep (λ e. e.token ≤ n) p heap b)

pub All-map :
    {P Q : Entry → Type 0} (xs : List Entry) → ((x : Entry) → P x → Q x) → All P xs → All Q xs
All-map [] f h = tt
All-map (x ∷ xs) f (h, hs) = (f x h, All-map xs f hs)

pub All-every : {P : Entry → Type 0} (xs : List Entry) → ((x : Entry) → P x) → All P xs
All-every [] f = tt
All-every (x ∷ xs) f = (f x, All-every xs f)

pub push-IsHeap :
    (n deadline request_id : ℕ) (heap : List Entry)
    → IsHeap n heap
    → IsHeap
        (suc n)
        (push (record { deadline = deadline; token = suc n; request_id = request_id }) heap)
push-IsHeap n deadline request_id heap (s, d, b) =
    let e : Entry = record { deadline = deadline; token = suc n; request_id = request_id } in
    (
      push-IsSorted e heap s,
      push-IsDistinct e heap (All-map heap (λ x h q. absurd (omega (arith, h, q))) b) d,
      All-push (λ x. x.token ≤ suc n) e heap (omega arith)
          (All-map heap (λ x h. omega (arith, h)) b),
    )

eq_sym : (a b : ℕ) → (a == b) ≡ (b == a)
eq_sym a b = ground arith

pub is_active-erase :
    (request_id : ℕ) (active : List (ℕ × ℕ)) (y : Entry)
    → is_active (erase request_id active) y
      ≡ (not (y.request_id == request_id) && is_active active y)
unfolding is_active
is_active-erase request_id active y =
    rw (lookup-erase request_id y.request_id active) (go (request_id == y.request_id) (eq_sym _ _))
  where
    go :
        (c : Bool)
        → c ≡ (y.request_id == request_id)
        → has_token (if c then none else lookup y.request_id active) y.token
          ≡ (not (y.request_id == request_id) && has_token (lookup y.request_id active) y.token)
    go true h = rw (sym h) refl
    go false h = rw (sym h) refl

is_active-insert :
    (request_id n : ℕ) (active : List (ℕ × ℕ)) (y : Entry)
    → y.token ≤ n
    → is_active (insert request_id (suc n) active) y
      ≡ (not (y.request_id == request_id) && is_active active y)
unfolding is_active
is_active-insert request_id n active y b =
    rw (lookup-insert request_id y.request_id (suc n) active)
      (go (request_id == y.request_id) (eq_sym _ _))
  where
    other : (suc n == y.token) ≡ false
    other = ground arith

    go :
        (c : Bool)
        → c ≡ (y.request_id == request_id)
        → has_token (if c then some (suc n) else lookup y.request_id active) y.token
          ≡ (not (y.request_id == request_id) && has_token (lookup y.request_id active) y.token)
    go true h = rw (sym h) other
    go false h = rw (sym h) refl

is_active-new :
    (request_id n deadline : ℕ) (active : List (ℕ × ℕ))
    → is_active
        (insert request_id (suc n) active)
        (record { deadline = deadline; token = suc n; request_id = request_id })
      ≡ true
unfolding is_active
is_active-new request_id n deadline active =
    rw (lookup-insert request_id request_id (suc n) active, ==_refl request_id) (==_refl (suc n))

pub live-erase :
    (request_id : ℕ) (active : List (ℕ × ℕ)) (heap : List Entry)
    → live (erase request_id active) heap ≡ without request_id (live active heap)
live-erase request_id active heap =
    keep-agree (is_active (erase request_id active))
      (λ y. not (y.request_id == request_id) && is_active active y) heap
      (All-every heap (is_active-erase request_id active))
    ∙ sym (keep-keep (λ e. not (e.request_id == request_id)) (is_active active) heap)

pub live-push :
    (n deadline request_id : ℕ) (active : List (ℕ × ℕ)) (heap : List Entry)
    → IsHeap n heap
    → live
        (insert request_id (suc n) active)
        (push (record { deadline = deadline; token = suc n; request_id = request_id }) heap)
      ≡ push
          (record { deadline = deadline; token = suc n; request_id = request_id })
          (without request_id (live active heap))
live-push n deadline request_id active heap (s, d, b) =
    let e : Entry = record { deadline = deadline; token = suc n; request_id = request_id } in
    keep-push_in (is_active (insert request_id (suc n) active)) e heap
      (is_active-new request_id n deadline active) s
      (All-map heap (λ x h q. absurd (omega (arith, h, q))) b)
    ∙ ap (push e) (
        keep-agree (is_active (insert request_id (suc n) active))
          (λ y. not (y.request_id == request_id) && is_active active y) heap
          (All-map heap (λ y h. is_active-insert request_id n active y h) b)
        ∙ sym (keep-keep (λ e. not (e.request_id == request_id)) (is_active active) heap))

pub live-live :
    (active : List (ℕ × ℕ)) (heap : List Entry) → live active (live active heap) ≡ live active heap
live-live active heap =
    keep-keep (is_active active) (is_active active) heap
    ∙ keep-agree (λ y. is_active active y && is_active active y) (is_active active) heap
        (All-every heap (λ y. same (is_active active y)))
  where
    same : (b : Bool) → (b && b) ≡ b
    same true = refl
    same false = refl
