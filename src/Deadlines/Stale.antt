-- ===== src/Deadlines/Stale.antt =====
-- The entries of the heap of `SyncDeadlineScheduler` that are no longer active, and how they are taken out.
use ferricstore_python.Base.{
  ℕ, ◌+◌, ◌*◌, ◌≡◌, ◌≢◌, ◌≤◌, ◌<◌, refl, ap, ◌∙◌, Bool, true, false, ◌&&◌, ◌||◌, not, Option, none,
  some, List, [], ◌∷◌, length, ltb, leb, ◌==◌, ==_iff, ltb→lt, leb→le, ◌⊎◌, inl, inr, if◌then◌else◌,
  All,
}
use ferricstore_python.Base.Assoc.{nat_eq, lookup, erase}
use ferricstore_python.Deadlines.{
  Entry, heapify, keep, has_token, is_active, compact_min_stale, compacted, drop_stale,
}
use ferricstore_python.Deadlines.Heap.{keep-IsSorted, keep-IsDistinct, heapify-sorted, keep-agree}
use ferricstore_python.Deadlines.Live.{
  live, IsHeap, keep-IsHeap, All-map, live-live, is_active-erase,
}

-- Compacting takes out what is not active, or nothing.
pub compacted-cases :
    (n : ℕ) (active : List (ℕ × ℕ)) (heap : List Entry)
    → IsHeap n heap
    → (((length heap < length active + 64) ⊎ (length heap ≤ length active * 2))
        × (compacted active heap ≡ heap))
      ⊎ (compacted active heap ≡ live active heap)
compacted-cases n active heap (s, d, b) =
    go (ltb (length heap) (length active + compact_min_stale))
      (leb (length heap) (length active * 2)) refl refl
  where
    sorted : heapify (live active heap) ≡ live active heap
    sorted =
        heapify-sorted (live active heap) (keep-IsSorted (is_active active) heap s)
          (keep-IsDistinct (is_active active) heap d)

    go :
        (p q : Bool)
        → ltb (length heap) (length active + compact_min_stale) ≡ p
        → leb (length heap) (length active * 2) ≡ q
        → (((length heap < length active + 64) ⊎ (length heap ≤ length active * 2))
            × ((if p || q then heap else heapify (keep (is_active active) heap)) ≡ heap))
          ⊎ ((if p || q then heap else heapify (keep (is_active active) heap)) ≡ live active heap)
    go true q h k = inl (inl (ltb→lt _ _ h), refl)
    go false true h k = inl (inr (leb→le _ _ k), refl)
    go false false h k = inr sorted

pub compacted-live :
    (n : ℕ) (active : List (ℕ × ℕ)) (heap : List Entry)
    → IsHeap n heap
    → live active (compacted active heap) ≡ live active heap
compacted-live n active heap h = elim (compacted-cases n active heap h) [
  | inl (_, e) ↦ ap (live active) e
  | inr e ↦ ap (live active) e ∙ live-live active heap
]

pub compacted-IsHeap :
    (n : ℕ) (active : List (ℕ × ℕ)) (heap : List Entry)
    → IsHeap n heap
    → IsHeap n (compacted active heap)
compacted-IsHeap n active heap h = elim (compacted-cases n active heap h) [
  | inl (_, e) ↦ rw e h
  | inr e ↦ rw e (keep-IsHeap (is_active active) n heap h)
]

-- What the thread drops is not active, and what it stops at is.
abbrev pub HeadIsActive : List (ℕ × ℕ) → List Entry → Type 0
HeadIsActive active [] = Unit
HeadIsActive active (e ∷ heap) = is_active active e ≡ true

pub drop_stale-live :
    (n : ℕ) (active : List (ℕ × ℕ)) (heap : List Entry)
    → IsHeap n heap
    → (live active (drop_stale active heap) ≡ live active heap)
      × IsHeap n (drop_stale active heap)
      × HeadIsActive active (drop_stale active heap)
unfolding drop_stale keep
drop_stale-live n active [] h = (refl, h, tt)
drop_stale-live n active (e ∷ heap) ((s', s), (d', d), (b', b)) =
    go (is_active active e) refl (drop_stale-live n active heap (s, d, b))
  where
    go :
        (c : Bool)
        → is_active active e ≡ c
        → (live active (drop_stale active heap) ≡ live active heap)
          × IsHeap n (drop_stale active heap)
          × HeadIsActive active (drop_stale active heap)
        → (live active (if c then e ∷ heap else drop_stale active heap)
            ≡ (if c then e ∷ live active heap else live active heap))
          × IsHeap n (if c then e ∷ heap else drop_stale active heap)
          × HeadIsActive active (if c then e ∷ heap else drop_stale active heap)
    go true h rest = (rw h refl, ((s', s), (d', d), (b', b)), h)
    go false h rest = rest

pub token_of :
    (active : List (ℕ × ℕ)) (y : Entry)
    → is_active active y ≡ true
    → lookup y.request_id active ≡ some y.token
unfolding is_active
token_of active y h = go (lookup y.request_id active) refl h
  where
    go :
        (o : Option ℕ)
        → lookup y.request_id active ≡ o
        → has_token o y.token ≡ true
        → o ≡ some y.token
    go none e k = absurd cc
    go (some t) e k = ap some ((==_iff t y.token).0 k)

-- The other active entries are of other requests.
others-is_active :
    (active : List (ℕ × ℕ)) (e y : Entry)
    → is_active active e ≡ true
    → y.token ≢ e.token
    → is_active (erase e.request_id active) y ≡ is_active active y
others-is_active active e y h differ =
    is_active-erase e.request_id active y
    ∙ go (y.request_id == e.request_id) (is_active active y) refl refl
  where
    go :
        (b c : Bool)
        → (y.request_id == e.request_id) ≡ b
        → is_active active y ≡ c
        → (not b && c) ≡ c
    go true true k l =
        let same = (==_iff y.request_id e.request_id).0 k in
        let t = token_of active y l in let u = token_of active e h in absurd (differ cc)
    go true false k l = refl
    go false c k l = refl

pub differ-is_active :
    (active : List (ℕ × ℕ)) (e : Entry) (heap : List Entry)
    → is_active active e ≡ true
    → All (λ y. y.token ≢ e.token) heap
    → All (λ y. is_active active y ≡ true) heap
    → All (λ y. is_active (erase e.request_id active) y ≡ true) heap
differ-is_active active e [] h d k = tt
differ-is_active active e (y ∷ heap) h (d', d) (k', k) =
    (others-is_active active e y h d' ∙ k', differ-is_active active e heap h d k)

pub live-expired :
    (n : ℕ) (active : List (ℕ × ℕ)) (e : Entry) (heap : List Entry)
    → IsHeap n (e ∷ heap)
    → is_active active e ≡ true
    → live (erase e.request_id active) heap ≡ live active heap
live-expired n active e heap (s, (d', d), b) h =
    keep-agree (is_active (erase e.request_id active)) (is_active active) heap
      (All-map heap (λ y differ. others-is_active active e y h differ) d')
