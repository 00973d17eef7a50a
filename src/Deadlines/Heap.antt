-- ===== src/Deadlines/Heap.antt =====
-- Sorted lists of entries: pushing and filtering, for the heap of `SyncDeadlineScheduler`.
use ferricstore_python.Base.{
  ◌≡◌, ◌≢◌, refl, sym, ap, ◌∙◌, Bool, true, false, ◌&&◌, List, [], ◌∷◌, if◌then◌else◌, All, arith,
}
use ferricstore_python.Deadlines.{Entry, before, push, heapify, keep}

-- No later element comes before an earlier one.
abbrev pub IsSorted : List Entry → Type 0
IsSorted [] = Unit
IsSorted (x ∷ xs) = All (λ y. before y x ≡ false) xs × IsSorted xs

module _ (P : Entry → Type 0) where
  pub All-push : (e : Entry) (xs : List Entry) → P e → All P xs → All P (push e xs)
  unfolding push
  All-push e [] h hs = (h, tt)
  All-push e (x ∷ xs) h (k, ks) = go (before e x) (All-push e xs h ks)
    where
      go : (b : Bool) → All P (push e xs) → All P (if b then e ∷ x ∷ xs else x ∷ push e xs)
      go true rest = (h, (k, ks))
      go false rest = (k, rest)

  pub All-keep : (p : Entry → Bool) (xs : List Entry) → All P xs → All P (keep p xs)
  unfolding keep
  All-keep p [] hs = tt
  All-keep p (x ∷ xs) (k, ks) = go (p x) (All-keep p xs ks)
    where
      go : (b : Bool) → All P (keep p xs) → All P (if b then x ∷ keep p xs else keep p xs)
      go true rest = (k, rest)
      go false rest = rest

before_trans : (a b c : Entry) → before a b ≡ true → before c b ≡ false → before c a ≡ false
before_trans a b c h k = ground arith

before-asym : (a b : Entry) → before a b ≡ true → before b a ≡ false
before-asym a b h = ground arith

All-trans :
    (e x : Entry) (xs : List Entry)
    → before e x ≡ true
    → All (λ y. before y x ≡ false) xs
    → All (λ y. before y e ≡ false) xs
All-trans e x [] h ks = tt
All-trans e x (y ∷ ys) h (k, ks) = (before_trans e x y h k, All-trans e x ys h ks)

pub push-IsSorted : (e : Entry) (xs : List Entry) → IsSorted xs → IsSorted (push e xs)
unfolding push
push-IsSorted e [] s = (tt, tt)
push-IsSorted e (x ∷ xs) (k, s) = go (before e x) refl (push-IsSorted e xs s)
  where
    go :
        (b : Bool)
        → before e x ≡ b
        → IsSorted (push e xs)
        → IsSorted (if b then e ∷ x ∷ xs else x ∷ push e xs)
    go true h rest = ((before-asym e x h, All-trans e x xs h k), (k, s))
    go false h rest = (All-push (λ y. before y x ≡ false) e xs h k, rest)

pub keep-IsSorted : (p : Entry → Bool) (xs : List Entry) → IsSorted xs → IsSorted (keep p xs)
unfolding keep
keep-IsSorted p [] s = tt
keep-IsSorted p (x ∷ xs) (k, s) =
    go (p x) (keep-IsSorted p xs s) (All-keep (λ y. before y x ≡ false) p xs k)
  where
    go :
        (b : Bool)
        → IsSorted (keep p xs)
        → All (λ y. before y x ≡ false) (keep p xs)
        → IsSorted (if b then x ∷ keep p xs else keep p xs)
    go true rest l = (l, rest)
    go false rest l = rest

-- An entry that no later one comes before stands first.
push-first :
    (e : Entry) (xs : List Entry)
    → All (λ y. before y e ≡ false) xs
    → All (λ y. y.token ≢ e.token) xs
    → push e xs ≡ e ∷ xs
unfolding push
push-first e [] h d = refl
push-first e (x ∷ xs) (h, hs) (d, ds) =
    let first : before e x ≡ true = ground arith in rw first refl

-- Tokens differ from entry to entry.
abbrev pub IsDistinct : List Entry → Type 0
IsDistinct [] = Unit
IsDistinct (x ∷ xs) = All (λ y. y.token ≢ x.token) xs × IsDistinct xs

pub heapify-sorted : (xs : List Entry) → IsSorted xs → IsDistinct xs → heapify xs ≡ xs
unfolding heapify
heapify-sorted [] s d = refl
heapify-sorted (x ∷ xs) (k, s) (l, d) = ap (push x) (heapify-sorted xs s d) ∙ push-first x xs k l

pub push-IsDistinct :
    (e : Entry) (xs : List Entry)
    → All (λ y. y.token ≢ e.token) xs
    → IsDistinct xs
    → IsDistinct (push e xs)
unfolding push
push-IsDistinct e [] h d = (tt, tt)
push-IsDistinct e (x ∷ xs) (h, hs) (k, d) = go (before e x) (push-IsDistinct e xs hs d)
  where
    go : (b : Bool) → IsDistinct (push e xs) → IsDistinct (if b then e ∷ x ∷ xs else x ∷ push e xs)
    go true rest = ((h, hs), (k, d))
    go false rest = (All-push (λ y. y.token ≢ x.token) e xs (λ q. h (sym q)) k, rest)

pub keep-IsDistinct : (p : Entry → Bool) (xs : List Entry) → IsDistinct xs → IsDistinct (keep p xs)
unfolding keep
keep-IsDistinct p [] s = tt
keep-IsDistinct p (x ∷ xs) (k, s) =
    go (p x) (keep-IsDistinct p xs s) (All-keep (λ y. y.token ≢ x.token) p xs k)
  where
    go :
        (b : Bool)
        → IsDistinct (keep p xs)
        → All (λ y. y.token ≢ x.token) (keep p xs)
        → IsDistinct (if b then x ∷ keep p xs else keep p xs)
    go true rest l = (l, rest)
    go false rest l = rest

-- Filtering by tests that agree on the entries.
pub keep-agree :
    (p q : Entry → Bool) (xs : List Entry) → All (λ y. p y ≡ q y) xs → keep p xs ≡ keep q xs
unfolding keep
keep-agree p q [] h = refl
keep-agree p q (x ∷ xs) (h, hs) = rw (h, keep-agree p q xs hs) refl

pub keep-keep :
    (p q : Entry → Bool) (xs : List Entry) → keep p (keep q xs) ≡ keep (λ y. p y && q y) xs
unfolding keep
keep-keep p q [] = refl
keep-keep p q (x ∷ xs) = go (p x) (q x) refl (keep-keep p q xs)
  where
    go :
        (a b : Bool)
        → p x ≡ a
        → keep p (keep q xs) ≡ keep (λ y. p y && q y) xs
        → keep p (if b then x ∷ keep q xs else keep q xs)
          ≡ (if a && b then x ∷ keep (λ y. p y && q y) xs else keep (λ y. p y && q y) xs)
    go true true h rest = rw h (ap (λ (l : List Entry). x ∷ l) rest)
    go false true h rest = rw h rest
    go true false h rest = rest
    go false false h rest = rest

pub keep_comm : (p q : Entry → Bool) (xs : List Entry) → keep p (keep q xs) ≡ keep q (keep p xs)
keep_comm p q xs =
    keep-keep p q xs
    ∙ keep-agree (λ y. p y && q y) (λ y. q y && p y) xs (every xs)
    ∙ sym (keep-keep q p xs)
  where
    swap : (a b : Bool) → (a && b) ≡ (b && a)
    swap true true = refl
    swap true false = refl
    swap false true = refl
    swap false false = refl

    every : (xs : List Entry) → All (λ y. (p y && q y) ≡ (q y && p y)) xs
    every [] = tt
    every (x ∷ xs) = (swap (p x) (q x), every xs)

pub keep_everything :
    (p : Entry → Bool) (xs : List Entry) → All (λ y. p y ≡ true) xs → keep p xs ≡ xs
unfolding keep
keep_everything p [] h = refl
keep_everything p (x ∷ xs) (h, hs) = rw h (ap (λ (l : List Entry). x ∷ l) (keep_everything p xs hs))

keep-dropped :
    (p : Entry → Bool) (e : Entry) (xs : List Entry) → p e ≡ false → keep p (e ∷ xs) ≡ keep p xs
unfolding keep
keep-dropped p e xs h = rw h refl

pub keep-push_out :
    (p : Entry → Bool) (e : Entry) (xs : List Entry) → p e ≡ false → keep p (push e xs) ≡ keep p xs
unfolding push keep
keep-push_out p e [] h = keep-dropped p e [] h
keep-push_out p e (x ∷ xs) h = go (before e x) (p x) refl (keep-push_out p e xs h)
  where
    go :
        (b c : Bool)
        → p x ≡ c
        → keep p (push e xs) ≡ keep p xs
        → keep p (if b then e ∷ x ∷ xs else x ∷ push e xs)
          ≡ (if c then x ∷ keep p xs else keep p xs)
    go true c k rest = rw (h, k) refl
    go false true k rest = rw k (ap (λ (l : List Entry). x ∷ l) rest)
    go false false k rest = rw k rest

pub keep-push_in :
    (p : Entry → Bool) (e : Entry) (xs : List Entry)
    → p e ≡ true
    → IsSorted xs
    → All (λ y. y.token ≢ e.token) xs
    → keep p (push e xs) ≡ push e (keep p xs)
unfolding push keep
keep-push_in p e [] h s d = rw h refl
keep-push_in p e (x ∷ xs) h (k, s) (n, d) =
    go (before e x) (p x) refl refl (keep-push_in p e xs h s d)
  where
    all_later : before e x ≡ true → All (λ y. before y e ≡ false) (x ∷ xs)
    all_later f = (before-asym e x f, All-trans e x xs f k)

    go :
        (b c : Bool)
        → before e x ≡ b
        → p x ≡ c
        → keep p (push e xs) ≡ push e (keep p xs)
        → keep p (if b then e ∷ x ∷ xs else x ∷ push e xs)
          ≡ push e (if c then x ∷ keep p xs else keep p xs)
    go true true f g rest =
        rw (h, g)
          (sym (
            push-first e (x ∷ keep p xs)
              (before-asym e x f, All-keep (λ y. before y e ≡ false) p xs (all_later f).1)
              (n, All-keep (λ y. y.token ≢ e.token) p xs d)))
    go true false f g rest =
        rw (h, g)
          (sym (
            push-first e (keep p xs) (All-keep (λ y. before y e ≡ false) p xs (all_later f).1)
              (All-keep (λ y. y.token ≢ e.token) p xs d)))
    go false true f g rest = rw (g, f) (ap (λ (l : List Entry). x ∷ l) rest)
    go false false f g rest = rw g rest
