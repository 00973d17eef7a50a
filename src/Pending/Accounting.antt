-- ===== src/Pending/Accounting.antt =====
-- The invariant of `PendingRequestBudget` of `protocol_lifecycle.py`, and its byte headroom.
use ferricstore_python.Base.{
  ℕ, ◌+◌, ◌-◌, ◌≤◌, ◌<◌, ◌≡◌, ◌↔◌, refl, ◌∙◌, Bool, false, Option, none, some, List, [], ◌∷◌,
  length, leb, if◌then◌else◌, arith, ◌==◌, Bool-cases, Option-cases, ==_iff, inl, inr,
}
use ferricstore_python.Base.Exec.{Outcome, ok, err}
use ferricstore_python.Base.Assoc.{nat_eq, lookup, insert, erase, lookup-insert, lookup-erase}
use ferricstore_python.Pending.{
  Error, RequestBudget, above, is_full, reserve, set_size, remaining_bytes, release, clear,
  headroom, too_many_bytes, missing_request,
}

abbrev pub sum_sizes : List (ℕ × ℕ) → ℕ
sum_sizes [] = 0
sum_sizes ((j, n) ∷ m) = n + sum_sizes m

-- No key stands twice.
abbrev pub IsDict : List (ℕ × ℕ) → Type 0
IsDict [] = Unit
IsDict ((j, n) ∷ m) = (lookup j m ≡ none) × IsDict m

abbrev pub Within : ℕ → Option ℕ → Type 0
Within n none = Unit
Within n (some m) = n ≤ m

pub record IsValid (b : RequestBudget) : Type 0 where
  pub keys : IsDict b.sizes
  pub total : b.total_bytes ≡ sum_sizes b.sizes
  pub few : Within (length b.sizes) b.max_requests
  pub small : Within b.total_bytes b.max_bytes

insert-absent :
    (id j size : ℕ) (m : List (ℕ × ℕ))
    → (j == id) ≡ false
    → lookup j m ≡ none
    → lookup j (insert id size m) ≡ none
insert-absent id j size m ne h = lookup-insert id j size m ∙ ground arith

erase-absent_none : (id j : ℕ) (m : List (ℕ × ℕ)) → lookup j m ≡ none → lookup j (erase id m) ≡ none
erase-absent_none id j m h = lookup-erase id j m ∙ ground arith

module _ (id : ℕ) where
  insert-IsDict : (size : ℕ) (m : List (ℕ × ℕ)) → IsDict m → IsDict (insert id size m)
  unfolding insert
  insert-IsDict size [] h = (unfold lookup in refl, tt)
  insert-IsDict size ((j, n) ∷ m) h = elim (Bool-cases (j == id)) [
    | inl e ↦ rw e h
    | inr e ↦ rw e (insert-absent id j size m e h.0, insert-IsDict size m h.1)
  ]

  sum-insert :
      (size previous : ℕ) (m : List (ℕ × ℕ))
      → lookup id m ≡ some previous
      → sum_sizes (insert id size m) + previous ≡ sum_sizes m + size
  unfolding insert lookup
  sum-insert size previous [] h = cc
  sum-insert size previous ((j, n) ∷ m) h = ground (arith, sum-insert size previous m)

  sum-insert_new :
      (size : ℕ) (m : List (ℕ × ℕ))
      → lookup id m ≡ none
      → sum_sizes (insert id size m) ≡ sum_sizes m + size
  unfolding insert lookup
  sum-insert_new size [] h = omega arith
  sum-insert_new size ((j, n) ∷ m) h = ground (arith, sum-insert_new size m)

  length-insert :
      (size previous : ℕ) (m : List (ℕ × ℕ))
      → lookup id m ≡ some previous
      → length (insert id size m) ≡ length m
  unfolding insert lookup
  length-insert size previous [] h = cc
  length-insert size previous ((j, n) ∷ m) h = ground (arith, length-insert size previous m)

  length-insert_new :
      (size : ℕ) (m : List (ℕ × ℕ)) → lookup id m ≡ none → length (insert id size m) ≡ length m + 1
  unfolding insert lookup
  length-insert_new size [] h = refl
  length-insert_new size ((j, n) ∷ m) h = ground (arith, length-insert_new size m)

  erase-absent : (m : List (ℕ × ℕ)) → lookup id m ≡ none → erase id m ≡ m
  unfolding erase lookup
  erase-absent [] h = refl
  erase-absent ((j, n) ∷ m) h = ground (arith, erase-absent m)

  erase-IsDict : (m : List (ℕ × ℕ)) → IsDict m → IsDict (erase id m)
  unfolding erase
  erase-IsDict [] h = tt
  erase-IsDict ((j, n) ∷ m) h = elim (Bool-cases (j == id)) [
    | inl e ↦ rw e (erase-IsDict m h.1)
    | inr e ↦ rw e (erase-absent_none id j m h.0, erase-IsDict m h.1)
  ]

  sum-erase :
      (previous : ℕ) (m : List (ℕ × ℕ))
      → IsDict m
      → lookup id m ≡ some previous
      → (sum_sizes (erase id m) + previous ≡ sum_sizes m) × (length (erase id m) + 1 ≡ length m)
  unfolding erase lookup
  sum-erase previous [] d h = cc
  sum-erase previous ((j, n) ∷ m) d h =
      ground (arith, sum-erase previous m, erase-absent m, ==_iff j id)

absent-length :
    (n : ℕ) (limit : Option ℕ)
    → elim limit as (λ o. Bool) [ none ↦ false | some m ↦ leb m n ] ≡ false
    → Within (n + 1) limit
absent-length n none h = tt
absent-length n (some m) h = ground arith

Within-above : (n : ℕ) (limit : Option ℕ) → above n limit ≡ false → Within n limit
Within-above n none h = tt
Within-above n (some m) h = ground arith

Within-le : (n k : ℕ) (limit : Option ℕ) → n ≤ k → Within k limit → Within n limit
Within-le n k none h i = tt
Within-le n k (some m) h i = omega arith

module _ {A : Type 0} where
  abbrev pub state : Outcome Error RequestBudget A → RequestBudget
  state (ok a b) = b
  state (err e b) = b

pub reserve-IsValid : (id : ℕ) (b : RequestBudget) → IsValid b → IsValid (state (reserve id b))
unfolding reserve
reserve-IsValid id b v = elim (Option-cases (lookup id b.sizes)) [
  | inl absent ↦ elim (Bool-cases (is_full b)) [
    | inl full ↦ rw (absent, full, reserve) v
    | inr room ↦
        rw (absent, room, reserve)
          (record {
            keys = insert-IsDict id 0 b.sizes v.keys;
            total = omega (arith, v.total, sum-insert_new id 0 b.sizes absent);
            few =
                rw (length-insert_new id 0 b.sizes absent)
                  (absent-length (length b.sizes) b.max_requests room);
            small = v.small;
          })
  ]
  | inr (n, found) ↦ rw (found, reserve) v
]

pub set_size-IsValid :
    (id size : ℕ) (b : RequestBudget) → IsValid b → IsValid (state (set_size id size b))
unfolding set_size
set_size-IsValid id size b v = elim (Option-cases (lookup id b.sizes)) [
  | inl absent ↦ rw (absent, set_size) v
  | inr (n, found) ↦ elim (Bool-cases (above (b.total_bytes - n + size) b.max_bytes)) [
    | inl over ↦ rw (found, over, set_size) v
    | inr room ↦
        rw (found, room, set_size)
          (record {
            keys = insert-IsDict id size b.sizes v.keys;
            total = omega (
              arith,
              v.total,
              sum-insert id size n b.sizes found,
              (sum-erase id n b.sizes v.keys found).0,
            );
            few = rw (length-insert id size n b.sizes found) v.few;
            small = Within-above (b.total_bytes - n + size) b.max_bytes room;
          })
  ]
]

pub release-IsValid : (id : ℕ) (b : RequestBudget) → IsValid b → IsValid (release id b).1
unfolding release
release-IsValid id b v = elim (Option-cases (lookup id b.sizes)) [
  | inl absent ↦ rw (absent, release) v
  | inr (n, found) ↦
      let (total, number) = sum-erase id n b.sizes v.keys found in
      rw (found, release)
        (record {
          keys = erase-IsDict id b.sizes v.keys;
          total = omega (arith, v.total, total);
          few =
              Within-le (length (erase id b.sizes)) (length b.sizes) b.max_requests
                (omega (arith, number)) v.few;
          small = Within-le (b.total_bytes - n) b.total_bytes b.max_bytes (omega arith) v.small;
        })
]

pub clear-IsValid : (b : RequestBudget) → IsValid b → IsValid (clear b)
unfolding clear
clear-IsValid b v = record {
  keys = tt;
  total = refl;
  few = Within-le 0 (length b.sizes) b.max_requests (omega arith) v.few;
  small = Within-le 0 b.total_bytes b.max_bytes (omega arith) v.small;
}

-- What the owners of a budget may do with it, in any order.
pub data Operation : Type 0 where
  reserving : ℕ → Operation
  sizing : ℕ → ℕ → Operation
  releasing : ℕ → Operation
  clearing : Operation

abbrev pub perform : Operation → RequestBudget → RequestBudget
perform (reserving id) b = state (reserve id b)
perform (sizing id size) b = state (set_size id size b)
perform (releasing id) b = (release id b).1
perform clearing b = clear b

abbrev pub perform_all : List Operation → RequestBudget → RequestBudget
perform_all [] b = b
perform_all (op ∷ ops) b = perform_all ops (perform op b)

perform-IsValid : (op : Operation) (b : RequestBudget) → IsValid b → IsValid (perform op b)
perform-IsValid (reserving id) b v = reserve-IsValid id b v
perform-IsValid (sizing id size) b v = set_size-IsValid id size b v
perform-IsValid (releasing id) b v = release-IsValid id b v
perform-IsValid clearing b v = clear-IsValid b v

-- Whatever operations are performed, failing ones included, from a valid budget on: no request is
-- registered twice, the total is the sum of the registered sizes, and neither the number of requests
-- nor the total passes its limit.
pub perform_all-IsValid :
    (ops : List Operation) (b : RequestBudget) → IsValid b → IsValid (perform_all ops b)
perform_all-IsValid [] b v = v
perform_all-IsValid (op ∷ ops) b v = perform_all-IsValid ops (perform op b) (perform-IsValid op b v)

-- The headroom that `remaining_bytes` reports is exactly the largest size that `set_size` accepts for a
-- registered request of a valid budget with a byte limit.
pub remaining_bytes-set_size :
    (id size m room : ℕ) (b : RequestBudget)
    → IsValid b
    → b.max_bytes ≡ some m
    → remaining_bytes id b ≡ ok (some room) b
    → (set_size id size b ≡ err too_many_bytes b) ↔ (room < size)
unfolding remaining_bytes set_size
remaining_bytes-set_size id size m room b v limit h = elim (Option-cases (lookup id b.sizes)) [
  | inl absent ↦
      let impossible : err missing_request b ≡ ok (some room) b =
        rw (absent, remaining_bytes) at h in
      cc
  | inr (n, found) ↦
      let exact : headroom b.max_bytes (b.total_bytes - n) ≡ some room =
        read (rw (found, remaining_bytes) at h) in
      let (total, number) = sum-erase id n b.sizes v.keys found in
      rw (found, set_size)
        (decide n b.max_bytes limit v.small exact (omega (arith, v.total, total)))
]
  where
    read :
        {o : Option ℕ}
        → ◌≡◌ {A = Outcome Error RequestBudget (Option ℕ)} (ok o b) (ok (some room) b)
        → o ≡ some room
    read e = cc

    decide :
        (n : ℕ) (limit : Option ℕ)
        → limit ≡ some m
        → Within b.total_bytes limit
        → headroom limit (b.total_bytes - n) ≡ some room
        → n ≤ b.total_bytes
        → ((if above (b.total_bytes - n + size) limit
              then err too_many_bytes b
              else ok tt (record b {
                sizes = insert id size b.sizes;
                total_bytes = b.total_bytes - n + size;
              }))
            ≡ err too_many_bytes b)
          ↔ (room < size)
    decide n none e i j k = cc
    decide n (some p) e i j k = ground arith
