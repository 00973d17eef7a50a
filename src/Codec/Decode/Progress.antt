-- ===== src/Codec/Decode/Progress.antt =====
-- The decoder of `protocol_codec.py`: how far a read moves, and what it takes from the budget.
use ferricstore_python.Base.{
  ℕ, zero, suc, ◌+◌, ◌-◌, ◌≤◌, ◌≡◌, refl, Bool, true, false, none, some, List, [], ◌∷◌, length, ltb,
  ◌==◌, arith, if◌then◌else◌, ap, ◌∙◌, Bool-cases, ltb_false→le, inl, inr,
}
use mathlib.Core.Path.{subst, fun_ext}
use ferricstore_python.Base.Exec.{Outcome, ok, err, pure, continue}
use ferricstore_python.Codec.Value.{
  Error, nesting, unknown_tag, Value, null, boolean, Fields, contains, count, count_fields,
}
use ferricstore_python.Codec.Wire.{cost, cost_items, cost_fields}
use ferricstore_python.Codec.Decode.{
  Budget, Decode, require_available, read_u32, read_binary, read_word, read_bytes, consume,
  decode_items, decode_list_items, decode_list, decode_entry, decode_fields, decode_map, decode_tag,
  decode_levels,
}
use ferricstore_python.Codec.Decode.Reads.{Covers, spend, spend-add}
use ferricstore_python.Codec.Decode.RoundTrip.{decode_list_items-list_loop}

-- From `offset` to `end` in the buffer, at a charge of `n` items that the budget `r` covers.
pub record Moves (size offset stop : ℕ) (r r' : Budget) (n : ℕ) : Type 0 where
  pub forward : offset ≤ stop
  pub inside : offset ≤ size → stop ≤ size
  pub paid : Covers r n
  pub left : r' ≡ spend r n

Moves-stay : (size offset : ℕ) (r : Budget) → Moves size offset offset r r 0
Moves-stay size offset none = ground arith
Moves-stay size offset (some r) = ground arith

Covers-add : (r : Budget) (m n : ℕ) → Covers r m → Covers (spend r m) n → Covers r (m + n)
Covers-add none m n h i = tt
Covers-add (some r) m n h i = omega arith

Moves-trans :
    {size a b c : ℕ} {r s t : Budget} (m n : ℕ)
    → Moves size a b r s m
    → Moves size b c s t n
    → Moves size a c r t (m + n)
Moves-trans {r = r} m n h i = record {
  forward = omega arith;
  inside = λ k. i.inside (h.inside k);
  paid = Covers-add r m n h.paid (rw (h.left) at i.paid);
  left = i.left ∙ ap (λ (b : Budget). spend b n) h.left ∙ spend-add r m n;
}

-- What an outcome says: if it returned `a`, it moved, took `c a` items, and `Q a` holds.
module _ {A : Type 0} (size offset : ℕ) (r : Budget) (c : A → ℕ) (Q : A → Type 0) where
  abbrev pub Holds : Outcome Error Budget (A × ℕ) → Type 0
  Holds (ok (a, stop) r') = Moves size offset stop r r' (c a) × Q a
  Holds (err e s) = Unit

  pub record Done (o : Outcome Error Budget (A × ℕ)) : Type 0 where
    pub holds : Holds o

module _ {A : Type 0} where
  abbrev Any : A → Type 0
  Any a = Unit

module _ {A : Type 0} {size : ℕ} {c : A → ℕ} {Q : A → Type 0} where
  Done-ok :
      {offset stop : ℕ} {r t : Budget} {a : A}
      → Moves size offset stop r t (c a)
      → Q a
      → Done size offset r c Q (ok (a, stop) t)
  Done-ok h q = record { holds = (h, q) }

  Done-err : {offset : ℕ} {r : Budget} (e : Error) (t : Budget) → Done size offset r c Q (err e t)
  Done-err e t = record { holds = tt }

  -- A later part, counted from the start of the whole.
  Done-shift :
      {offset o : ℕ} {r t : Budget} (n : ℕ) (x : Outcome Error Budget (A × ℕ))
      → Moves size offset o r t n
      → Done size o t c Q x
      → Done size offset r (λ a. n + c a) Q x
  Done-shift n (ok (a, stop) r') h d = record {
    holds = (Moves-trans n (c a) h d.holds.0, d.holds.1);
  }
  Done-shift n (err e s) h d = record { holds = tt }

  Done-bind :
      {B : Type 0} {offset : ℕ} {r : Budget} {b : B → ℕ} {P : B → Type 0}
      (x : Outcome Error Budget (A × ℕ)) (f : A × ℕ → Decode (B × ℕ))
      → Done size offset r c Q x
      → ((a : A) (o : ℕ) (t : Budget)
          → Moves size offset o r t (c a)
          → Q a
          → Done size offset r b P (f (a, o) t))
      → Done size offset r b P (continue x f)
  Done-bind (ok (a, o) t) f d k = k a o t d.holds.0 d.holds.1
  Done-bind (err e s) f d k = record { holds = tt }

-- A zero charge in front adds nothing.
Done-cost :
    {A : Type 0} {size offset : ℕ} {r : Budget} {c d : A → ℕ} {Q : A → Type 0}
    {x : Outcome Error Budget (A × ℕ)}
    → ((a : A) → c a ≡ d a)
    → Done size offset r c Q x
    → Done size offset r d Q x
Done-cost {size = size} {offset = offset} {r = r} {Q = Q} {x = x} e h =
    subst (λ c. Done size offset r c Q x) (fun_ext e) h

module _ (buffer : List ℕ) where
  abbrev Safe : {A : Type 0} → (A → ℕ) → (A → Type 0) → (ℕ → Decode (A × ℕ)) → Type 0
  Safe c Q m = (offset : ℕ) (r : Budget) → Done (length buffer) offset r c Q (m offset r)

  -- A read that asks for `n` bytes first.
  Done-available :
      {A : Type 0} {c : A → ℕ} {Q : A → Type 0} (start offset n : ℕ) (r : Budget)
      (k : Decode (A × ℕ))
      → (offset + n ≤ length buffer → Done (length buffer) start r c Q (k r))
      → Done (length buffer) start r c Q (continue (require_available buffer offset n r) (λ _. k))
  unfolding require_available
  Done-available start offset n r k h = elim (Bool-cases (ltb (length buffer) (offset + n))) [
    | inl e ↦ rw e (Done-err _ _)
    | inr e ↦ rw e (h (omega (arith, ltb_false→le _ _ e)))
  ]

  Moves-step :
      (offset n : ℕ) (r : Budget)
      → offset + n ≤ length buffer
      → Moves (length buffer) offset (offset + n) r r 0
  Moves-step offset n none h = ground arith
  Moves-step offset n (some r) h = ground arith

  u32-Done :
      {A : Type 0} {c : A → ℕ} {Q : A → Type 0} (offset : ℕ) (r : Budget) (f : ℕ → Decode (A × ℕ))
      → ((n : ℕ) → offset + 4 ≤ length buffer → Done (length buffer) offset r c Q (f n r))
      → Done (length buffer) offset r c Q (continue (read_u32 buffer offset r) f)
  unfolding read_u32 require_available
  u32-Done offset r f h = elim (Bool-cases (ltb (length buffer) (offset + 4))) [
    | inl e ↦ rw e (Done-err _ _)
    | inr e ↦ rw e (h _ (omega (arith, ltb_false→le _ _ e)))
  ]

  binary-Safe : Safe (λ bs. 0) Any (read_binary buffer)
  unfolding read_binary
  binary-Safe offset r = u32-Done offset r _ λ n h.
      Done-available offset (offset + 4) n r _
        λ i. Done-ok (Moves-trans 0 0 (Moves-step offset 4 r h) (Moves-step (offset + 4) n r i)) tt

  word-Safe :
      (make : ℕ → Value) → ((n : ℕ) → cost (make n) ≡ 0) → Safe cost Any (read_word make buffer)
  unfolding read_word
  word-Safe make free offset r =
      Done-available offset offset 8 r _ λ h. Done-ok (rw free (Moves-step offset 8 r h)) tt

  bytes-Safe : Safe cost Any (read_bytes buffer)
  unfolding read_bytes cost
  bytes-Safe offset r =
      Done-bind (read_binary buffer offset r) _ (binary-Safe offset r) λ bs o t h _. Done-ok h tt

  if-Safe :
      {m k : ℕ → Decode (Value × ℕ)} (b : Bool)
      → Safe cost Any m
      → Safe cost Any k
      → Safe cost Any (λ offset. if b then m offset else k offset)
  if-Safe true hm hk = hm
  if-Safe false hm hk = hk

  leaf-Safe : (v : Value) → cost v ≡ 0 → Safe cost Any (λ offset. pure (v, offset))
  leaf-Safe v free offset r = Done-ok (rw free (Moves-stay _ offset r)) tt

  module _ (next : ℕ → Decode (Value × ℕ)) (safe : Safe cost Any next) where
    items-Safe : (n : ℕ) → Safe cost_items (λ vs. count vs ≡ n) (decode_items next n)
    unfolding decode_items cost
    items-Safe zero offset r = Done-ok (Moves-stay _ offset r) refl
    items-Safe (suc n) offset r = Done-bind (next offset r) _ (safe offset r) λ v o t h _.
        Done-bind (decode_items next n o t) _
          (Done-shift (cost v) (decode_items next n o t) h (items-Safe n o t))
          λ vs o' t' i e. Done-ok i (ap suc e)

    entry-Safe :
        (n : ℕ) (others : List (List ℕ) → ℕ → Decode (Fields × ℕ))
        → ((seen : List (List ℕ)) → Safe cost_fields (λ fs. count_fields fs ≡ n) (others seen))
        → (seen : List (List ℕ)) (key : List ℕ)
        → Safe cost_fields (λ fs. count_fields fs ≡ suc n) (decode_entry next others seen key)
    unfolding decode_entry cost
    entry-Safe n others safe_others seen key offset r = elim (Bool-cases (contains seen key)) [
      | inl e ↦ rw e (Done-err _ _)
      | inr e ↦ rw e (
          Done-bind (next offset r) _ (safe offset r) λ v o t h _.
            Done-bind (others (key ∷ seen) o t) _
              (Done-shift (cost v) (others (key ∷ seen) o t) h (safe_others (key ∷ seen) o t))
              λ fs o' t' i k. Done-ok i (ap suc k))
    ]

    entries-Safe :
        (n : ℕ) (seen : List (List ℕ))
        → Safe cost_fields (λ fs. count_fields fs ≡ n) (decode_fields next buffer n seen)
    unfolding decode_fields cost
    entries-Safe zero seen offset r = Done-ok (Moves-stay _ offset r) refl
    entries-Safe (suc n) seen offset r =
        Done-bind (read_binary buffer offset r) _ (binary-Safe offset r) λ key o t h _.
          Done-cost {c = λ fs. 0 + cost_fields fs} {d = cost_fields} (λ fs. omega arith)
            (Done-shift 0 (decode_entry next (decode_fields next buffer n) seen key o t) h
              (entry-Safe n (decode_fields next buffer n) (entries-Safe n) seen key o t))

    consume-Done :
        {A : Type 0} {c : A → ℕ} {Q : A → Type 0} (offset o n : ℕ) (r : Budget) (f : Decode (A × ℕ))
        → offset ≤ o
        → o ≤ length buffer
        → ((t : Budget)
            → Moves (length buffer) offset o r t n
            → Done (length buffer) offset r c Q (f t))
        → Done (length buffer) offset r c Q (continue (consume n r) (λ _. f))
    unfolding consume
    consume-Done offset o n none f h i k = k none (ground arith)
    consume-Done offset o n (some r) f h i k = elim (Bool-cases (ltb r n)) [
      | inl e ↦ rw e (Done-err _ _)
      | inr e ↦ rw e (k (some (r - n)) (ground arith))
    ]

    list-Safe : Safe cost Any (decode_list next buffer)
    unfolding decode_list cost
    list-Safe offset r = u32-Done offset r _ λ n h.
        consume-Done offset (offset + 4) n r (decode_list_items next n (offset + 4)) (omega arith) h
          λ t m. rw (decode_list_items-list_loop) (
            Done-bind (decode_items next n (offset + 4) t) _
              (Done-shift n (decode_items next n (offset + 4) t) m (items-Safe n (offset + 4) t))
              λ vs o t' i e. Done-ok (rw e i) tt)

    map-Safe : Safe cost Any (decode_map next buffer)
    unfolding decode_map cost
    map-Safe offset r = u32-Done offset r _ λ n h.
        consume-Done offset (offset + 4) n r _ (omega arith) h λ t m.
          Done-bind (decode_fields next buffer n [] (offset + 4) t) _
            (Done-shift n (decode_fields next buffer n [] (offset + 4) t) m
              (entries-Safe n [] (offset + 4) t))
            λ fs o t' i e. Done-ok (rw e i) tt

    tag-Safe : (tag : ℕ) → Safe cost Any (decode_tag tag next buffer)
    unfolding decode_tag cost
    tag-Safe tag = if-Safe (tag == 0) (leaf-Safe null refl) (
        if-Safe (tag == 1) (leaf-Safe (boolean true) refl) (
          if-Safe (tag == 2) (leaf-Safe (boolean false) refl) (
            if-Safe (tag == 3) (word-Safe _ (λ n. refl)) (
              if-Safe (tag == 4) bytes-Safe (
                if-Safe (tag == 5) list-Safe (
                  if-Safe (tag == 6) map-Safe (
                    if-Safe (tag == 7) (word-Safe _ (λ n. refl)) (
                      if-Safe (tag == 8) (word-Safe _ (λ n. refl))
                        (λ offset r. Done-err unknown_tag r)))))))))

  levels-Safe : (k : ℕ) → Safe cost Any (decode_levels k buffer)
  unfolding decode_levels
  levels-Safe zero offset r = Done-err nesting r
  levels-Safe (suc k) offset r = Done-available offset offset 1 r _ λ h.
      Done-cost {c = λ v. 0 + cost v} {d = cost} (λ v. omega arith)
        (Done-shift 0 (decode_tag _ (decode_levels k buffer) buffer (offset + 1) r)
          (Moves-step offset 1 r h)
          (tag-Safe (decode_levels k buffer) (levels-Safe k) _ (offset + 1) r))

Done-weaken :
    {A : Type 0} {size offset : ℕ} {r : Budget} {c : A → ℕ} {Q P : A → Type 0}
    (x : Outcome Error Budget (A × ℕ))
    → ((a : A) → Q a → P a)
    → Done size offset r c Q x
    → Done size offset r c P x
Done-weaken (ok (a, stop) r') f d = record { holds = (d.holds.0, f a d.holds.1) }
Done-weaken (err e s) f d = record { holds = tt }

-- At least the tag is read, and it stands in the buffer.
pub levels_strict :
    (buffer : List ℕ) (k offset : ℕ) (r : Budget)
    → Done
        (length buffer)
        (offset + 1)
        r
        cost
        (λ v. offset + 1 ≤ length buffer)
        (decode_levels k buffer offset r)
unfolding decode_levels
levels_strict buffer zero offset r = Done-err nesting r
levels_strict buffer (suc k) offset r = Done-available buffer (offset + 1) offset 1 r _ λ h.
    Done-weaken (decode_tag _ (decode_levels k buffer) buffer (offset + 1) r) (λ v q. h)
      (tag-Safe buffer (decode_levels k buffer) (levels-Safe buffer k) _ (offset + 1) r)
