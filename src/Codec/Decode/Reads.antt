-- ===== src/Codec/Decode/Reads.antt =====
-- A calculus for readers: which bytes a block reads from any position, what it returns for them, and
-- how many items it takes from the budget.
use ferricstore_python.Base.{
  ℕ, suc, ◌+◌, ◌-◌, ◌^◌, ◌%◌, ◌≤◌, ◌≡◌, refl, ap, ◌∙◌, none, some, List, [], ◌∷◌, ◌++◌, length,
  length-append, arith,
}
use mathlib.Core.List.{append_assoc}
use ferricstore_python.Base.Exec.{ok, pure, ◌>>=◌, ◌>>◌}
use ferricstore_python.Codec.Value.{be, Value, list, binary, u32_max}
use ferricstore_python.Codec.Wire.{binary_bytes}
use ferricstore_python.Codec.Decode.{
  Budget, Decode, require_available, slice, byte_at, read_u32, read_binary, read_word, read_bytes,
  consume, decode_tag, decode_levels, decode_triple, decode_items,
}
use ferricstore_python.Codec.Decode.Cursor.{
  At, At-skip, At-available, At-slice, At-byte, from_be-be4, from_be-be8,
}

-- `n` items can be taken from the budget; what is left of it then.
abbrev pub Covers : Budget → ℕ → Type 0
Covers none n = Unit
Covers (some r) n = n ≤ r

abbrev pub spend : Budget → ℕ → Budget
spend none n = none
spend (some r) n = some (r - n)

pub record Reads {A : Type 0} (buffer : List ℕ) (m : ℕ → Decode (A × ℕ)) (bs : List ℕ) (a : A)
    (n : ℕ) : Type 0 where
  pub at :
      (offset : ℕ) (rest : List ℕ) (r : Budget)
      → At buffer offset (bs ++ rest)
      → Covers r n
      → m offset r ≡ ok (a, offset + length bs) (spend r n)

pub spend-zero : (r : Budget) → spend r 0 ≡ r
spend-zero none = refl
spend-zero (some r) = ground arith

pub spend-add : (r : Budget) (m n : ℕ) → spend (spend r m) n ≡ spend r (m + n)
spend-add none m n = refl
spend-add (some r) m n = ground arith

pub Covers-left : (r : Budget) (m n : ℕ) → Covers r (m + n) → Covers r m
Covers-left none m n h = tt
Covers-left (some r) m n h = omega arith

pub Covers-right : (r : Budget) (m n : ℕ) → Covers r (m + n) → Covers (spend r m) n
Covers-right none m n h = tt
Covers-right (some r) m n h = omega arith

pub consume-Covers : (r : Budget) (n : ℕ) → Covers r n → consume n r ≡ ok tt (spend r n)
unfolding consume
consume-Covers none n h = refl
consume-Covers (some r) n h = ground arith

module _ {buffer : List ℕ} where
  -- A block that reads `as`, and then a rest that reads `bs`.
  pub Reads-bind :
      {A B : Type 0} {m : ℕ → Decode (A × ℕ)} (f : A → ℕ → Decode (B × ℕ)) {cs bs : List ℕ} {a : A}
      {b : B} {p q : ℕ}
      → Reads buffer m cs a p
      → Reads buffer (f a) bs b q
      → Reads buffer (λ offset. m offset >>= λ x. f x.0 x.1) (cs ++ bs) b (p + q)
  Reads-bind f {cs = cs} {bs = bs} {b = b} {p = p} {q = q} hm hf = record {
    at = λ offset rest r h c.
        let h' : At buffer offset (cs ++ (bs ++ rest)) = rw append_assoc at h in
        rw (hm.at offset (bs ++ rest) r h' (Covers-left r p q c)) (
          hf.at (offset + length cs) rest (spend r p) (At-skip cs (bs ++ rest) h')
            (Covers-right r p q c)
          ∙ ground (arith, spend-add r p q, length-append cs bs));
  }

  pub Reads-pure : {A : Type 0} (a : A) → Reads buffer (λ offset. pure (a, offset)) [] a 0
  Reads-pure a = record { at = λ offset rest r h c. ground (arith, spend-zero r) }

  pub Reads-map :
      {A B : Type 0} {m : ℕ → Decode (A × ℕ)} (g : A → B) {bs : List ℕ} {a : A} {p : ℕ}
      → Reads buffer m bs a p
      → Reads buffer (λ offset. m offset >>= λ x. pure (g x.0, x.1)) bs (g a) p
  Reads-map g h = record { at = λ offset rest r i c. rw (h.at offset rest r i c) }

  read_u32-be :
      (offset n : ℕ) (rest : List ℕ) (r : Budget)
      → n ≤ u32_max
      → At buffer offset (be 4 n ++ rest)
      → read_u32 buffer offset r ≡ ok n r
  unfolding read_u32 be
  read_u32-be offset n rest r h i =
      let e : require_available buffer offset 4 r ≡ ok tt r = At-available (be 4 n) rest r i in
      let s : slice buffer offset 4 ≡ be 4 n = At-slice (be 4 n) rest i in
      rw (e, s) (ap (λ (k : ℕ). ok k r) (omega (arith, from_be-be4 n)))

  -- A count, its charge, and then a block that depends on the count.
  pub Reads-counted :
      {B : Type 0} (f : ℕ → ℕ → Decode (B × ℕ)) {bs : List ℕ} {b : B} {q : ℕ} (n : ℕ)
      → n ≤ u32_max
      → Reads buffer (f n) bs b q
      → Reads buffer
          (λ offset. read_u32 buffer offset >>= λ k. consume k >> f k (offset + 4))
          (be 4 n ++ bs)
          b
          (n + q)
  unfolding be
  Reads-counted f {bs = bs} {b = b} {q = q} n fits h = record {
    at = λ offset rest r i c.
        let i' : At buffer offset (be 4 n ++ (bs ++ rest)) = rw append_assoc at i in
        rw (read_u32-be offset n (bs ++ rest) r fits i', consume-Covers r n (Covers-left r n q c))
          (h.at (offset + 4) rest (spend r n) (At-skip (be 4 n) (bs ++ rest) i')
              (Covers-right r n q c)
            ∙ ground (arith, spend-add r n q, length-append (be 4 n) bs));
  }

  pub Reads-read_binary :
      (bs : List ℕ) → length bs ≤ u32_max → Reads buffer (read_binary buffer) (binary_bytes bs) bs 0
  unfolding read_binary be
  Reads-read_binary bs fits = record {
    at = λ offset rest r i c.
        let i' : At buffer offset (be 4 (length bs) ++ (bs ++ rest)) = rw append_assoc at i in
        let j : At buffer (offset + 4) (bs ++ rest) = At-skip (be 4 (length bs)) (bs ++ rest) i' in
        rw
          (
            read_u32-be offset (length bs) (bs ++ rest) r fits i',
            At-available bs rest r j,
            At-slice bs rest j,
          )
          (ground (arith, spend-zero r, length-append (be 4 (length bs)) bs));
  }

  pub Reads-bytes :
      (bs : List ℕ)
      → length bs ≤ u32_max
      → Reads buffer (read_bytes buffer) (binary_bytes bs) (binary bs) 0
  unfolding read_bytes
  Reads-bytes bs fits = Reads-map binary (Reads-read_binary bs fits)

  pub Reads-word :
      (make : ℕ → Value) (n : ℕ)
      → Reads buffer (read_word make buffer) (be 8 n) (make (n % 2 ^ 64)) 0
  unfolding read_word be
  Reads-word make n = record {
    at = λ offset rest r i c.
        let e : require_available buffer offset 8 r ≡ ok tt r = At-available (be 8 n) rest r i in
        let s : slice buffer offset 8 ≡ be 8 n = At-slice (be 8 n) rest i in
        rw (e, s, from_be-be8 n) (ground (arith, spend-zero r));
  }

  -- A tag, and then what its branch reads.
  pub Reads-node :
      (k tag : ℕ) {bs : List ℕ} {v : Value} {n : ℕ}
      → Reads buffer (decode_tag tag (decode_levels k buffer) buffer) bs v n
      → Reads buffer (decode_levels (suc k) buffer) (tag ∷ bs) v n
  unfolding decode_levels
  Reads-node k tag {bs = bs} {v = v} {n = n} h = record {
    at = λ offset rest r i c.
        let e : require_available buffer offset 1 r ≡ ok tt r =
          At-available (tag ∷ []) (bs ++ rest) r i in
        let b : byte_at buffer offset ≡ tag = At-byte tag (bs ++ rest) i in
        rw (e, b) (h.at (offset + 1) rest r (At-skip (tag ∷ []) (bs ++ rest) i) c ∙ ground arith);
  }

-- The path for three items returns what the loop returns, on every outcome.
pub decode_triple-decode_items :
    (next : ℕ → Decode (Value × ℕ)) (offset : ℕ) (r : Budget)
    → decode_triple next offset r ≡ (decode_items next 3 offset >>= λ x. pure (list x.0, x.1)) r
unfolding decode_triple decode_items
decode_triple-decode_items next offset r = ground arith
