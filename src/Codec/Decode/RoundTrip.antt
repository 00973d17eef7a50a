-- ===== src/Codec/Decode/RoundTrip.antt =====
-- The decoder of `protocol_codec.py` on the wire format of Codec/Wire, at any position of a buffer.
use ferricstore_python.Base.{
  ℕ, zero, suc, ◌+◌, ◌-◌, ◌^◌, ◌%◌, ◌≤◌, ◌≡◌, refl, sym, ◌∙◌, Bool, true, false, ◌&&◌, not, List,
  [], ◌∷◌, ◌++◌, length, ltb, ◌==◌, arith, Bool-cases, ==_iff, inl, inr,
}
use ferricstore_python.Base.Exec.{pure, ◌>>=◌}
use ferricstore_python.Codec.Value.{
  be, ℤ, pos, negsuc, bytes_key, Value, null, boolean, integer, text, binary, list, tuple, dict,
  float, other, Items, nil, cons, Fields, end, field, count, count_fields, u32_max, utf8,
  max_value_nesting, contains,
}
use ferricstore_python.Codec.Wire.{
  is_valid, are_valid, are_valid_fields, value_bytes, item_bytes, field_bytes, integer_bytes,
  is_wire_integer, wire_value, wire_items, wire_fields, wire_key, binary_bytes, cost, cost_items,
  cost_fields,
}
use ferricstore_python.Codec.Decode.{
  Budget, Decode, decode_tag, decode_levels, decode_list, decode_list_items, decode_map,
  decode_entry, decode_items, decode_fields, from_i64,
}
use ferricstore_python.Codec.Decode.Reads.{
  Reads, Reads-bind, Reads-pure, Reads-map, Reads-counted, Reads-read_binary, Reads-bytes,
  Reads-word, Reads-node, decode_triple-decode_items,
}
use mathlib.Core.Path.{subst}

and-true : (p q : Bool) → (p && q) ≡ true → (p ≡ true) × (q ≡ true)
and-true true true h = (refl, refl)
and-true true false h = cc
and-true false q h = cc

within_u32 : (n : ℕ) → not (ltb u32_max n) ≡ true → n ≤ u32_max
within_u32 n h = ground arith

-- The loop over the items of a list, whatever their number.
abbrev pub list_loop : (ℕ → Decode (Value × ℕ)) → ℕ → ℕ → Decode (Value × ℕ)
list_loop next n offset = decode_items next n offset >>= λ x. pure (list x.0, x.1)

-- The path for lists of three items returns what the loop over the items returns, on every outcome.
pub decode_list_items-list_loop :
    (next : ℕ → Decode (Value × ℕ)) (n offset : ℕ) (r : Budget)
    → decode_list_items next n offset r ≡ list_loop next n offset r
unfolding decode_list_items
decode_list_items-list_loop next n offset r = elim (Bool-cases (n == 3)) [
  | inl e ↦
      let f : n ≡ 3 = (==_iff n 3).0 e in
      subst (λ (k : ℕ). decode_list_items next k offset r ≡ list_loop next k offset r) (sym f)
        (decode_triple-decode_items next offset r)
  | inr e ↦ rw (e, decode_list_items) refl
]

small_pos : (n : ℕ) → ltb n (2 ^ 63) ≡ true → integer (from_i64 (n % 2 ^ 64)) ≡ integer (pos n)
unfolding from_i64
small_pos n h = ground arith

large_pos : (n : ℕ) → ltb n (2 ^ 64) ≡ true → integer (pos (n % 2 ^ 64)) ≡ integer (pos n)
large_pos n h = ground arith

small_neg :
    (n : ℕ)
    → ltb n (2 ^ 63) ≡ true
    → integer (from_i64 ((2 ^ 64 - 1 - n) % 2 ^ 64)) ≡ integer (negsuc n)
unfolding from_i64
small_neg n h = ground arith

Reads-cost :
    {A : Type 0} {buffer : List ℕ} {m : ℕ → Decode (A × ℕ)} {bs : List ℕ} {a : A} {n p : ℕ}
    → Reads buffer m bs a n
    → n ≡ p
    → Reads buffer m bs a p
Reads-cost {buffer = buffer} {m = m} {bs = bs} {a = a} h e =
    subst (λ (k : ℕ). Reads buffer m bs a k) e h

module _ {buffer : List ℕ} where
  Reads-list :
      (next : ℕ → Decode (Value × ℕ)) (n : ℕ) {bs : List ℕ} {vs : Items} {q : ℕ}
      → n ≤ u32_max
      → Reads buffer (decode_items next n) bs vs q
      → Reads buffer (decode_list next buffer) (be 4 n ++ bs) (list vs) (n + q)
  unfolding decode_list
  Reads-list next n fits h = Reads-counted (decode_list_items next) n fits (record {
    at = λ offset rest r i c.
        decode_list_items-list_loop next n offset r ∙ (Reads-map list h).at offset rest r i c;
  })

  Reads-integer :
      (k : ℕ) (n : ℤ)
      → is_wire_integer n ≡ true
      → Reads buffer (decode_levels (suc k) buffer) (integer_bytes n) (integer n) 0
  unfolding decode_tag
  Reads-integer k (pos n) h = elim (Bool-cases (ltb n (2 ^ 63))) [
    | inl e ↦ rw e (
        subst (λ (v : Value). Reads buffer (decode_levels (suc k) buffer) (3 ∷ be 8 n) v 0)
          (small_pos n e) (Reads-node k 3 (Reads-word (λ u. integer (from_i64 u)) n)))
    | inr e ↦ rw e (
        subst (λ (v : Value). Reads buffer (decode_levels (suc k) buffer) (8 ∷ be 8 n) v 0)
          (large_pos n h) (Reads-node k 8 (Reads-word (λ u. integer (pos u)) n)))
  ]
  Reads-integer k (negsuc n) h =
      subst
        (λ (v : Value). Reads buffer (decode_levels (suc k) buffer) (integer_bytes (negsuc n)) v 0)
        (small_neg n h) (Reads-node k 3 (Reads-word (λ u. integer (from_i64 u)) (2 ^ 64 - 1 - n)))

  Reads-fields :
      (next : ℕ → Decode (Value × ℕ)) (seen : List (List ℕ)) (key : List ℕ) (v : Value) (n q p : ℕ)
      (bs cs : List ℕ) (fs : Fields)
      → contains seen key ≡ false
      → length key ≤ u32_max
      → Reads buffer next bs v q
      → Reads buffer (decode_fields next buffer n (key ∷ seen)) cs fs p
      → Reads buffer
          (decode_fields next buffer (suc n) seen)
          (binary_bytes key ++ (bs ++ cs))
          (field (bytes_key key) v fs)
          (q + p)
  unfolding decode_fields
  Reads-fields next seen key v n q p bs cs fs new fits hv hf =
      Reads-cost
        (Reads-bind (λ k. decode_entry next (decode_fields next buffer n) seen k) {q = q + p}
          (Reads-read_binary key fits)
          (record {
            at = λ offset rest r i c. rw (new, decode_entry) (entry.at offset rest r i c);
          }))
        (omega arith)
    where
      entry :
          Reads buffer
            (λ offset. next offset >>= λ w. decode_fields next buffer n (key ∷ seen) w.1 >>= λ x.
              pure (field (bytes_key key) w.0 x.0, x.1))
            (bs ++ cs)
            (field (bytes_key key) v fs)
            (q + p)
      entry =
          Reads-bind
            (λ w offset. decode_fields next buffer n (key ∷ seen) offset >>= λ x.
              pure (field (bytes_key key) w x.0, x.1))
            hv (Reads-map (field (bytes_key key) v) hf)

  Reads-map_value :
      (next : ℕ → Decode (Value × ℕ)) (n : ℕ) {bs : List ℕ} {fs : Fields} {q : ℕ}
      → n ≤ u32_max
      → Reads buffer (decode_fields next buffer n []) bs fs q
      → Reads buffer (decode_map next buffer) (be 4 n ++ bs) (dict fs) (n + q)
  unfolding decode_map
  Reads-map_value next n fits h =
      Reads-counted
        (λ k offset. decode_fields next buffer k [] offset >>= λ x. pure (dict x.0, x.1)) n fits
        (Reads-map dict h)

is_valid-depth : (depth : ℕ) (v : Value) → is_valid depth v ≡ true → depth ≤ max_value_nesting
unfolding is_valid
is_valid-depth depth null h = ground arith
is_valid-depth depth other h = cc
is_valid-depth depth _ h = ground arith

mutual
  unfolding value_bytes wire_value is_valid cost decode_tag decode_items decode_fields

  pub Reads-value :
      {buffer : List ℕ} (v : Value) (k depth : ℕ)
      → depth + suc k ≡ 129
      → is_valid depth v ≡ true
      → Reads buffer (decode_levels (suc k) buffer) (value_bytes v) (wire_value v) (cost v)
  Reads-value null k depth e h = Reads-node k 0 (Reads-pure null)
  Reads-value (boolean true) k depth e h = Reads-node k 1 (Reads-pure (boolean true))
  Reads-value (boolean false) k depth e h = Reads-node k 2 (Reads-pure (boolean false))
  Reads-value (integer n) k depth e h = Reads-integer k n ((and-true _ _ h).1)
  Reads-value (text cs) k depth e h =
      Reads-node k 4 (Reads-bytes (utf8 cs) (within_u32 _ ((and-true _ _ ((and-true _ _ h).1)).1)))
  Reads-value (binary bs) k depth e h =
      Reads-node k 4 (Reads-bytes bs (within_u32 _ ((and-true _ _ h).1)))
  Reads-value (list vs) k depth e h =
      let (fits, valid) = and-true _ _ ((and-true _ _ h).1) in
      Reads-node k 5 (
        Reads-list (decode_levels k _) (count vs) (within_u32 _ fits)
          (Reads-items vs k (depth + 1) (omega arith) valid))
  Reads-value (tuple vs) k depth e h =
      let (fits, valid) = and-true _ _ ((and-true _ _ h).1) in
      Reads-node k 5 (
        Reads-list (decode_levels k _) (count vs) (within_u32 _ fits)
          (Reads-items vs k (depth + 1) (omega arith) valid))
  Reads-value (dict fs) k depth e h =
      let (fits, valid) = and-true _ _ ((and-true _ _ h).1) in
      Reads-node k 6 (
        Reads-map_value (decode_levels k _) (count_fields fs) (within_u32 _ fits)
          (Reads-field_list fs k (depth + 1) [] (omega arith) valid))
  Reads-value (float b) k depth e h = Reads-node k 7 (Reads-word float b)
  Reads-value other k depth e h = cc

  Reads-items :
      {buffer : List ℕ} (vs : Items) (k depth : ℕ)
      → depth + k ≡ 129
      → are_valid depth vs ≡ true
      → Reads buffer
          (decode_items (decode_levels k buffer) (count vs))
          (item_bytes vs)
          (wire_items vs)
          (cost_items vs)
  Reads-items nil k depth e h = Reads-pure nil
  Reads-items (cons v vs) zero depth e h =
      absurd (omega (arith, is_valid-depth depth v ((and-true _ _ h).0)))
  Reads-items {buffer} (cons v vs) (suc k) depth e h =
      let (valid, others) = and-true _ _ h in
      Reads-bind
        (λ w offset. decode_items (decode_levels (suc k) buffer) (count vs) offset >>= λ x.
          pure (cons w x.0, x.1))
        (Reads-value v k depth e valid)
        (Reads-map (cons (wire_value v)) (Reads-items vs (suc k) depth e others))

  Reads-field_list :
      {buffer : List ℕ} (fs : Fields) (k depth : ℕ) (seen : List (List ℕ))
      → depth + k ≡ 129
      → are_valid_fields depth seen fs ≡ true
      → Reads buffer
          (decode_fields (decode_levels k buffer) buffer (count_fields fs) seen)
          (field_bytes fs)
          (wire_fields fs)
          (cost_fields fs)
  Reads-field_list end k depth seen e h = Reads-pure end
  Reads-field_list (field key v fs) zero depth seen e h = absurd (
      omega
        (arith, is_valid-depth depth v ((and-true _ _ ((and-true _ _ ((and-true _ _ h).1)).1)).0)))
  Reads-field_list {buffer} (field key v fs) (suc k) depth seen e h =
      let (checks, others) = and-true _ _ ((and-true _ _ h).1) in
      let (new, fits) = and-true _ _ checks in
      let (valid, rest) = and-true _ _ others in
      Reads-fields (decode_levels (suc k) buffer) seen (wire_key key) (wire_value v)
        (count_fields fs) (cost v) (cost_fields fs) (value_bytes v) (field_bytes fs)
        (wire_fields fs) (ground arith) (within_u32 _ fits) (Reads-value v k depth e valid)
        (Reads-field_list fs (suc k) depth (wire_key key ∷ seen) e rest)
