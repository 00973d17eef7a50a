-- ===== src/Codec/Encode/Parts.antt =====
-- What the encoder writes for integers, byte strings, text and keys.
use ferricstore_python.Base.{
  ℕ, ◌+◌, ◌-◌, ◌^◌, ◌≤◌, ◌≡◌, ◌≢◌, refl, Bool, true, false, ◌&&◌, not, none, some, List, [], ◌∷◌,
  length, length-append, ltb, arith, Bool-cases, inl, inr,
}
use ferricstore_python.Base.Exec.{ok, continue-eq-ok, ◌>>◌, ◌>>=◌}
use ferricstore_python.Codec.Value.{
  integer_range, invalid_text, length_range, duplicate_key, count_range, ℤ, pos, negsuc, Key,
  text_key, bytes_key, other_key, u32_max, be, utf8_point, utf8, is_encodable, str_encode, contains,
}
use ferricstore_python.Codec.Wire.{
  has_u32_length, is_wire_integer, integer_bytes, is_wire_key, wire_key, binary_bytes,
}
use ferricstore_python.Codec.Encode.{
  Writer, Write, ensure_capacity, remaining_capacity, codepoint_size, scan_utf8,
  require_utf8_within, write_binary_length, write_binary, write_collection_header, write_integer,
  check_text, write_text, write_encoded, lift_key, write_key,
}
use ferricstore_python.Codec.Encode.Writes.{
  Writes, Fits, Writes-cast, Writes-seq, Writes-guard, Writes-if, Writes-write, Writes-raise,
  Writes-false,
}

pub Writes-binary_length : (n : ℕ) → Writes (not (ltb u32_max n)) (write_binary_length n) (be 4 n)
unfolding write_binary_length
Writes-binary_length n =
    Writes-cast (Writes-guard (ltb u32_max n) length_range (Writes-write (be 4 n))) (ground arith)
      refl

pub Writes-binary :
    (bs : List ℕ) → Writes (has_u32_length bs) (write_binary bs) (4 ∷ binary_bytes bs)
unfolding write_binary
Writes-binary bs =
    Writes-cast
      (Writes-seq (Writes-write (4 ∷ []))
        (Writes-seq (Writes-binary_length (length bs)) (Writes-write bs)))
      (ground arith) refl

pub Writes-header :
    (tag n : ℕ) → Writes (not (ltb u32_max n)) (write_collection_header tag n) (tag ∷ be 4 n)
unfolding write_collection_header
Writes-header tag n =
    Writes-cast
      (Writes-guard (ltb u32_max n) count_range
        (Writes-seq (Writes-write (tag ∷ [])) (Writes-write (be 4 n))))
      (ground arith) refl

pub Writes-integer : (n : ℤ) → Writes (is_wire_integer n) (write_integer n) (integer_bytes n)
unfolding write_integer
Writes-integer (pos n) =
    Writes-cast
      (Writes-if (ltb n (2 ^ 63)) (Writes-seq (Writes-write (3 ∷ [])) (Writes-write (be 8 n))) (
        Writes-if (ltb n (2 ^ 64)) (Writes-seq (Writes-write (8 ∷ [])) (Writes-write (be 8 n)))
          (Writes-false (8 ∷ be 8 n) (Writes-raise integer_range))))
      (ground arith) (ground arith)
Writes-integer (negsuc n) =
    Writes-cast
      (Writes-if (ltb n (2 ^ 63))
        (Writes-seq (Writes-write (3 ∷ [])) (Writes-write (be 8 (2 ^ 64 - 1 - n))))
        (Writes-false (integer_bytes (negsuc n)) (Writes-raise integer_range)))
      (ground arith) (ground arith)

pub Writes-key :
    (seen : List (List ℕ)) (key : List ℕ)
    → Writes (not (contains seen key) && has_u32_length key) (write_key seen key) (binary_bytes key)
unfolding write_key
Writes-key seen key =
    Writes-cast
      (Writes-guard (contains seen key) duplicate_key
        (Writes-seq (Writes-binary_length (length key)) (Writes-write key)))
      (ground arith) refl

length-utf8_point : (c : ℕ) → length (utf8_point c) ≡ codepoint_size c
unfolding codepoint_size utf8_point
length-utf8_point c = ground arith

utf8_point_pos : (c : ℕ) → 1 ≤ length (utf8_point c)
unfolding utf8_point
utf8_point_pos c = ground arith

length-utf8 : (cs : List ℕ) → length cs ≤ length (utf8 cs)
length-utf8 [] = omega arith
length-utf8 (c ∷ cs) =
    omega (arith, utf8_point_pos c, length-utf8 cs, length-append (utf8_point c) (utf8 cs))

scan_utf8-Fits :
    (cs : List ℕ) (size limit : ℕ)
    → size + length (utf8 cs) ≤ limit
    → scan_utf8 cs size limit ≡ true
unfolding scan_utf8
scan_utf8-Fits [] size limit h = refl
scan_utf8-Fits (c ∷ cs) size limit h = ground (
  arith,
  length-utf8_point c,
  length-append (utf8_point c) (utf8 cs),
  scan_utf8-Fits cs (size + codepoint_size c) limit,
)

-- The check in front of a text lets it pass where its encoding fits, and changes nothing.
check_text-Fits :
    (cs : List ℕ) (w : Writer)
    → Fits w.max_bytes w.size (5 + length (utf8 cs))
    → check_text cs w ≡ ok tt w
unfolding check_text ensure_capacity remaining_capacity require_utf8_within
check_text-Fits cs w f = ground (
  arith,
  length-utf8 cs,
  scan_utf8-Fits cs 0 (elim w.max_bytes [ none ↦ 0 | some m ↦ m - w.size - 5 ]),
)

check_text-only : (cs : List ℕ) (w w' : Writer) → check_text cs w ≡ ok tt w' → w' ≡ w
unfolding check_text ensure_capacity remaining_capacity require_utf8_within
check_text-only cs w w' h = ground arith

length-binary : (bs : List ℕ) → length (4 ∷ binary_bytes bs) ≡ 5 + length bs
unfolding be
length-binary bs = omega arith

-- A check that changes nothing, and that passes wherever the block behind it fits.
Writes-check :
    {p : Bool} {k : Write} {bs : List ℕ} (m : Write)
    → ((w : Writer) → Fits w.max_bytes w.size (length bs) → m w ≡ ok tt w)
    → ((w w' : Writer) → m w ≡ ok tt w' → w' ≡ w)
    → Writes p k bs
    → Writes p (m >> k) bs
Writes-check {k = k} m passes keeps h = record {
  does = λ w i f. rw (passes w f) (h.does w i f);
  only = λ w w' g i.
      let (a, t, e₁, e₂) = continue-eq-ok (m w) (λ _. k) i in
      let e₃ : k w ≡ ok tt w' = rw (keeps w t e₁) at e₂ in h.only w w' g e₃;
}

Writes-encoded :
    (cs : List ℕ)
    → Writes
        (is_encodable cs && has_u32_length (utf8 cs))
        (write_encoded (str_encode cs))
        (4 ∷ binary_bytes (utf8 cs))
unfolding write_encoded str_encode
Writes-encoded cs = elim (Bool-cases (is_encodable cs)) [
  | inl e ↦ rw e (Writes-binary (utf8 cs))
  | inr e ↦ rw e (Writes-false (4 ∷ binary_bytes (utf8 cs)) (Writes-raise invalid_text))
]

pub Writes-text :
    (cs : List ℕ)
    → Writes
        (is_encodable cs && has_u32_length (utf8 cs))
        (write_text cs)
        (4 ∷ binary_bytes (utf8 cs))
unfolding write_text
Writes-text cs =
    Writes-check (check_text cs) (λ w f. check_text-Fits cs w (rw (← length-binary (utf8 cs)) f))
      (check_text-only cs) (Writes-encoded cs)

lift_key-wire : (k : Key) (w : Writer) → is_wire_key k ≡ true → lift_key k w ≡ ok (wire_key k) w
unfolding lift_key str_encode
lift_key-wire (bytes_key key) w h = refl
lift_key-wire (text_key cs) w h = ground arith
lift_key-wire other_key w h = cc

lift_key-ne_ok :
    (k : Key) (w t : Writer) (key : List ℕ) → is_wire_key k ≡ false → lift_key k w ≢ ok key t
unfolding lift_key str_encode
lift_key-ne_ok (bytes_key bs) w t key h = cc
lift_key-ne_ok (text_key cs) w t key h = ground arith
lift_key-ne_ok other_key w t key h = λ e. cc

pub Writes-lift_key :
    {q : Bool} {bs : List ℕ} (k : Key) (f : List ℕ → Write)
    → Writes q (f (wire_key k)) bs
    → Writes (is_wire_key k && q) (lift_key k >>= f) bs
Writes-lift_key k f h = elim (Bool-cases (is_wire_key k)) [
  | inl e ↦ rw e (record {
    does = λ w i j. rw (lift_key-wire k w e) (h.does w i j);
    only = λ w w' g i. h.only w w' g (rw (lift_key-wire k w e) at i);
  })
  | inr e ↦ rw e (record {
    does = λ w i j. cc;
    only = λ w w' g i.
        let (a, t, e₁, e₂) = continue-eq-ok (lift_key k w) f i in
        absurd (lift_key-ne_ok k w t a e e₁);
  })
]
