-- ===== src/Codec/Encode/Format.antt =====
-- The encoder of `protocol_codec.py` against the wire format of Codec/Wire.
use ferricstore_python.Base.{ℕ, ◌+◌, ◌≡◌, refl, Bool, true, false, ◌&&◌, not, List, [], ◌∷◌, ltb}
use ferricstore_python.Base.Exec.{◌>>◌}
use ferricstore_python.Codec.Value.{
  Value, null, boolean, integer, text, binary, list, tuple, dict, float, other, Items, nil, cons,
  Fields, end, field, be, count, count_fields, nesting, unsupported, max_value_nesting,
}
use ferricstore_python.Codec.Wire.{
  is_valid, are_valid, are_valid_fields, value_bytes, item_bytes, field_bytes, wire_key,
}
use ferricstore_python.Codec.Encode.{
  Write, write_value, write_items, write_fields, write_key, at_depth,
}
use ferricstore_python.Codec.Encode.Writes.{
  Writes, Writes-cast, Writes-seq, Writes-guard, Writes-write, Writes-raise, Writes-pure,
}
use ferricstore_python.Codec.Encode.Parts.{
  Writes-binary, Writes-header, Writes-integer, Writes-key, Writes-text, Writes-lift_key,
}

Writes-at_depth :
    {p : Bool} {m : Write} {bs : List ℕ} (depth : ℕ)
    → Writes p m bs
    → Writes (not (ltb max_value_nesting depth) && p) (at_depth depth m) bs
unfolding at_depth
Writes-at_depth depth h = Writes-guard (ltb max_value_nesting depth) nesting h

and-true : (p : Bool) → (p && true) ≡ p
and-true true = refl
and-true false = refl

and-false : (p : Bool) → (p && false) ≡ false
and-false true = refl
and-false false = refl

-- A node with no argument of its own to check.
Writes-leaf :
    {m : Write} {bs : List ℕ} (depth : ℕ)
    → Writes true m bs
    → Writes (not (ltb max_value_nesting depth)) (at_depth depth m) bs
Writes-leaf depth h = Writes-cast (Writes-at_depth depth h) (and-true _) refl

mutual
  unfolding write_value is_valid value_bytes

  pub Writes-value :
      (depth : ℕ) (v : Value) → Writes (is_valid depth v) (write_value depth v) (value_bytes v)
  Writes-value depth null = Writes-leaf depth (Writes-write _)
  Writes-value depth (boolean true) = Writes-leaf depth (Writes-write _)
  Writes-value depth (boolean false) = Writes-leaf depth (Writes-write _)
  Writes-value depth (integer n) = Writes-at_depth depth (Writes-integer n)
  Writes-value depth (text cs) = Writes-at_depth depth (Writes-text cs)
  Writes-value depth (binary bs) = Writes-at_depth depth (Writes-binary bs)
  Writes-value depth (list vs) =
      Writes-at_depth depth (Writes-seq (Writes-header 5 (count vs)) (Writes-items (depth + 1) vs))
  Writes-value depth (tuple vs) =
      Writes-at_depth depth (Writes-seq (Writes-header 5 (count vs)) (Writes-items (depth + 1) vs))
  Writes-value depth (dict fs) =
      Writes-at_depth depth
        (Writes-seq (Writes-header 6 (count_fields fs)) (Writes-fields (depth + 1) [] fs))
  Writes-value depth (float b) =
      Writes-leaf depth (Writes-seq (Writes-write (7 ∷ [])) (Writes-write (be 8 b)))
  Writes-value depth other =
      Writes-cast (Writes-at_depth depth (Writes-raise unsupported)) (and-false _) refl

  Writes-items :
      (depth : ℕ) (vs : Items) → Writes (are_valid depth vs) (write_items depth vs) (item_bytes vs)
  Writes-items depth nil = Writes-pure
  Writes-items depth (cons v vs) = Writes-seq (Writes-value depth v) (Writes-items depth vs)

  Writes-fields :
      (depth : ℕ) (seen : List (List ℕ)) (fs : Fields)
      → Writes (are_valid_fields depth seen fs) (write_fields depth seen fs) (field_bytes fs)
  Writes-fields depth seen end = Writes-pure
  Writes-fields depth seen (field k v fs) =
      Writes-lift_key k
        (λ key. write_key seen key >> (write_value depth v >> write_fields depth (key ∷ seen) fs))
        (Writes-seq (Writes-key seen (wire_key k))
          (Writes-seq (Writes-value depth v) (Writes-fields depth (wire_key k ∷ seen) fs)))
