-- ===== src/Codec/Wire.antt =====
-- The wire format of `protocol_codec.py` as plain functions: which values have a wire form, its
-- bytes, the value that a reader gets back, and the items that it counts against its budget.
use ferricstore_python.Base.{
  ℕ, ◌+◌, ◌-◌, ◌^◌, Bool, true, false, ◌&&◌, not, List, [], ◌∷◌, ◌++◌, length, ltb, if◌then◌else◌,
}
use ferricstore_python.Codec.Value.{
  ℤ, pos, negsuc, Key, text_key, bytes_key, other_key, Value, null, boolean, integer, text, binary,
  list, tuple, dict, float, other, Items, nil, cons, Fields, end, field, count, count_fields,
  max_value_nesting, u32_max, be, utf8, is_encodable, contains,
}
use Prim.Native.Nat.{◌%◌}

abbrev pub has_u32_length : List ℕ → Bool
has_u32_length bs = not (ltb u32_max (length bs))

abbrev pub is_wire_integer : ℤ → Bool
is_wire_integer (pos n) = ltb n (2 ^ 64)
is_wire_integer (negsuc n) = ltb n (2 ^ 63)

abbrev pub integer_bytes : ℤ → List ℕ
integer_bytes (pos n) = if ltb n (2 ^ 63) then 3 ∷ be 8 n else 8 ∷ be 8 n
integer_bytes (negsuc n) = 3 ∷ be 8 (2 ^ 64 - 1 - n)

abbrev pub is_wire_key : Key → Bool
is_wire_key (text_key cs) = is_encodable cs
is_wire_key (bytes_key bs) = true
is_wire_key other_key = false

abbrev pub wire_key : Key → List ℕ
wire_key (text_key cs) = utf8 cs
wire_key (bytes_key bs) = bs
wire_key other_key = []

abbrev pub binary_bytes : List ℕ → List ℕ
binary_bytes bs = be 4 (length bs) ++ bs

unfoldable mutual
  pub is_valid : ℕ → Value → Bool
  is_valid depth null = not (ltb max_value_nesting depth)
  is_valid depth (boolean b) = not (ltb max_value_nesting depth)
  is_valid depth (integer n) = not (ltb max_value_nesting depth) && is_wire_integer n
  is_valid depth (text cs) =
      not (ltb max_value_nesting depth) && (is_encodable cs && has_u32_length (utf8 cs))
  is_valid depth (binary bs) = not (ltb max_value_nesting depth) && has_u32_length bs
  is_valid depth (list vs) =
      not (ltb max_value_nesting depth)
      && (not (ltb u32_max (count vs)) && are_valid (depth + 1) vs)
  is_valid depth (tuple vs) =
      not (ltb max_value_nesting depth)
      && (not (ltb u32_max (count vs)) && are_valid (depth + 1) vs)
  is_valid depth (dict fs) =
      not (ltb max_value_nesting depth)
      && (not (ltb u32_max (count_fields fs)) && are_valid_fields (depth + 1) [] fs)
  is_valid depth (float b) = not (ltb max_value_nesting depth)
  is_valid depth other = false

  pub are_valid : ℕ → Items → Bool
  are_valid depth nil = true
  are_valid depth (cons v vs) = is_valid depth v && are_valid depth vs

  -- The keys that stand before a field are pairwise different, as bytes, from its own.
  pub are_valid_fields : ℕ → List (List ℕ) → Fields → Bool
  are_valid_fields depth seen end = true
  are_valid_fields depth seen (field k v fs) =
      is_wire_key k
      && ((not (contains seen (wire_key k)) && has_u32_length (wire_key k))
          && (is_valid depth v && are_valid_fields depth (wire_key k ∷ seen) fs))

unfoldable mutual
  pub value_bytes : Value → List ℕ
  value_bytes null = 0 ∷ []
  value_bytes (boolean true) = 1 ∷ []
  value_bytes (boolean false) = 2 ∷ []
  value_bytes (integer n) = integer_bytes n
  value_bytes (text cs) = 4 ∷ binary_bytes (utf8 cs)
  value_bytes (binary bs) = 4 ∷ binary_bytes bs
  value_bytes (list vs) = 5 ∷ be 4 (count vs) ++ item_bytes vs
  value_bytes (tuple vs) = 5 ∷ be 4 (count vs) ++ item_bytes vs
  value_bytes (dict fs) = 6 ∷ be 4 (count_fields fs) ++ field_bytes fs
  value_bytes (float b) = 7 ∷ be 8 b
  value_bytes other = []

  pub item_bytes : Items → List ℕ
  item_bytes nil = []
  item_bytes (cons v vs) = value_bytes v ++ item_bytes vs

  pub field_bytes : Fields → List ℕ
  field_bytes end = []
  field_bytes (field k v fs) = binary_bytes (wire_key k) ++ (value_bytes v ++ field_bytes fs)

-- Text comes back as its UTF-8 bytes, a tuple as a list, a key as bytes.
unfoldable mutual
  pub wire_value : Value → Value
  wire_value null = null
  wire_value (boolean b) = boolean b
  wire_value (integer n) = integer n
  wire_value (text cs) = binary (utf8 cs)
  wire_value (binary bs) = binary bs
  wire_value (list vs) = list (wire_items vs)
  wire_value (tuple vs) = list (wire_items vs)
  wire_value (dict fs) = dict (wire_fields fs)
  wire_value (float b) = float (b % 2 ^ 64)
  wire_value other = other

  pub wire_items : Items → Items
  wire_items nil = nil
  wire_items (cons v vs) = cons (wire_value v) (wire_items vs)

  pub wire_fields : Fields → Fields
  wire_fields end = end
  wire_fields (field k v fs) = field (bytes_key (wire_key k)) (wire_value v) (wire_fields fs)

unfoldable mutual
  pub cost : Value → ℕ
  cost (list vs) = count vs + cost_items vs
  cost (tuple vs) = count vs + cost_items vs
  cost (dict fs) = count_fields fs + cost_fields fs
  cost null = 0
  cost (boolean b) = 0
  cost (integer n) = 0
  cost (text cs) = 0
  cost (binary bs) = 0
  cost (float b) = 0
  cost other = 0

  pub cost_items : Items → ℕ
  cost_items nil = 0
  cost_items (cons v vs) = cost v + cost_items vs

  pub cost_fields : Fields → ℕ
  cost_fields end = 0
  cost_fields (field k v fs) = cost v + cost_fields fs
