-- ===== src/Codec/Encode.antt =====
-- The encoder of `protocol_codec.py`: `_ValueWriter`, `_write_value` and its helpers.
-- A `Writer` is the writer object together with the bytes that its sink has received.
pub mod Writes
pub mod Parts
pub mod Format
pub mod Bound
use ferricstore_python.Base.{
  ℕ, ◌+◌, ◌-◌, ◌^◌, Bool, true, false, Option, none, some, List, [], ◌∷◌, ◌++◌, length, leb, ltb,
  if◌then◌else◌,
}
use ferricstore_python.Base.Exec.{Outcome, ok, err, Exec, pure, raise, ◌>>=◌, ◌>>◌}
use ferricstore_python.Codec.Value.{
  Error, nesting, integer_range, invalid_text, unsupported, count_range, length_range, value_limit,
  duplicate_key, key_type, ℤ, pos, negsuc, Key, text_key, bytes_key, other_key, Value, null,
  boolean, integer, text, binary, list, tuple, dict, float, other, Items, nil, cons, Fields, end,
  field, count, count_fields, max_value_nesting, u32_max, be, str_encode, contains,
}

pub record Writer : Type 0 where
  pub max_bytes : Option ℕ
  pub size : ℕ
  pub out : List ℕ

abbrev pub Write : Type 0
Write = Exec Error Writer (Unit {0})

-- `size > max_bytes - self._size` on Python's integers.
unfoldable pub ensure_capacity : ℕ → Write
ensure_capacity n w = elim w.max_bytes [
  | none ↦ ok tt w
  | some m ↦ if ltb m (n + w.size) then err value_limit w else ok tt w
]

push : List ℕ → Write
push bs w = ok tt (record w { size = w.size + length bs; out = w.out ++ bs })

unfoldable pub write : List ℕ → Write
unfolding push
write bs = do ensure_capacity (length bs); push bs

-- Exact only where it is called, behind `ensure_capacity 5`: there `remaining - 5` is no less than 0.
unfoldable pub remaining_capacity : Writer → Option ℕ
remaining_capacity w = elim w.max_bytes [ none ↦ none | some m ↦ some (m - w.size) ]

unfoldable pub codepoint_size : ℕ → ℕ
codepoint_size c =
    if leb c 0x7f then 1 else if leb c 0x7ff then 2 else if leb c 0xffff then 3 else 4

unfoldable pub is_ascii : List ℕ → Bool
is_ascii [] = true
is_ascii (c ∷ cs) = if leb c 0x7f then is_ascii cs else false

-- The loop over the code points, which stops at the first size past the limit.
unfoldable pub scan_utf8 : List ℕ → ℕ → ℕ → Bool
unfolding codepoint_size
scan_utf8 [] size limit = true
scan_utf8 (c ∷ cs) size limit =
    let size' = size + codepoint_size c in
    let rest = scan_utf8 cs size' limit in if ltb limit size' then false else rest

unfoldable pub require_utf8_within : List ℕ → ℕ → Write
unfolding is_ascii scan_utf8
require_utf8_within value limit =
    if ltb limit (length value)
    then raise value_limit
    else if is_ascii value
    then pure tt
    else if scan_utf8 value 0 limit
    then pure tt
    else raise value_limit

unfoldable pub write_binary_length : ℕ → Write
write_binary_length n = if ltb u32_max n then raise length_range else write (be 4 n)

unfoldable pub write_binary : List ℕ → Write
write_binary value = do write (4 ∷ []); write_binary_length (length value); write value

unfoldable pub write_collection_header : ℕ → ℕ → Write
write_collection_header tag n =
    if ltb u32_max n then raise count_range else do write (tag ∷ []); write (be 4 n)

unfoldable pub write_integer : ℤ → Write
write_integer (pos n) =
    if ltb n (2 ^ 63)
    then (do write (3 ∷ []); write (be 8 n))
    else if ltb n (2 ^ 64)
    then (do write (8 ∷ []); write (be 8 n))
    else raise integer_range
write_integer (negsuc n) =
    if ltb n (2 ^ 63)
    then (do write (3 ∷ []); write (be 8 (2 ^ 64 - 1 - n)))
    else raise integer_range

unfoldable pub check_text : List ℕ → Write
check_text cs w = elim (remaining_capacity w) [
  | none ↦ ok tt w
  | some remaining ↦ (do ensure_capacity 5; require_utf8_within cs (remaining - 5)) w
]

write_encoded : Option (List ℕ) → Write
write_encoded none = raise invalid_text
write_encoded (some bs) = write_binary bs

unfoldable pub write_text : List ℕ → Write
unfolding write_encoded
write_text cs = do check_text cs; write_encoded (str_encode cs)

unfoldable pub key_bytes : Key → Outcome Error (Unit {0}) (List ℕ)
key_bytes (bytes_key bs) = ok bs tt
key_bytes (text_key cs) = elim (str_encode cs) [ none ↦ err invalid_text tt | some bs ↦ ok bs tt ]
key_bytes other_key = err key_type tt

unfoldable pub lift_key : Key → Exec Error Writer (List ℕ)
unfolding key_bytes
lift_key k w = elim (key_bytes k) [ ok bs _ ↦ ok bs w | err e _ ↦ err e w ]

unfoldable pub write_key : List (List ℕ) → List ℕ → Write
write_key seen key =
    if contains seen key
    then raise duplicate_key
    else do write_binary_length (length key); write key

at_depth : ℕ → Write → Write
at_depth depth body = if ltb max_value_nesting depth then raise nesting else body

unfoldable mutual
  unfolding at_depth

  pub write_value : ℕ → Value → Write
  write_value depth null = at_depth depth (write (0 ∷ []))
  write_value depth (boolean true) = at_depth depth (write (1 ∷ []))
  write_value depth (boolean false) = at_depth depth (write (2 ∷ []))
  write_value depth (integer n) = at_depth depth (write_integer n)
  write_value depth (text cs) = at_depth depth (write_text cs)
  write_value depth (binary bs) = at_depth depth (write_binary bs)
  write_value depth (list vs) =
      at_depth depth (do write_collection_header 5 (count vs); write_items (depth + 1) vs)
  write_value depth (tuple vs) =
      at_depth depth (do write_collection_header 5 (count vs); write_items (depth + 1) vs)
  write_value depth (dict fs) =
      at_depth depth
        (do write_collection_header 6 (count_fields fs); write_fields (depth + 1) [] fs)
  write_value depth (float b) = at_depth depth (do write (7 ∷ []); write (be 8 b))
  write_value depth other = at_depth depth (raise unsupported)

  pub write_items : ℕ → Items → Write
  write_items depth nil = pure tt
  write_items depth (cons v vs) = do write_value depth v; write_items depth vs

  pub write_fields : ℕ → List (List ℕ) → Fields → Write
  write_fields depth seen end = pure tt
  write_fields depth seen (field k v fs) = do
    key ← lift_key k
    write_key seen key
    write_value depth v
    write_fields depth (key ∷ seen) fs

abbrev pub fresh : Option ℕ → Writer
fresh limit = record { max_bytes = limit; size = 0; out = [] }

-- The value of `stream.getvalue()`, or the error.
abbrev pub getvalue : Outcome Error Writer (Unit {0}) → Outcome Error (Unit {0}) (List ℕ)
getvalue (ok _ w) = ok w.out tt
getvalue (err e w) = err e tt

unfoldable pub encode_value : Value → Option ℕ → Outcome Error (Unit {0}) (List ℕ)
encode_value v limit = getvalue (write_value 0 v (fresh limit))

-- The bytes that the sink has received when `encode_value_into` returns or raises.
abbrev pub received : Outcome Error Writer (Unit {0}) → List ℕ
received (ok _ w) = w.out
received (err e w) = w.out

unfoldable pub encode_value_into : Value → Option ℕ → Outcome Error Writer (Unit {0})
encode_value_into v limit = write_value 0 v (fresh limit)
