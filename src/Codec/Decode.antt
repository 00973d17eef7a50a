-- ===== src/Codec/Decode.antt =====
-- The decoder of `protocol_codec.py`: `DecodeBudget`, `_decode_value_at` and its helpers.
-- The state is the budget's `remaining`; an offset is passed and returned, as in the source.
-- `_decode_value_at` at depth d is `decode_levels (129 - d)`: it recurs on the levels that are left.
pub mod Cursor
pub mod Reads
pub mod RoundTrip
pub mod Progress
use ferricstore_python.Base.{
  ℕ, zero, suc, ◌+◌, ◌-◌, ◌^◌, Bool, true, false, Option, none, some, List, [], ◌∷◌, ◌++◌, length,
  take, drop, ltb, ◌==◌, if◌then◌else◌,
}
use ferricstore_python.Base.Exec.{Outcome, ok, err, Exec, pure, raise, ◌>>=◌, ◌>>◌}
use ferricstore_python.Codec.Value.{
  Error, nesting, duplicate_key, empty, truncated, unknown_tag, collection_limit, ℤ, pos, negsuc,
  bytes_key, Value, null, boolean, integer, binary, list, dict, float, Items, nil, cons, Fields,
  end, field, max_value_nesting, from_be, contains,
}

abbrev pub Budget : Type 0
Budget = Option ℕ

abbrev pub Decode : Type 0 → Type 0
Decode A = Exec Error Budget A

unfoldable pub consume : ℕ → Decode (Unit {0})
consume n remaining = elim remaining [
  | none ↦ ok tt none
  | some r ↦ if ltb r n then err collection_limit (some r) else ok tt (some (r - n))
]

unfoldable pub checkpoint : Decode Budget
checkpoint remaining = ok remaining remaining

unfoldable pub restore : Budget → Decode (Unit {0})
restore saved remaining = ok tt saved

-- `offset > len(data) - size` on Python's integers; offsets and sizes are never negative here.
unfoldable pub require_available : List ℕ → ℕ → ℕ → Decode (Unit {0})
require_available buffer offset size =
    if ltb (length buffer) (offset + size) then raise truncated else pure tt

-- `data[offset : offset + size]`
abbrev pub slice : List ℕ → ℕ → ℕ → List ℕ
slice buffer offset size = take size (drop offset buffer)

-- `data[offset]`, behind `require_available`.
abbrev pub byte_at : List ℕ → ℕ → ℕ
byte_at buffer offset = elim (drop offset buffer) [ [] ↦ 0 | b ∷ _ ↦ b ]

unfoldable pub read_u32 : List ℕ → ℕ → Decode ℕ
read_u32 buffer offset = do
  require_available buffer offset 4
  pure (from_be (slice buffer offset 4))

unfoldable pub read_binary : List ℕ → ℕ → Decode (List ℕ × ℕ)
read_binary buffer offset = do
  size ← read_u32 buffer offset
  require_available buffer (offset + 4) size
  pure (slice buffer (offset + 4) size, offset + 4 + size)

-- `struct.unpack` of a signed 64-bit integer.
unfoldable pub from_i64 : ℕ → ℤ
from_i64 u = if ltb u (2 ^ 63) then pos u else negsuc (2 ^ 64 - 1 - u)

unfoldable pub read_word : (ℕ → Value) → List ℕ → ℕ → Decode (Value × ℕ)
read_word make buffer offset = do
  require_available buffer offset 8
  pure (make (from_be (slice buffer offset 8)), offset + 8)

unfoldable pub read_bytes : List ℕ → ℕ → Decode (Value × ℕ)
read_bytes buffer offset = do (bs, offset) ← read_binary buffer offset; pure (binary bs, offset)

-- The loop over a list's items; `next` decodes one value one level further down.
unfoldable pub decode_items : (ℕ → Decode (Value × ℕ)) → ℕ → ℕ → Decode (Items × ℕ)
decode_items next zero offset = pure (nil, offset)
decode_items next (suc n) offset = do
  (v, offset) ← next offset
  (vs, offset) ← decode_items next n offset
  pure (cons v vs, offset)

-- Lists of three items take a path of their own.
unfoldable pub decode_triple : (ℕ → Decode (Value × ℕ)) → ℕ → Decode (Value × ℕ)
decode_triple next offset = do
  (first, offset) ← next offset
  (second, offset) ← next offset
  (third, offset) ← next offset
  pure (list (cons first (cons second (cons third nil))), offset)

unfoldable pub decode_list_items : (ℕ → Decode (Value × ℕ)) → ℕ → ℕ → Decode (Value × ℕ)
decode_list_items next n offset =
    if n == 3
    then decode_triple next offset
    else do (vs, offset) ← decode_items next n offset; pure (list vs, offset)

unfoldable pub decode_list : (ℕ → Decode (Value × ℕ)) → List ℕ → ℕ → Decode (Value × ℕ)
decode_list next buffer offset = do
  n ← read_u32 buffer offset
  consume n
  decode_list_items next n (offset + 4)

-- One entry of a map behind its key; `seen` are the keys of `map_values`, `others` the rest of the
-- loop.
unfoldable pub decode_entry :
    (ℕ → Decode (Value × ℕ))
    → (List (List ℕ) → ℕ → Decode (Fields × ℕ))
    → List (List ℕ)
    → List ℕ
    → ℕ
    → Decode (Fields × ℕ)
decode_entry next others seen key offset = if contains seen key then raise duplicate_key else do
  (v, offset) ← next offset
  (fs, offset) ← others (key ∷ seen) offset
  pure (field (bytes_key key) v fs, offset)

-- The loop over a map's entries.
unfoldable pub decode_fields :
    (ℕ → Decode (Value × ℕ)) → List ℕ → ℕ → List (List ℕ) → ℕ → Decode (Fields × ℕ)
unfolding decode_entry
decode_fields next buffer zero seen offset = pure (end, offset)
decode_fields next buffer (suc n) seen offset = do
  (key, offset) ← read_binary buffer offset
  decode_entry next (decode_fields next buffer n) seen key offset

unfoldable pub decode_map : (ℕ → Decode (Value × ℕ)) → List ℕ → ℕ → Decode (Value × ℕ)
decode_map next buffer offset = do
  n ← read_u32 buffer offset
  consume n
  (fs, offset) ← decode_fields next buffer n [] (offset + 4)
  pure (dict fs, offset)

-- The branches on the tag; `offset` stands behind it.
unfoldable pub decode_tag : ℕ → (ℕ → Decode (Value × ℕ)) → List ℕ → ℕ → Decode (Value × ℕ)
decode_tag tag next buffer offset =
    if tag == 0
    then pure (null, offset)
    else if tag == 1
    then pure (boolean true, offset)
    else if tag == 2
    then pure (boolean false, offset)
    else if tag == 3
    then read_word (λ u. integer (from_i64 u)) buffer offset
    else if tag == 4
    then read_bytes buffer offset
    else if tag == 5
    then decode_list next buffer offset
    else if tag == 6
    then decode_map next buffer offset
    else if tag == 7
    then read_word float buffer offset
    else if tag == 8
    then read_word (λ u. integer (pos u)) buffer offset
    else raise unknown_tag

unfoldable pub decode_levels : ℕ → List ℕ → ℕ → Decode (Value × ℕ)
decode_levels zero buffer offset = raise nesting
decode_levels (suc k) buffer offset = do
  require_available buffer offset 1
  decode_tag (byte_at buffer offset) (decode_levels k buffer) buffer (offset + 1)

-- The budget is the state. A call that gives both a budget and a limit, which the source refuses with
-- ValueError, has no counterpart here.
unfoldable pub decode_value_at : List ℕ → ℕ → Decode (Value × ℕ)
decode_value_at buffer offset = decode_levels (suc max_value_nesting) buffer offset

abbrev pub with_suffix :
    List ℕ → Outcome Error Budget (Value × ℕ) → Outcome Error (Unit {0}) (Value × List ℕ)
with_suffix buffer (ok (v, offset) _) = ok (v, drop offset buffer) tt
with_suffix buffer (err e _) = err e tt

-- The value with the unconsumed suffix; the budget is made for this one call.
unfoldable pub decode_value : List ℕ → Option ℕ → Outcome Error (Unit {0}) (Value × List ℕ)
decode_value [] limit = err empty tt
decode_value (b ∷ bs) limit = with_suffix (b ∷ bs) (decode_value_at (b ∷ bs) 0 limit)
