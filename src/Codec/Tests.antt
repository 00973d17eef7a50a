-- ===== src/Codec/Tests.antt =====
-- The codec's theorems on a list with a text, an integer and a map.
use ferricstore_python.Base.{
  ℕ, ◌+◌, ◌≡◌, ◌↔◌, ◌≤◌, ◌<◌, refl, true, some, List, [], ◌∷◌, ◌++◌, length, arith,
}
use ferricstore_python.Base.Exec.{ok}
use ferricstore_python.Codec.Value.{
  Value, list, text, integer, dict, null, pos, cons, nil, field, end, text_key, be, utf8_point,
  from_be,
}
use ferricstore_python.Codec.Wire.{is_valid, value_bytes, wire_value, cost}
use ferricstore_python.Codec.Encode.{encode_value, encode_value_into, received}
use ferricstore_python.Codec.Encode.Writes.{Fits}
use ferricstore_python.Codec.Decode.{
  Decode, decode_value, decode_value_at, decode_list_items, decode_levels, require_available,
  decode_tag, decode_list, read_u32, consume, decode_triple, read_bytes, read_binary, decode_map,
  decode_fields, read_word, from_i64,
}
use ferricstore_python.Codec.Decode.Reads.{Covers, spend}
use ferricstore_python.Codec.Decode.RoundTrip.{list_loop, decode_list_items-list_loop}
use ferricstore_python.Codec.Laws.{
  encode_value_exact, decode_value-encode_value, encode_value_into-bounded, decode_value_at-moves,
}

-- `["a", {"k": 5}, None]`
abbrev sample : Value
sample = list (
    cons (text (97 ∷ []))
      (cons (dict (field (text_key (107 ∷ [])) (integer (pos 5)) end)) (cons null nil)))

abbrev sample_bytes : List ℕ
sample_bytes =
    5 ∷ 0 ∷ 0 ∷ 0 ∷ 3 ∷ 4 ∷ 0 ∷ 0 ∷ 0 ∷ 1 ∷ 97 ∷ 6 ∷ 0 ∷ 0 ∷ 0 ∷ 1 ∷ 0 ∷ 0 ∷ 0 ∷ 1 ∷ 107 ∷ 3 ∷ 0 ∷ 0
    ∷ 0 ∷ 0 ∷ 0 ∷ 0 ∷ 0 ∷ 5 ∷ 0 ∷ []

sample_form : sample_bytes ≡ value_bytes sample
unfolding value_bytes be utf8_point
sample_form = refl

sample_valid : is_valid 0 sample ≡ true
unfolding is_valid utf8_point
sample_valid = refl

sample_encoded : encode_value sample (some 40) ≡ ok sample_bytes tt
sample_encoded =
    (encode_value_exact sample (some 40) sample_bytes).1 (sample_valid, sample_form, omega arith)

encode_value_exact_example : (encode_value sample (some 40) ≡ ok sample_bytes tt) ↔ (
    (is_valid 0 sample ≡ true)
    × (sample_bytes ≡ value_bytes sample)
    × Fits (some 40) 0 (length sample_bytes))
encode_value_exact_example = encode_value_exact sample (some 40) sample_bytes

sample_covered : Covers (some 7) (cost sample)
unfolding cost
sample_covered = omega arith

round_trip_example :
    decode_value (sample_bytes ++ 9 ∷ []) (some 7) ≡ ok (wire_value sample, 9 ∷ []) tt
round_trip_example =
    decode_value-encode_value sample (some 40) (some 7) sample_bytes (9 ∷ []) sample_encoded
      sample_covered

bounded_example : length (received (encode_value_into sample (some 12))) ≤ 12
bounded_example = encode_value_into-bounded sample 12

sample_decoded : decode_value_at sample_bytes 0 (some 7) ≡ ok (wire_value sample, 31) (some 3)
unfolding decode_value_at decode_levels require_available decode_tag decode_list read_u32 consume
    from_be decode_list_items decode_triple read_bytes read_binary decode_map decode_fields
    read_word wire_value utf8_point from_i64
sample_decoded = refl

moves_example :
    (0 < 31)
    × (31 ≤ length sample_bytes)
    × Covers (some 7) (cost (wire_value sample))
    × (some 3 ≡ spend (some 7) (cost (wire_value sample)))
moves_example =
    decode_value_at-moves sample_bytes 0 31 (wire_value sample) (some 7) (some 3) sample_decoded

-- A decoder of one-byte values, on a list of three.
abbrev one_byte : ℕ → Decode (Value × ℕ)
one_byte offset r = ok (integer (pos offset), offset + 1) r

list_loop_example : decode_list_items one_byte 3 5 (some 2) ≡ list_loop one_byte 3 5 (some 2)
list_loop_example = decode_list_items-list_loop one_byte 3 5 (some 2)
