-- ===== src/Compact/Tests.antt =====
-- The theorems on compact requests, on a text of two characters.
use ferricstore_python.Base.{ℕ, ◌+◌, ◌≡◌, ◌≤◌, refl, true, false, some, [], ◌∷◌, length}
use ferricstore_python.Codec.Value.{Value, text, str_encode, utf8_point}
use ferricstore_python.Codec.Encode.{is_ascii}
use ferricstore_python.Compact.{
  Limits, budgeted, by_policy, returns, planned, compact_payload_budget, bounded_maybe_bytes,
  header_size, binary_wire_size, measure,
}
use ferricstore_python.Compact.Exact.{
  counted, bytes_of, bounded_maybe_bytes-counted, planned_bytes-fit,
}

-- An a and a u with two dots, three bytes in UTF-8.
abbrev word : Value
word = text (97 ∷ 252 ∷ [])

abbrev limits : Limits
limits = budgeted (record { max_payload_bytes = some 9; size = 2 })

bounded_maybe_bytes-counted_example :
    bounded_maybe_bytes word limits ≡ counted (bytes_of word) limits
bounded_maybe_bytes-counted_example = bounded_maybe_bytes-counted word limits

plan : compact_payload_budget (some 34) false ≡ planned true (some 10)
unfolding compact_payload_budget
plan = refl

returned :
    bounded_maybe_bytes word (by_policy (record { enabled = true; max_payload_bytes = some 10 }))
    ≡ returns
        (some (97 ∷ 195 ∷ 188 ∷ []))
        (by_policy (record { enabled = true; max_payload_bytes = some 10 }))
unfolding bounded_maybe_bytes binary_wire_size measure is_ascii str_encode utf8_point
returned = refl

planned_bytes-fit_example : 4 + length {A = ℕ} (97 ∷ 195 ∷ 188 ∷ []) + header_size ≤ 34
planned_bytes-fit_example =
    planned_bytes-fit 34 10 false word (97 ∷ 195 ∷ 188 ∷ [])
      (by_policy (record { enabled = true; max_payload_bytes = some 10 })) plan returned
