-- ===== src/Codec/Laws.antt =====
-- The entry points of `protocol_codec.py`: `encode_value`, `encode_value_into`, `decode_value` and
-- `decode_value_at`.
use ferricstore_python.Base.{
  ℕ, ◌+◌, ◌≤◌, ◌<◌, ◌≡◌, ◌↔◌, refl, sym, ap, ◌∙◌, true, Option, none, some, List, [], ◌∷◌, ◌++◌,
  length, drop, drop-append, arith,
}
use ferricstore_python.Base.Exec.{Outcome, ok, err}
use ferricstore_python.Codec.Value.{Error, Value}
use ferricstore_python.Codec.Wire.{is_valid, value_bytes, wire_value, cost}
use ferricstore_python.Codec.Encode.{
  Writer, fresh, write_value, encode_value, encode_value_into, getvalue, received,
}
use ferricstore_python.Codec.Encode.Writes.{Writes, Fits}
use ferricstore_python.Codec.Encode.Format.{Writes-value}
use ferricstore_python.Codec.Encode.Bound.{IsBounded, final, Keeps-value}
use ferricstore_python.Codec.Decode.{
  Budget, decode_levels, decode_value_at, decode_value, require_available,
}
use ferricstore_python.Codec.Decode.Reads.{Covers, spend}
use ferricstore_python.Codec.Decode.RoundTrip.{Reads-value}
use ferricstore_python.Codec.Decode.Progress.{Done, levels_strict}

getvalue-eq-ok :
    (o : Outcome Error Writer (Unit {0})) (bs : List ℕ)
    → getvalue o ≡ ok bs tt
    → (w : Writer) × (o ≡ ok tt w) × (w.out ≡ bs)
getvalue-eq-ok (ok _ w) bs h = (w, refl, ground arith)
getvalue-eq-ok (err e w) bs h = cc

Fits-zero : (limit : Option ℕ) → Fits limit 0 0
Fits-zero none = tt
Fits-zero (some m) = omega arith

-- `encode_value` returns `bs` exactly when the value has a wire form (nesting of 128 at most,
-- integers in the signed or unsigned 64-bit range, encodable text, 32-bit lengths and counts, str or
-- bytes keys that differ on the wire), `bs` is that form, and `bs` is within `max_bytes`.
pub encode_value_exact :
    (v : Value) (limit : Option ℕ) (bs : List ℕ)
    → (encode_value v limit ≡ ok bs tt)
      ↔ ((is_valid 0 v ≡ true) × (bs ≡ value_bytes v) × Fits limit 0 (length bs))
unfolding encode_value
encode_value_exact v limit bs = (exact, back)
  where
    rule : Writes (is_valid 0 v) (write_value 0 v) (value_bytes v)
    rule = Writes-value 0 v

    exact :
        getvalue (write_value 0 v (fresh limit)) ≡ ok bs tt
        → (is_valid 0 v ≡ true) × (bs ≡ value_bytes v) × Fits limit 0 (length bs)
    exact h =
        let (w, e, out) = getvalue-eq-ok _ bs h in
        let (valid, room, done) = rule.only (fresh limit) w (Fits-zero limit) e in
        let same : bs ≡ value_bytes v = sym out ∙ ap (λ (u : Writer). u.out) done in
        (valid, same, rw same room)

    back :
        (is_valid 0 v ≡ true) × (bs ≡ value_bytes v) × Fits limit 0 (length bs)
        → getvalue (write_value 0 v (fresh limit)) ≡ ok bs tt
    back (valid, same, room) = rw (rule.does (fresh limit) valid (rw same at room), same)

decode_value-at :
    (buffer : List ℕ) (budget r : Budget) (v : Value) (offset : ℕ)
    → decode_value_at buffer 0 budget ≡ ok (v, offset) r
    → decode_value buffer budget ≡ ok (v, drop offset buffer) tt
unfolding decode_value
decode_value-at [] budget r v offset h =
    unfold decode_value_at decode_levels require_available in cc h
decode_value-at (b ∷ bs) budget r v offset h = rw h

-- A value that `encode_value` accepted comes back from `decode_value` in its wire form, with the
-- bytes that follow it, whenever the item budget covers its collections.
pub decode_value-encode_value :
    (v : Value) (limit budget : Option ℕ) (bs rest : List ℕ)
    → encode_value v limit ≡ ok bs tt
    → Covers budget (cost v)
    → decode_value (bs ++ rest) budget ≡ ok (wire_value v, rest) tt
unfolding decode_value_at
decode_value-encode_value v limit budget bs rest h c =
    let (valid, same, room) = (encode_value_exact v limit bs).0 h in
    let read : decode_value_at (bs ++ rest) 0 budget
        ≡ ok (wire_value v, length bs) (spend budget (cost v)) =
      rw same (whole valid) in
    decode_value-at (bs ++ rest) budget _ _ _ read ∙ rw (drop-append bs rest)
  where
    whole :
        is_valid 0 v ≡ true
        → decode_value_at (value_bytes v ++ rest) 0 budget
          ≡ ok (wire_value v, length (value_bytes v)) (spend budget (cost v))
    whole valid =
        (Reads-value v 128 0 (omega arith) valid).at 0 rest budget
          (record { here = refl; within = omega arith }) c
        ∙ ground arith

-- Whether it returns or raises, `encode_value_into` has sent its sink no more than `max_bytes` bytes.
pub encode_value_into-bounded :
    (v : Value) (m : ℕ) → length (received (encode_value_into v (some m))) ≤ m
unfolding encode_value_into
encode_value_into-bounded v m = bound (write_value 0 v (fresh (some m))) (
    (Keeps-value 0 v).at (some m) (fresh (some m))
      (record { limit_is = refl; size_is = refl; within = omega arith }))
  where
    bound :
        (o : Outcome Error Writer (Unit {0}))
        → IsBounded (some m) (final o)
        → length (received o) ≤ m
    bound (ok _ w) h = omega (arith, h.size_is, h.within)
    bound (err e w) h = omega (arith, h.size_is, h.within)

-- A decoder that returns has moved forward, stays within its buffer, and has taken from the budget
-- exactly the items of the collections of its value, which the budget covered.
pub decode_value_at-moves :
    (buffer : List ℕ) (offset stop : ℕ) (v : Value) (r r' : Budget)
    → decode_value_at buffer offset r ≡ ok (v, stop) r'
    → (offset < stop) × (stop ≤ length buffer) × Covers r (cost v) × (r' ≡ spend r (cost v))
unfolding decode_value_at
decode_value_at-moves buffer offset stop v r r' h =
    let d : Done (length buffer) (offset + 1) r cost (λ v. offset + 1 ≤ length buffer)
        (ok (v, stop) r') =
      rw h at (levels_strict buffer 129 offset r) in
    let (moves, room) = d.holds in
    (omega (arith, moves.forward), moves.inside room, moves.paid, moves.left)
