-- ===== src/Compact/Sizes.antt =====
-- `_binary_wire_size` of `protocol_compact_budget.py`, against the bytes that it measures.
use ferricstore_python.Base.{
  ℕ, suc, ◌+◌, ◌≡◌, refl, sym, ap, ◌∙◌, Bool, true, false, not, ◌&&◌, Option, none, some, List, [],
  ◌∷◌, ◌++◌, length, leb, if◌then◌else◌, arith, length-append,
}
use ferricstore_python.Codec.Value.{text, utf8, utf8_point, is_surrogate, is_encodable, str_encode}
use ferricstore_python.Codec.Encode.{is_ascii}
use ferricstore_python.Compact.{measure, binary_wire_size}

abbrev pub sized : ℕ → Option (List ℕ) → Option ℕ
sized n none = none
sized n (some bs) = some (n + length bs)

abbrev size_if : Bool → ℕ → Option ℕ
size_if b n = if b then some n else none

step-size :
    (c : ℕ) (e : Bool) (size rest : ℕ)
    → (if leb c 0x7f
        then size_if e (size + 1 + rest)
        else if leb c 0x7ff
        then size_if e (size + 2 + rest)
        else if leb 0xd800 c && leb c 0xdfff
        then none
        else if leb c 0xffff
        then size_if e (size + 3 + rest)
        else size_if e (size + 4 + rest))
      ≡ size_if (not (is_surrogate c) && e) (size + (length (utf8_point c) + rest))
unfolding utf8_point
step-size c e size rest = ground arith

measure-utf8 :
    (cs : List ℕ) (size : ℕ) → measure cs size ≡ size_if (is_encodable cs) (size + length (utf8 cs))
unfolding measure
measure-utf8 [] size = let e : size ≡ size + 0 = omega arith in ap some e
measure-utf8 (c ∷ cs) size =
    rw
      (
        measure-utf8 cs (size + 1),
        measure-utf8 cs (size + 2),
        measure-utf8 cs (size + 3),
        measure-utf8 cs (size + 4),
        length-append (utf8_point c) (utf8 cs),
      )
      (step-size c (is_encodable cs) size (length (utf8 cs)))

ascii_point : (c : ℕ) → leb c 0x7f ≡ true → (is_surrogate c ≡ false) × (length (utf8_point c) ≡ 1)
unfolding utf8_point
ascii_point c h = (ground arith, ground arith)

ascii-utf8 :
    (cs : List ℕ) → is_ascii cs ≡ true → (is_encodable cs ≡ true) × (length (utf8 cs) ≡ length cs)
unfolding is_ascii
ascii-utf8 [] h = (refl, refl)
ascii-utf8 (c ∷ cs) h = go (leb c 0x7f) refl h (ascii-utf8 cs)
  where
    go :
        (b : Bool)
        → leb c 0x7f ≡ b
        → (if b then is_ascii cs else false) ≡ true
        → (is_ascii cs ≡ true → (is_encodable cs ≡ true) × (length (utf8 cs) ≡ length cs))
        → ((not (is_surrogate c) && is_encodable cs) ≡ true)
          × (length (utf8_point c ++ utf8 cs) ≡ suc (length cs))
    go true e k rest =
        let (plain, one) = ascii_point c e in
        let (encodable, same) = rest k in
        (
          rw (plain, encodable) refl,
          omega (arith, length-append (utf8_point c) (utf8 cs), one, same),
        )
    go false e k rest = absurd cc

-- `_binary_wire_size` of a text is the length prefix and the length of its UTF-8 form, which it does not
-- build, or None exactly where it has none; of bytes it is the prefix and their length.
pub binary_wire_size-exact : (cs : List ℕ) → binary_wire_size (text cs) ≡ sized 4 (str_encode cs)
unfolding binary_wire_size str_encode
binary_wire_size-exact cs = go (is_ascii cs) refl
  where
    wrap :
        (b : Bool) → size_if b (4 + length (utf8 cs)) ≡ sized 4 (if b then some (utf8 cs) else none)
    wrap true = refl
    wrap false = refl

    go :
        (b : Bool)
        → is_ascii cs ≡ b
        → (if b then some (4 + length cs) else measure cs 4)
          ≡ sized 4 (if is_encodable cs then some (utf8 cs) else none)
    go true h =
        let (encodable, same) = ascii-utf8 cs h in rw encodable (ap (λ n. some (4 + n)) (sym same))
    go false h = measure-utf8 cs 4 ∙ wrap (is_encodable cs)
