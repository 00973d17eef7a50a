-- ===== src/Codec/Decode/Cursor.antt =====
-- Positions in a buffer, and what the smallest reads return there.
use ferricstore_python.Base.{
  ℕ, zero, suc, ◌+◌, ◌^◌, ◌%◌, ◌≤◌, ◌≡◌, refl, ap, List, ◌∷◌, ◌++◌, length, drop, length-drop,
  length-append, drop-add_append, take-append, arith,
}
use ferricstore_python.Base.Exec.{ok}
use ferricstore_python.Codec.Value.{be, from_be}
use ferricstore_python.Codec.Decode.{Budget, require_available, slice, byte_at}

-- `xs` is what stands behind `offset`.
pub record At (buffer : List ℕ) (offset : ℕ) (xs : List ℕ) : Type 0 where
  pub here : drop offset buffer ≡ xs
  pub within : offset ≤ length buffer

module _ {buffer : List ℕ} {offset : ℕ} where
  pub At-length : {xs : List ℕ} → At buffer offset xs → offset + length xs ≡ length buffer
  At-length {xs = xs} h =
      omega (arith, ap (λ (l : List ℕ). length l) h.here, length-drop offset buffer, h.within)

  pub At-skip :
      (front back : List ℕ)
      → At buffer offset (front ++ back)
      → At buffer (offset + length front) back
  At-skip front back h = record {
    here = drop-add_append offset buffer front back h.here;
    within = omega (arith, At-length h, length-append front back);
  }

  pub At-available :
      (front back : List ℕ) (r : Budget)
      → At buffer offset (front ++ back)
      → require_available buffer offset (length front) r ≡ ok tt r
  unfolding require_available
  At-available front back r h = ground (arith, At-length h, length-append front back)

  pub At-slice :
      (front back : List ℕ)
      → At buffer offset (front ++ back)
      → slice buffer offset (length front) ≡ front
  At-slice front back h = rw (h.here) (take-append front back)

  pub At-byte : (b : ℕ) (xs : List ℕ) → At buffer offset (b ∷ xs) → byte_at buffer offset ≡ b
  At-byte b xs h = rw (h.here, byte_at)

pub length-be : (k n : ℕ) → length (be k n) ≡ k
unfolding be
length-be zero n = refl
length-be (suc k) n = ap suc (length-be k n)

pub from_be-be4 : (n : ℕ) → from_be (be 4 n) ≡ n % 2 ^ 32
unfolding be from_be
from_be-be4 n = omega arith

pub from_be-be8 : (n : ℕ) → from_be (be 8 n) ≡ n % 2 ^ 64
unfolding be from_be
from_be-be8 n = omega arith
