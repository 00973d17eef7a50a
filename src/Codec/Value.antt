-- ===== src/Codec/Value.antt =====
-- The Python values that `protocol_codec.py` tells apart, its errors, and the standard library's
-- UTF-8 and fixed-width encodings that it calls.
-- Text is its code points. A float is the 64-bit pattern that `struct` packs, read modulo 2 ^ 64.
-- `binary` stands for `bytes` and `bytearray`, which the encoder writes alike; where a module tests for
-- `bytes` alone, as the topology, the retries and the compact budget do, it stands for `bytes` only and a
-- `bytearray` is read as `other`.
use ferricstore_python.Base.{
  ℕ, zero, suc, ◌+◌, ◌-◌, ◌*◌, ◌/◌, ◌%◌, ◌^◌, Bool, true, false, ◌&&◌, ◌||◌, not, Option, none,
  some, List, [], ◌∷◌, ◌++◌, length, leb, ◌==◌, if◌then◌else◌,
}

-- One constructor for each `raise` of the module.
pub data Error : Type 0 where
  nesting integer_range invalid_text unsupported count_range length_range : Error
  value_limit duplicate_key key_type empty truncated unknown_tag collection_limit : Error

-- `negsuc n` is -(n + 1).
pub data ℤ : Type 0 where
  pos : ℕ → ℤ
  negsuc : ℕ → ℤ

pub data Key : Type 0 where
  text_key : List ℕ → Key
  bytes_key : List ℕ → Key
  other_key : Key

mutual
  pub data Value : Type 0 where
    null : Value
    boolean : Bool → Value
    integer : ℤ → Value
    text : List ℕ → Value
    binary : List ℕ → Value
    list : Items → Value
    tuple : Items → Value
    dict : Fields → Value
    float : ℕ → Value
    other : Value

  pub data Items : Type 0 where
    nil : Items
    cons : Value → Items → Items

  pub data Fields : Type 0 where
    end : Fields
    field : Key → Value → Fields → Fields

-- `len` of a list or tuple, and of a dict.
abbrev pub count : Items → ℕ
count nil = 0
count (cons v vs) = suc (count vs)

abbrev pub count_fields : Fields → ℕ
count_fields end = 0
count_fields (field k v fs) = suc (count_fields fs)

abbrev pub max_value_nesting : ℕ
max_value_nesting = 128

abbrev pub u32_max : ℕ
u32_max = 2 ^ 32 - 1

-- `struct.pack` of an unsigned integer in `k` bytes, most significant first, and its inverse.
unfoldable pub be : ℕ → ℕ → List ℕ
be zero n = []
be (suc k) n = (n / 256 ^ k % 256) ∷ be k n

unfoldable pub from_be : List ℕ → ℕ
from_be [] = 0
from_be (b ∷ bs) = b * 256 ^ length bs + from_be bs

-- The UTF-8 form of a code point; `str.encode` refuses surrogates.
unfoldable pub utf8_point : ℕ → List ℕ
utf8_point c =
    if leb c 0x7f
    then c ∷ []
    else if leb c 0x7ff
    then (0xc0 + c / 64) ∷ (0x80 + c % 64) ∷ []
    else if leb c 0xffff
    then (0xe0 + c / 4096) ∷ (0x80 + c / 64 % 64) ∷ (0x80 + c % 64) ∷ []
    else (0xf0 + c / 262144) ∷ (0x80 + c / 4096 % 64) ∷ (0x80 + c / 64 % 64) ∷ (0x80 + c % 64) ∷ []

abbrev pub utf8 : List ℕ → List ℕ
utf8 [] = []
utf8 (c ∷ cs) = utf8_point c ++ utf8 cs

abbrev pub is_surrogate : ℕ → Bool
is_surrogate c = leb 0xd800 c && leb c 0xdfff

abbrev pub is_encodable : List ℕ → Bool
is_encodable [] = true
is_encodable (c ∷ cs) = not (is_surrogate c) && is_encodable cs

unfoldable pub str_encode : List ℕ → Option (List ℕ)
str_encode cs = if is_encodable cs then some (utf8 cs) else none

-- Equality of byte strings, and membership in a set of them.
abbrev pub bytes_eq : List ℕ → List ℕ → Bool
bytes_eq [] [] = true
bytes_eq [] (b ∷ bs) = false
bytes_eq (a ∷ as') [] = false
bytes_eq (a ∷ as') (b ∷ bs) = a == b && bytes_eq as' bs

abbrev pub contains : List (List ℕ) → List ℕ → Bool
contains [] k = false
contains (j ∷ js) k = bytes_eq k j || contains js k
