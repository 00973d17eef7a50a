-- ===== src/Codec/Encode/Bound.antt =====
-- The encoder of `protocol_codec.py` and the limit `max_bytes`.
use ferricstore_python.Base.{
  ℕ, ◌+◌, ◌^◌, ◌≡◌, Bool, true, false, Option, none, some, List, [], ◌∷◌, length, length-append,
  ltb, arith, if◌then◌else◌,
}
use ferricstore_python.Base.Exec.{Outcome, ok, err, Exec, pure, raise, continue, ◌>>=◌, ◌>>◌}
use ferricstore_python.Codec.Value.{
  Error, ℤ, pos, negsuc, Key, text_key, bytes_key, other_key, Value, null, boolean, integer, text,
  binary, list, tuple, dict, float, other, Items, nil, cons, Fields, end, field, count,
  count_fields, u32_max, max_value_nesting, str_encode, contains,
}
use ferricstore_python.Codec.Encode.{
  Writer, Write, write, ensure_capacity, write_binary_length, write_binary, write_collection_header,
  write_integer, check_text, remaining_capacity, require_utf8_within, write_text, write_encoded,
  lift_key, write_key, at_depth, write_value, write_items, write_fields,
}
use ferricstore_python.Codec.Encode.Writes.{Fits}

pub record IsBounded (limit : Option ℕ) (w : Writer) : Type 0 where
  pub limit_is : w.max_bytes ≡ limit
  pub size_is : w.size ≡ length w.out
  pub within : Fits limit w.size 0

module _ {A : Type 0} where
  abbrev pub final : Outcome Error Writer A → Writer
  final (ok a w) = w
  final (err e w) = w

  -- `m` keeps a writer bounded, whether it returns or raises.
  pub record Keeps (m : Exec Error Writer A) : Type 0 where
    pub at : (limit : Option ℕ) (w : Writer) → IsBounded limit w → IsBounded limit (final (m w))

  Keeps-pure : (a : A) → Keeps (pure a)
  Keeps-pure a = record { at = λ limit w h. h }

  Keeps-raise : (e : Error) → Keeps (raise e)
  Keeps-raise e = record { at = λ limit w h. h }

  Keeps-if : {m k : Exec Error Writer A} (b : Bool) → Keeps m → Keeps k → Keeps (if b then m else k)
  Keeps-if true hm hk = hm
  Keeps-if false hm hk = hk

module _ {A B : Type 0} where
  continue-IsBounded :
      (o : Outcome Error Writer A) (f : A → Exec Error Writer B) (limit : Option ℕ)
      → IsBounded limit (final o)
      → ((a : A) → Keeps (f a))
      → IsBounded limit (final (continue o f))
  continue-IsBounded (ok a w) f limit h hf = (hf a).at limit w h
  continue-IsBounded (err e w) f limit h hf = h

  Keeps-bind :
      (m : Exec Error Writer A) (f : A → Exec Error Writer B)
      → Keeps m
      → ((a : A) → Keeps (f a))
      → Keeps (m >>= f)
  Keeps-bind m f hm hf = record {
    at = λ limit w h. continue-IsBounded (m w) f limit (hm.at limit w h) hf;
  }

Keeps-seq : {m k : Write} → Keeps m → Keeps k → Keeps (m >> k)
Keeps-seq {m} {k} hm hk = Keeps-bind m (λ _. k) hm (λ _. hk)

Keeps-write : (bs : List ℕ) → Keeps (write bs)
unfolding write ensure_capacity
Keeps-write bs = record { at = λ limit w h. keep limit w h }
  where
    keep :
        (limit : Option ℕ) (w : Writer) → IsBounded limit w → IsBounded limit (final (write bs w))
    keep none w h = ground (arith, length-append w.out bs)
    keep (some m) w h = ground (arith, length-append w.out bs)

Keeps-check_text : (cs : List ℕ) → Keeps (check_text cs)
unfolding check_text ensure_capacity remaining_capacity require_utf8_within
Keeps-check_text cs = record { at = λ limit w h. ground arith }

Keeps-binary_length : (n : ℕ) → Keeps (write_binary_length n)
unfolding write_binary_length
Keeps-binary_length n = Keeps-if (ltb u32_max n) (Keeps-raise _) (Keeps-write _)

Keeps-binary : (bs : List ℕ) → Keeps (write_binary bs)
unfolding write_binary
Keeps-binary bs = Keeps-seq (Keeps-write _) (Keeps-seq (Keeps-binary_length _) (Keeps-write _))

Keeps-encoded : (o : Option (List ℕ)) → Keeps (write_encoded o)
unfolding write_encoded
Keeps-encoded none = Keeps-raise _
Keeps-encoded (some bs) = Keeps-binary bs

Keeps-text : (cs : List ℕ) → Keeps (write_text cs)
unfolding write_text
Keeps-text cs = Keeps-seq (Keeps-check_text cs) (Keeps-encoded (str_encode cs))

Keeps-header : (tag n : ℕ) → Keeps (write_collection_header tag n)
unfolding write_collection_header
Keeps-header tag n =
    Keeps-if (ltb u32_max n) (Keeps-raise _) (Keeps-seq (Keeps-write _) (Keeps-write _))

Keeps-integer : (n : ℤ) → Keeps (write_integer n)
unfolding write_integer
Keeps-integer (pos n) =
    Keeps-if (ltb n (2 ^ 63)) (Keeps-seq (Keeps-write _) (Keeps-write _))
      (Keeps-if (ltb n (2 ^ 64)) (Keeps-seq (Keeps-write _) (Keeps-write _)) (Keeps-raise _))
Keeps-integer (negsuc n) =
    Keeps-if (ltb n (2 ^ 63)) (Keeps-seq (Keeps-write _) (Keeps-write _)) (Keeps-raise _)

Keeps-lift_key : (k : Key) → Keeps (lift_key k)
unfolding lift_key
Keeps-lift_key (bytes_key bs) = Keeps-pure bs
Keeps-lift_key (text_key cs) = record { at = λ limit w h. ground arith }
Keeps-lift_key other_key = Keeps-raise _

Keeps-key : (seen : List (List ℕ)) (key : List ℕ) → Keeps (write_key seen key)
unfolding write_key
Keeps-key seen key =
    Keeps-if (contains seen key) (Keeps-raise _) (Keeps-seq (Keeps-binary_length _) (Keeps-write _))

Keeps-at_depth : {m : Write} (depth : ℕ) → Keeps m → Keeps (at_depth depth m)
unfolding at_depth
Keeps-at_depth depth h = Keeps-if (ltb max_value_nesting depth) (Keeps-raise _) h

mutual
  unfolding write_value

  pub Keeps-value : (depth : ℕ) (v : Value) → Keeps (write_value depth v)
  Keeps-value depth null = Keeps-at_depth depth (Keeps-write _)
  Keeps-value depth (boolean true) = Keeps-at_depth depth (Keeps-write _)
  Keeps-value depth (boolean false) = Keeps-at_depth depth (Keeps-write _)
  Keeps-value depth (integer n) = Keeps-at_depth depth (Keeps-integer n)
  Keeps-value depth (text cs) = Keeps-at_depth depth (Keeps-text cs)
  Keeps-value depth (binary bs) = Keeps-at_depth depth (Keeps-binary bs)
  Keeps-value depth (list vs) =
      Keeps-at_depth depth (Keeps-seq (Keeps-header 5 (count vs)) (Keeps-items (depth + 1) vs))
  Keeps-value depth (tuple vs) =
      Keeps-at_depth depth (Keeps-seq (Keeps-header 5 (count vs)) (Keeps-items (depth + 1) vs))
  Keeps-value depth (dict fs) =
      Keeps-at_depth depth
        (Keeps-seq (Keeps-header 6 (count_fields fs)) (Keeps-fields (depth + 1) [] fs))
  Keeps-value depth (float b) = Keeps-at_depth depth (Keeps-seq (Keeps-write _) (Keeps-write _))
  Keeps-value depth other = Keeps-at_depth depth (Keeps-raise _)

  Keeps-items : (depth : ℕ) (vs : Items) → Keeps (write_items depth vs)
  Keeps-items depth nil = Keeps-pure tt
  Keeps-items depth (cons v vs) = Keeps-seq (Keeps-value depth v) (Keeps-items depth vs)

  Keeps-fields :
      (depth : ℕ) (seen : List (List ℕ)) (fs : Fields) → Keeps (write_fields depth seen fs)
  Keeps-fields depth seen end = Keeps-pure tt
  Keeps-fields depth seen (field k v fs) = Keeps-bind (lift_key k) _ (Keeps-lift_key k) (λ key.
      Keeps-seq (Keeps-key seen key)
        (Keeps-seq (Keeps-value depth v) (Keeps-fields depth (key ∷ seen) fs)))
