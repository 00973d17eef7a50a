-- ===== src/Compact/Exact.antt =====
-- `_bounded_maybe_bytes` of `protocol_compact_budget.py`, against encoding first and counting then.
use ferricstore_python.Base.{
  ℕ, ◌+◌, ◌-◌, ◌*◌, ◌≡◌, ◌≤◌, refl, sym, ap, ◌∙◌, Bool, true, false, not, Option, none, some, List,
  length, ltb, if◌then◌else◌, if_true, if_false, arith, ltb_false→le,
}
use ferricstore_python.Codec.Value.{Value, text, binary, str_encode}
use ferricstore_python.Compact.{
  planned, refused, compact_payload_budget, header_size, over_capacity, no_encoding, Policy, Limits,
  budgeted, limited, by_policy, Outcome, returns, raises, exceeds, encode_first, count_bytes,
  count_encoded, count_measured, text_bytes, bounded_maybe_bytes,
}
use ferricstore_python.Compact.Sizes.{sized, binary_wire_size-exact}

-- The bytes of a value: bytes are their own, a text has its UTF-8 form or none, and nothing else has any.
pub data Bytes : Type 0 where
  no_bytes unencodable : Bytes
  bytes : List ℕ → Bytes

abbrev pub encoded : Option (List ℕ) → Bytes
encoded none = unencodable
encoded (some bs) = bytes bs

abbrev pub bytes_of : Value → Bytes
bytes_of (binary bs) = bytes bs
bytes_of (text cs) = encoded (str_encode cs)
bytes_of _ = no_bytes

-- Whether compact requests are allowed at all.
abbrev pub is_allowed : Limits → Bool
is_allowed (by_policy p) = p.enabled
is_allowed _ = true

abbrev pub counted : Bytes → Limits → Outcome
counted no_bytes l = returns none l
counted unencodable l = if is_allowed l then raises no_encoding l else returns none l
counted (bytes bs) l = count_bytes (4 + length bs) (some bs) l

-- Measuring a text without encoding it makes no difference.
measured-encoded :
    (o : Option (List ℕ)) (l : Limits) → count_measured (sized 4 o) o l ≡ count_encoded o l
measured-encoded none l = refl
measured-encoded (some bs) l = refl

text_bytes-some :
    (b : Bool) (cs : List ℕ) (l : Limits)
    → text_bytes (some b) cs l ≡ count_encoded (str_encode cs) l
text_bytes-some true cs l = refl
text_bytes-some false cs l =
    ap (λ o. count_measured o (str_encode cs) l) (binary_wire_size-exact cs)
    ∙ measured-encoded (str_encode cs) l

allowed-counted :
    (o : Option (List ℕ)) (l : Limits)
    → is_allowed l ≡ true
    → count_encoded o l ≡ counted (encoded o) l
allowed-counted none l h = rw h refl
allowed-counted (some bs) l h = refl

refused-counted :
    (o : Option (List ℕ)) (p : Policy)
    → p.enabled ≡ false
    → returns none (by_policy p) ≡ counted (encoded o) (by_policy p)
refused-counted none p h = sym (if_false p.enabled _ _ h)
refused-counted (some bs) p h = sym (if_true (not p.enabled) _ _ (ap not h))

text-counted :
    (cs : List ℕ) (l : Limits)
    → text_bytes (encode_first (4 + 4 * length cs) l) cs l ≡ counted (encoded (str_encode cs)) l
text-counted cs (budgeted b) =
    text_bytes-some _ cs (budgeted b) ∙ allowed-counted (str_encode cs) (budgeted b) refl
text-counted cs (limited m) =
    text_bytes-some _ cs (limited m) ∙ allowed-counted (str_encode cs) (limited m) refl
text-counted cs (by_policy p) = go p.enabled refl
  where
    go :
        (b : Bool)
        → p.enabled ≡ b
        → text_bytes
            (if not b then none else some (not (exceeds (4 + 4 * length cs) p.max_payload_bytes)))
            cs
            (by_policy p)
          ≡ counted (encoded (str_encode cs)) (by_policy p)
    go true h = text_bytes-some _ cs (by_policy p) ∙ allowed-counted (str_encode cs) (by_policy p) h
    go false h = refused-counted (str_encode cs) p h

-- Whatever it counts against, `_bounded_maybe_bytes` does what encoding the value first and counting its bytes
-- with their length prefix then would do, though it may only measure a text first.
pub bounded_maybe_bytes-counted :
    (v : Value) (l : Limits) → bounded_maybe_bytes v l ≡ counted (bytes_of v) l
unfolding bounded_maybe_bytes
bounded_maybe_bytes-counted (binary bs) l = refl
bounded_maybe_bytes-counted (text cs) l = text-counted cs l
bounded_maybe_bytes-counted _ l = refl

abbrev Fits : ℕ → Outcome → Type 0
Fits n (returns (some bs) l) = 4 + length bs ≤ n
Fits n _ = Unit

counted-Fits :
    (m : ℕ) (b : Bytes)
    → Fits m (counted b (by_policy (record { enabled = true; max_payload_bytes = some m })))
counted-Fits m no_bytes = tt
counted-Fits m unencodable = tt
counted-Fits m (bytes bs) = go (ltb m (4 + length bs)) refl
  where
    p : Policy
    p = record { enabled = true; max_payload_bytes = some m }

    go :
        (b : Bool)
        → ltb m (4 + length bs) ≡ b
        → Fits m (if b then raises over_capacity (by_policy p) else returns (some bs) (by_policy p))
    go true h = tt
    go false h = ltb_false→le m (4 + length bs) h

plan-header :
    (n m : ℕ) (zlib : Bool)
    → compact_payload_budget (some n) zlib ≡ planned true (some m)
    → m + header_size ≤ n
unfolding compact_payload_budget
plan-header n m true h = absurd cc
plan-header n m false h = go (ltb n header_size) refl h
  where
    go :
        (b : Bool)
        → ltb n header_size ≡ b
        → (if b then refused over_capacity else planned true (some (n - header_size)))
          ≡ planned true (some m)
        → m + header_size ≤ n
    go true e k = absurd cc
    go false e k =
        let same : n - header_size ≡ m = cc in omega (arith, same, ltb_false→le n header_size e)

-- Under the policy that `_compact_payload_budget` plans for a limit on pending bytes, the bytes that
-- `_bounded_maybe_bytes` returns fit that limit with their length prefix and the header.
pub planned_bytes-fit :
    (n m : ℕ) (zlib : Bool) (v : Value) (bs : List ℕ) (l : Limits)
    → compact_payload_budget (some n) zlib ≡ planned true (some m)
    → bounded_maybe_bytes v (by_policy (record { enabled = true; max_payload_bytes = some m }))
      ≡ returns (some bs) l
    → 4 + length bs + header_size ≤ n
planned_bytes-fit n m zlib v bs l h k = omega (
  arith,
  plan-header n m zlib h,
  fits _ (sym k ∙ bounded_maybe_bytes-counted v (by_policy p)) (counted-Fits m (bytes_of v)),
)
  where
    p : Policy
    p = record { enabled = true; max_payload_bytes = some m }

    fits : (o : Outcome) → returns (some bs) l ≡ o → Fits m o → 4 + length bs ≤ m
    fits (returns (some cs) l') e f = let same : bs ≡ cs = cc in omega (arith, f, ap length same)
    fits (returns none l') e f = absurd cc
    fits (raises x l') e f = absurd cc
