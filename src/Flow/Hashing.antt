-- ===== src/Flow/Hashing.antt =====
-- `flow_routing.py`: the routing keys of partitions and of Flow ids. A hash is a parameter: `crc32` is
-- `zlib.crc32` with its running value, and `fresh`, `update` and `digest` are `hashlib.sha256`, the digest in
-- URL-safe base64 without its padding. `none` is the UnicodeEncodeError of a text that has no UTF-8 form.
use ferricstore_python.Base.{
  ℕ, zero, suc, ◌+◌, ◌-◌, ◌*◌, ◌/◌, ◌%◌, Bool, ◌&&◌, Option, none, some, List, [], ◌∷◌, ◌++◌,
  length, take, drop, ltb, leb, ◌==◌, if◌then◌else◌,
}
use ferricstore_python.Codec.Value.{Value, text, binary, str_encode}
use ferricstore_python.Commands.Retry.{codes}

-- `_FLOW_PARTITION_ROUTE_CACHE_MAX_KEY_BYTES`
abbrev pub partition_route_cache_max_key_bytes : ℕ
partition_route_cache_max_key_bytes = 4096

-- `_FLOW_ROUTING_TEXT_CHUNK_CHARS`
abbrev pub routing_text_chunk_chars : ℕ
routing_text_chunk_chars = 4096

-- `_FLOW_AUTO_PARTITION_MAX_KEY_BYTES`, the length of `__flow_auto__:255`.
abbrev pub auto_partition_max_key_bytes : ℕ
auto_partition_max_key_bytes = 17

-- `_FLOW_AUTO_PARTITION_BUCKETS`
abbrev pub auto_partition_buckets : ℕ
auto_partition_buckets = 256

-- `_FLOW_AUTO_PARTITION_PREFIX`
abbrev pub auto_partition_prefix : List ℕ
auto_partition_prefix = codes "__flow_auto__:"

-- The decimal digits of a number below 1000.
abbrev pub decimal : ℕ → List ℕ
decimal n =
    if ltb n 10
    then (b'0' + n) ∷ []
    else if ltb n 100
    then (b'0' + n / 10) ∷ (b'0' + n % 10) ∷ []
    else (b'0' + n / 100) ∷ (b'0' + n / 10 % 10) ∷ (b'0' + n % 10) ∷ []

abbrev pub auto_key : ℕ → Value
auto_key bucket = text (codes "f:{fa:" ++ (decimal bucket ++ codes "}:route"))

abbrev pub global_route_key : Value
global_route_key = text (codes "f:{f}:route")

abbrev pub is_digit : ℕ → Bool
is_digit b = leb b'0' b && leb b b'9'

-- The group of `_AUTO_PARTITION_RE` as a number: 0, or one to three digits without a leading zero.
abbrev pub bucket_digits : List ℕ → Option ℕ
bucket_digits [] = none
bucket_digits (a ∷ []) = if is_digit a then some (a - b'0') else none
bucket_digits (a ∷ b ∷ []) =
    if leb b'1' a && leb a b'9' && is_digit b then some (10 * (a - b'0') + (b - b'0')) else none
bucket_digits (a ∷ b ∷ c ∷ []) =
    if leb b'1' a && leb a b'9' && (is_digit b && is_digit c)
    then some (100 * (a - b'0') + 10 * (b - b'0') + (c - b'0'))
    else none
bucket_digits (a ∷ b ∷ c ∷ d ∷ ds) = none

abbrev pub behind_prefix : List ℕ → List ℕ → Option (List ℕ)
behind_prefix [] bs = some bs
behind_prefix (p ∷ ps) [] = none
behind_prefix (p ∷ ps) (b ∷ bs) = if p == b then behind_prefix ps bs else none

abbrev pub below_buckets : Option ℕ → Option ℕ
below_buckets none = none
below_buckets (some n) = if ltb n auto_partition_buckets then some n else none

abbrev pub digits_behind : Option (List ℕ) → Option ℕ
digits_behind none = none
digits_behind (some ds) = bucket_digits ds

-- The bucket that an encoded partition names.
unfoldable pub auto_bucket : List ℕ → Option ℕ
auto_bucket encoded =
    if ltb auto_partition_max_key_bytes (length encoded)
    then none
    else below_buckets (digits_behind (behind_prefix auto_partition_prefix encoded))

-- The loops of `_logical_partition_text_routing_key` and `_routing_crc32`, on fuel: one piece of the text a
-- turn, encoded and added to what has been read.
module _ {S : Type 0} (add : S → List ℕ → S) where
  abbrev pub add_encoded : Option (List ℕ) → S → Option S
  add_encoded none state = none
  add_encoded (some bs) state = some (add state bs)

  unfoldable pub add_pieces : ℕ → List ℕ → S → Option S
  add_pieces zero cs state = some state
  add_pieces (suc fuel) [] state = some state
  add_pieces (suc fuel) (c ∷ cs) state =
      elim (add_encoded (str_encode (take routing_text_chunk_chars (c ∷ cs))) state) [
        | none ↦ none
        | some next ↦ add_pieces fuel (drop routing_text_chunk_chars (c ∷ cs)) next
      ]

module _ {H : Type 0} (crc32 : List ℕ → ℕ → ℕ) (fresh : H) (update : H → List ℕ → H)
    (digest : H → List ℕ) where
  abbrev pub partition_key : H → Value
  partition_key hasher = text (codes "f:{f:" ++ (digest hasher ++ codes "}:route"))

  abbrev pub bucket_or_digest : Option ℕ → List ℕ → Value
  bucket_or_digest (some bucket) encoded = auto_key bucket
  bucket_or_digest none encoded = partition_key (update fresh encoded)

  -- `_logical_partition_routing_key`
  unfoldable pub logical_partition_routing_key : List ℕ → Value
  unfolding auto_bucket
  logical_partition_routing_key encoded = bucket_or_digest (auto_bucket encoded) encoded

  abbrev pub keyed : Option H → Option Value
  keyed none = none
  keyed (some hasher) = some (partition_key hasher)

  unfoldable pub logical_partition_text_routing_key : List ℕ → Option Value
  unfolding add_pieces
  logical_partition_text_routing_key cs = keyed (add_pieces update (length cs) cs fresh)

  abbrev pub key_of_encoded : Option (List ℕ) → Option Value
  key_of_encoded none = none
  key_of_encoded (some bs) = some (logical_partition_routing_key bs)

  -- `flow_logical_partition_routing_key`; the cache behind it returns what it would compute again.
  unfoldable pub flow_logical_partition_routing_key : Value → Option (Option Value)
  unfolding logical_partition_text_routing_key logical_partition_routing_key
  flow_logical_partition_routing_key (binary bs) = some (some (logical_partition_routing_key bs))
  flow_logical_partition_routing_key (text cs) =
      elim (if ltb partition_route_cache_max_key_bytes (length cs)
        then logical_partition_text_routing_key cs
        else key_of_encoded (str_encode cs)) [ none ↦ none | some key ↦ some (some key) ]
  flow_logical_partition_routing_key _ = some none

  -- `_routing_crc32`
  unfoldable pub routing_crc32 : Value → Option (Option ℕ)
  unfolding add_pieces
  routing_crc32 (binary bs) = some (some (crc32 bs 0))
  routing_crc32 (text cs) = elim (add_pieces (λ checksum bs. crc32 bs checksum) (length cs) cs 0) [
    | none ↦ none
    | some checksum ↦ some (some checksum)
  ]
  routing_crc32 _ = some none

  abbrev pub auto_id_key : Option (Option ℕ) → Option (Option Value)
  auto_id_key none = none
  auto_id_key (some none) = some none
  auto_id_key (some (some checksum)) = some (some (auto_key (checksum % 256)))

  -- `flow_auto_id_routing_key`
  unfoldable pub flow_auto_id_routing_key : Value → Option (Option Value)
  unfolding routing_crc32
  flow_auto_id_routing_key value = auto_id_key (routing_crc32 value)
