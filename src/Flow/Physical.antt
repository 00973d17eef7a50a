-- ===== src/Flow/Physical.antt =====
-- `flow_routing.py`: which keys `flow_command_route_keys` and the helpers behind it return.
use ferricstore_python.Base.{
  ℕ, ◌%◌, ◌≡◌, ◌<◌, ◌⊎◌, refl, Bool, true, false, Option, none, some, List, [], ◌∷◌, length, ltb,
  if◌then◌else◌, arith, inl, inr, All,
}
use ferricstore_python.Codec.Value.{Value, text, binary, str_encode}
use ferricstore_python.Commands.Keys.{string_eq}
use ferricstore_python.Flow.Hashing.{
  global_route_key, flow_logical_partition_routing_key, flow_auto_id_routing_key, auto_key,
  partition_key, auto_bucket, bucket_or_digest, logical_partition_routing_key,
  logical_partition_text_routing_key, keyed, key_of_encoded, auto_id_key, routing_crc32, add_pieces,
  partition_route_cache_max_key_bytes,
}
use ferricstore_python.Flow.Buckets.{auto_bucket_iff}
use ferricstore_python.Flow.Routing.{single, join_keys, mapped, or_none, or_else, named}

module _ {H : Type 0} (crc32 : List ℕ → ℕ → ℕ) (fresh : H) (update : H → List ℕ → H)
    (digest : H → List ℕ) where
  -- The keys that the server knows: of one of the 256 buckets, of a partition's digest, or of everything.
  abbrev pub IsPhysical : Value → Type 0
  IsPhysical key =
      (key ≡ global_route_key)
      ⊎ (((b : ℕ) × (b < 256) × (key ≡ auto_key b))
          ⊎ ((hasher : H) × (key ≡ partition_key crc32 fresh update digest hasher)))

  abbrev pub KeyIsPhysical : Option (Option Value) → Type 0
  KeyIsPhysical (some (some key)) = IsPhysical key
  KeyIsPhysical _ = Unit

  abbrev pub KeysArePhysical : Option (List Value) → Type 0
  KeysArePhysical none = Unit
  KeysArePhysical (some keys) = All IsPhysical keys

  abbrev pub OptionArePhysical : Option (Option (List Value)) → Type 0
  OptionArePhysical (some (some keys)) = All IsPhysical keys
  OptionArePhysical _ = Unit

  pub bucket-IsPhysical :
      (o : Option ℕ) (bs : List ℕ)
      → ((b : ℕ) → o ≡ some b → b < 256)
      → IsPhysical (bucket_or_digest crc32 fresh update digest o bs)
  bucket-IsPhysical none bs h = inr (inr (update fresh bs, refl))
  bucket-IsPhysical (some b) bs h = inr (inl (b, h b refl, refl))

  pub encoded-IsPhysical :
      (bs : List ℕ) → IsPhysical (logical_partition_routing_key crc32 fresh update digest bs)
  unfolding logical_partition_routing_key
  encoded-IsPhysical bs =
      bucket-IsPhysical (auto_bucket bs) bs (λ b h. ((auto_bucket_iff bs b).0 h).0)

  abbrev TextIsPhysical : Option Value → Type 0
  TextIsPhysical none = Unit
  TextIsPhysical (some key) = IsPhysical key

  pub text_key-IsPhysical :
      (b : Bool) (o o' : Option Value)
      → TextIsPhysical o
      → TextIsPhysical o'
      → KeyIsPhysical (elim (if b then o else o') [ none ↦ none | some key ↦ some (some key) ])
  text_key-IsPhysical true none o' h k = tt
  text_key-IsPhysical true (some key) o' h k = h
  text_key-IsPhysical false o none h k = tt
  text_key-IsPhysical false o (some key) h k = k

  pub keyed-IsPhysical : (o : Option H) → TextIsPhysical (keyed crc32 fresh update digest o)
  keyed-IsPhysical none = tt
  keyed-IsPhysical (some hasher) = inr (inr (hasher, refl))

  pub key_of_encoded-IsPhysical :
      (o : Option (List ℕ)) → TextIsPhysical (key_of_encoded crc32 fresh update digest o)
  key_of_encoded-IsPhysical none = tt
  key_of_encoded-IsPhysical (some bs) = encoded-IsPhysical bs

  pub partition-IsPhysical :
      (v : Value) → KeyIsPhysical (flow_logical_partition_routing_key crc32 fresh update digest v)
  unfolding flow_logical_partition_routing_key logical_partition_text_routing_key
  partition-IsPhysical (binary bs) = encoded-IsPhysical bs
  partition-IsPhysical (text cs) =
      let hashed = add_pieces update (length cs) cs fresh in
      text_key-IsPhysical (ltb partition_route_cache_max_key_bytes (length cs))
        (keyed crc32 fresh update digest hashed)
        (key_of_encoded crc32 fresh update digest (str_encode cs)) (keyed-IsPhysical hashed)
        (key_of_encoded-IsPhysical (str_encode cs))
  partition-IsPhysical _ = tt

  pub auto_id_key-IsPhysical :
      (o : Option (Option ℕ)) → KeyIsPhysical (auto_id_key crc32 fresh update digest o)
  auto_id_key-IsPhysical none = tt
  auto_id_key-IsPhysical (some none) = tt
  auto_id_key-IsPhysical (some (some n)) = inr (inl (n % 256, omega arith, refl))

  pub auto_id-IsPhysical :
      (v : Value) → KeyIsPhysical (flow_auto_id_routing_key crc32 fresh update digest v)
  unfolding flow_auto_id_routing_key
  auto_id-IsPhysical v = auto_id_key-IsPhysical (routing_crc32 crc32 fresh update digest v)

  pub single-ArePhysical :
      (o : Option (Option Value)) → KeyIsPhysical o → KeysArePhysical (single o)
  single-ArePhysical none h = tt
  single-ArePhysical (some none) h = tt
  single-ArePhysical (some (some key)) h = (h, tt)

  pub if-Key :
      (b : Bool) (o o' : Option (Option Value))
      → KeyIsPhysical o
      → KeyIsPhysical o'
      → KeyIsPhysical (if b then o else o')
  if-Key true o o' h k = h
  if-Key false o o' h k = k

  pub if-Keys :
      (b : Bool) (o o' : Option (List Value))
      → KeysArePhysical o
      → KeysArePhysical o'
      → KeysArePhysical (if b then o else o')
  if-Keys true o o' h k = h
  if-Keys false o o' h k = k

  pub if-Option :
      (b : Bool) (o o' : Option (Option (List Value)))
      → OptionArePhysical o
      → OptionArePhysical o'
      → OptionArePhysical (if b then o else o')
  if-Option true o o' h k = h
  if-Option false o o' h k = k

  pub join_keys-ArePhysical :
      (o : Option (Option Value)) (o' : Option (Option (List Value)))
      → KeyIsPhysical o
      → OptionArePhysical o'
      → OptionArePhysical (join_keys o o')
  join_keys-ArePhysical none o' h k = tt
  join_keys-ArePhysical (some key) none h k = tt
  join_keys-ArePhysical (some none) (some rest) h k = tt
  join_keys-ArePhysical (some (some key)) (some none) h k = tt
  join_keys-ArePhysical (some (some key)) (some (some keys)) h k = (h, k)

  pub mapped-ArePhysical :
      (f : Value → Option (Option Value)) (vs : List Value)
      → ((v : Value) → KeyIsPhysical (f v))
      → OptionArePhysical (mapped f vs)
  mapped-ArePhysical f [] h = tt
  mapped-ArePhysical f (v ∷ vs) h =
      join_keys-ArePhysical (f v) (mapped f vs) (h v) (mapped-ArePhysical f vs h)

  pub or_none-ArePhysical :
      (o : Option (Option (List Value))) → OptionArePhysical o → KeysArePhysical (or_none o)
  or_none-ArePhysical none h = tt
  or_none-ArePhysical (some none) h = tt
  or_none-ArePhysical (some (some keys)) h = h

  pub or_else-ArePhysical :
      (o : Option (Option (List Value))) (rest : Option (List Value))
      → OptionArePhysical o
      → KeysArePhysical rest
      → KeysArePhysical (or_else o rest)
  or_else-ArePhysical none rest h k = tt
  or_else-ArePhysical (some none) rest h k = k
  or_else-ArePhysical (some (some keys)) rest h k = h

  pub named-ArePhysical :
      (o : Option (List Value)) → KeysArePhysical o → OptionArePhysical (named o)
  named-ArePhysical none h = tt
  named-ArePhysical (some keys) h = h
