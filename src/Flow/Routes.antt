-- ===== src/Flow/Routes.antt =====
-- `flow_command_route_keys` of `flow_routing.py`: which keys its branches return.
use Prim.Native.String.{String}
use package.text.Mathlib.Text as Text
use ferricstore_python.Base.{
  ℕ, zero, suc, ◌+◌, ◌-◌, ◌≡◌, refl, Bool, true, false, ◌&&◌, ◌||◌, Option, none, some, List, [],
  ◌∷◌, length, take, drop, ltb, inl,
}
use ferricstore_python.Codec.Value.{ℤ, Value}
use ferricstore_python.Commands.Keys.{string_eq, member}
use ferricstore_python.Flow.Options.{
  is, one_of, items_tokens, token, non_negative_int, option_width,
}
use ferricstore_python.Flow.Commands.{
  flow_global_commands, flow_positional_partition_commands, flow_state_id_commands,
  flow_schedule_commands, flow_approval_id_commands, flow_governance_scope_commands,
  flow_option_starts, flow_claim_commands,
}
use ferricstore_python.Flow.Routing.{
  flow_global_default_partition_commands, option_start, is_key_value, single, route_selector_token,
  option_value, claim_partition_routing_key, mapper, partition_keys, find_partition,
  partition_option_route_keys, owner_key, default_route_keys, option_route_keys,
  flow_command_route_keys, partition_routing_key,
}
use ferricstore_python.Flow.Physical.{
  KeyIsPhysical, KeysArePhysical, OptionArePhysical, partition-IsPhysical, auto_id-IsPhysical,
  single-ArePhysical, if-Key, if-Keys, if-Option, mapped-ArePhysical, or_none-ArePhysical,
  or_else-ArePhysical, named-ArePhysical,
}

module _ (as_text : Value → String) (upper : String → String) (to_int : Value → Option ℤ)
    {H : Type 0} (crc32 : List ℕ → ℕ → ℕ) (fresh : H) (update : H → List ℕ → H)
    (digest : H → List ℕ) where
  abbrev KeyGood : Option (Option Value) → Type 0
  KeyGood o = KeyIsPhysical crc32 fresh update digest o

  abbrev KeysGood : Option (List Value) → Type 0
  KeysGood o = KeysArePhysical crc32 fresh update digest o

  abbrev OptionGood : Option (Option (List Value)) → Type 0
  OptionGood o = OptionArePhysical crc32 fresh update digest o

  claim-IsPhysical :
      (v : Value)
      → KeyGood (claim_partition_routing_key as_text upper to_int crc32 fresh update digest v)
  unfolding claim_partition_routing_key
  claim-IsPhysical v =
      if-Key crc32 fresh update digest
        (is (route_selector_token as_text upper to_int v) "AUTO"
          || is (route_selector_token as_text upper to_int v) "ANY")
        _ _ tt
        (if-Key crc32 fresh update digest
          (is (route_selector_token as_text upper to_int v) "GLOBAL") _ _ (inl refl)
          (partition-IsPhysical crc32 fresh update digest v))

  mapper-IsPhysical :
      (claim : Bool) (v : Value)
      → KeyGood (mapper as_text upper to_int crc32 fresh update digest claim v)
  mapper-IsPhysical true v = claim-IsPhysical v
  mapper-IsPhysical false v = partition-IsPhysical crc32 fresh update digest v

  partition_keys-ArePhysical :
      (claim : Bool) (o : Option ℕ) (vs : List Value)
      → KeysGood (partition_keys as_text upper to_int crc32 fresh update digest claim o vs)
  partition_keys-ArePhysical claim none vs = tt
  partition_keys-ArePhysical claim (some count) vs =
      if-Keys crc32 fresh update digest (ltb (length vs) (1 + count)) _ _ tt (
        or_none-ArePhysical crc32 fresh update digest _ (
          mapped-ArePhysical crc32 fresh update digest
            (mapper as_text upper to_int crc32 fresh update digest claim) (take count (drop 1 vs))
            (mapper-IsPhysical claim)))

  value-ArePhysical :
      (claim : Bool) (vs : List Value)
      → KeysGood (elim vs [
        | [] ↦ some []
        | value ∷ rest ↦ single (mapper as_text upper to_int crc32 fresh update digest claim value)
      ])
  value-ArePhysical claim [] = tt
  value-ArePhysical claim (value ∷ rest) =
      single-ArePhysical crc32 fresh update digest _ (mapper-IsPhysical claim value)

  width-ArePhysical :
      (o : Option ℕ) (n : ℕ) (next : ℕ → Option (Option (List Value)))
      → ((k : ℕ) → OptionGood (next k))
      → OptionGood (elim o [
        | none ↦ some (some [])
        | some width ↦ elim (ltb n width) [ true ↦ some (some []) | false ↦ next (width - 1) ]
      ])
  width-ArePhysical none n next h = tt
  width-ArePhysical (some width) n next h = go (ltb n width)
    where
      go : (b : Bool) → OptionGood (elim b [ true ↦ some (some []) | false ↦ next (width - 1) ])
      go true = tt
      go false = h (width - 1)

  find_partition-ArePhysical :
      (claim : Bool) (skip : ℕ) (vs : List Value)
      → OptionGood (find_partition as_text upper to_int crc32 fresh update digest claim skip vs)
  unfolding find_partition
  find_partition-ArePhysical claim skip [] = tt
  find_partition-ArePhysical claim (suc skip) (v ∷ vs) = find_partition-ArePhysical claim skip vs
  find_partition-ArePhysical claim zero (v ∷ vs) =
      let t = token as_text upper to_int v in
      if-Option crc32 fresh update digest (is t "PARTITION") _ _
        (named-ArePhysical crc32 fresh update digest _ (value-ArePhysical claim vs))
        (if-Option crc32 fresh update digest (is t "PARTITIONS") _ _
          (named-ArePhysical crc32 fresh update digest _
            (partition_keys-ArePhysical claim (non_negative_int as_text upper to_int vs) vs))
          (if-Option crc32 fresh update digest (one_of t items_tokens) _ _ tt (
            width-ArePhysical (option_width as_text upper to_int t vs) (suc (length vs))
              (λ k. find_partition as_text upper to_int crc32 fresh update digest claim k vs)
              (λ k. find_partition-ArePhysical claim k vs))))

  partition_option-ArePhysical :
      (args : List Value) (start : ℕ) (claim : Bool)
      → OptionGood (
          partition_option_route_keys as_text upper to_int crc32 fresh update digest args start
            claim)
  unfolding partition_option_route_keys
  partition_option-ArePhysical args start claim = find_partition-ArePhysical claim start args

  owner_key-ArePhysical :
      (o o' : Option Value)
      → KeysGood (owner_key as_text upper to_int crc32 fresh update digest o o')
  owner_key-ArePhysical none o' = (inl refl, tt)
  owner_key-ArePhysical (some owner) none = (inl refl, tt)
  owner_key-ArePhysical (some owner) (some name) =
      if-Keys crc32 fresh update digest (is_key_value owner && is_key_value name) _ _
        (single-ArePhysical crc32 fresh update digest _
          (auto_id-IsPhysical crc32 fresh update digest owner))
        (inl refl, tt)

  default-ArePhysical :
      (name : String) (first : Value) (values : List Value)
      → KeysGood
          (default_route_keys as_text upper to_int crc32 fresh update digest name first values)
  default-ArePhysical name first values =
      if-Keys crc32 fresh update digest (Text.◌==◌ name "FLOW.VALUE.PUT") _ _
        (or_else-ArePhysical crc32 fresh update digest _ _
          (partition_option-ArePhysical values 1 false)
          (owner_key-ArePhysical (option_value as_text upper to_int values 1 "OWNER_FLOW_ID")
            (option_value as_text upper to_int values 1 "NAME")))
        (if-Keys crc32 fresh update digest (member name flow_state_id_commands) _ _
          (single-ArePhysical crc32 fresh update digest _
            (auto_id-IsPhysical crc32 fresh update digest first))
          tt)

  option-ArePhysical :
      (name : String) (o : Option ℕ) (first : Value) (values : List Value)
      → KeysGood
          (option_route_keys as_text upper to_int crc32 fresh update digest name o first values)
  option-ArePhysical name none first values = default-ArePhysical name first values
  option-ArePhysical name (some start) first values =
      or_else-ArePhysical crc32 fresh update digest _ _
        (partition_option-ArePhysical values start (member name flow_claim_commands))
        (if-Keys crc32 fresh update digest (member name flow_global_default_partition_commands) _ _
          (inl refl, tt) (default-ArePhysical name first values))

  module _ (query_options : Value → Option (Option Value)) where
    -- A Flow command other than FLOW.QUERY and FLOW.VALUE.MGET is routed by physical keys only: the global
    -- one, that of one of the 256 buckets, or that of a partition's digest; never by an argument itself.
    pub flow_command_route_keys-ArePhysical :
        (name : String) (args : List Value)
        → Text.◌==◌ name "FLOW.QUERY" ≡ false
        → Text.◌==◌ name "FLOW.VALUE.MGET" ≡ false
        → KeysArePhysical crc32 fresh update digest (
            flow_command_route_keys as_text upper to_int crc32 fresh update digest query_options
              name args)
    unfolding flow_command_route_keys
    flow_command_route_keys-ArePhysical name [] q m = tt
    flow_command_route_keys-ArePhysical name (first ∷ rest) q m =
        rw (q, m)
          (if-Keys crc32 fresh update digest (member name flow_schedule_commands) _ _ tt (
            if-Keys crc32 fresh update digest (member name flow_global_commands) _ _ (inl refl, tt)
              (if-Keys crc32 fresh update digest (member name flow_approval_id_commands) _ _ one (
                if-Keys crc32 fresh update digest (member name flow_governance_scope_commands) _ _
                  one
                  (if-Keys crc32 fresh update digest
                    (member name flow_positional_partition_commands) _ _
                    (if-Keys crc32 fresh update digest
                      (one_of (route_selector_token as_text upper to_int first)
                        ("AUTO" ∷ "MIXED" ∷ "NONE" ∷ []))
                      _ _ tt one)
                    (option-ArePhysical name (option_start name flow_option_starts) first
                      (first ∷ rest)))))))
      where
        one :
            KeysGood
              (single (partition_routing_key as_text upper to_int crc32 fresh update digest first))
        one =
            single-ArePhysical crc32 fresh update digest _
              (partition-IsPhysical crc32 fresh update digest first)
