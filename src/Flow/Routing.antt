-- ===== src/Flow/Routing.antt =====
-- `flow_routing.py`: the physical routing keys of a Flow command. The hashes are those of Flow.Hashing;
-- `query_options` gives the routing key that the options object of FLOW.QUERY holds, for such an object.
-- `none` is a UnicodeEncodeError; a missing key or list of keys is an inner `none`.
use Prim.Native.String.{String}
use package.text.Mathlib.Text as Text
use ferricstore_python.Base.{
  ℕ, zero, suc, ◌+◌, ◌-◌, Bool, true, false, ◌&&◌, ◌||◌, Option, none, some, List, [], ◌∷◌, length,
  take, drop, map, ltb, if◌then◌else◌,
}
use ferricstore_python.Codec.Value.{ℤ, Value, text, binary}
use ferricstore_python.Commands.Keys.{string_eq, member}
use ferricstore_python.Flow.Options.{
  is, one_of, items_tokens, token, non_negative_int, option_width, byte_upper, find_bytes_token,
}
use ferricstore_python.Flow.Arguments.{split_flow_value_mget}
use ferricstore_python.Flow.Commands.{
  flow_global_commands, flow_positional_partition_commands, flow_state_id_commands,
  flow_schedule_commands, flow_approval_id_commands, flow_governance_scope_commands,
  flow_option_starts, flow_claim_commands,
}
use ferricstore_python.Flow.Hashing.{
  global_route_key, flow_logical_partition_routing_key, flow_auto_id_routing_key,
}

-- `_FLOW_GLOBAL_DEFAULT_PARTITION_COMMANDS`
abbrev pub flow_global_default_partition_commands : List String
flow_global_default_partition_commands = []

-- `_FLOW_ROUTE_SELECTORS`
abbrev pub flow_route_selectors : List String
flow_route_selectors = "AUTO" ∷ "ANY" ∷ "GLOBAL" ∷ "MIXED" ∷ "NONE" ∷ []

-- `_FLOW_ROUTE_SELECTOR_MAX_BYTES`, the length of GLOBAL.
abbrev pub flow_route_selector_max_bytes : ℕ
flow_route_selector_max_bytes = 6

-- `_FLOW_OPTION_STARTS.get`
unfoldable pub option_start : String → List (String × ℕ) → Option ℕ
option_start name [] = none
option_start name ((command, start) ∷ rest) =
    if Text.◌==◌ command name then some start else option_start name rest

abbrev pub is_key_value : Value → Bool
is_key_value (text cs) = true
is_key_value (binary bs) = true
is_key_value _ = false

abbrev pub all_key_values : List Value → Bool
all_key_values [] = true
all_key_values (v ∷ vs) = is_key_value v && all_key_values vs

-- A key that may be missing, as the keys of a command.
abbrev pub single : Option (Option Value) → Option (List Value)
single none = none
single (some none) = some []
single (some (some key)) = some (key ∷ [])

-- The keys of several partitions: none where there is none, or where one is missing.
abbrev pub join_keys :
    Option (Option Value) → Option (Option (List Value)) → Option (Option (List Value))
join_keys none rest = none
join_keys (some key) none = none
join_keys (some none) (some rest) = some none
join_keys (some (some key)) (some none) = some none
join_keys (some (some key)) (some (some keys)) = some (some (key ∷ keys))

abbrev pub mapped : (Value → Option (Option Value)) → List Value → Option (Option (List Value))
mapped mapper [] = some (some [])
mapped mapper (v ∷ vs) = join_keys (mapper v) (mapped mapper vs)

abbrev pub or_none : Option (Option (List Value)) → Option (List Value)
or_none none = none
or_none (some none) = some []
or_none (some (some keys)) = some keys

-- The keys that the options name, where they name any.
abbrev pub or_else : Option (Option (List Value)) → Option (List Value) → Option (List Value)
or_else none rest = none
or_else (some none) rest = rest
or_else (some (some keys)) rest = some keys

abbrev pub named : Option (List Value) → Option (Option (List Value))
named none = none
named (some keys) = some (some keys)

module _ (as_text : Value → String) (upper : String → String) (to_int : Value → Option ℤ) where
  -- `_route_selector_token`
  unfoldable pub route_selector_token : Value → Option String
  unfolding byte_upper find_bytes_token member
  route_selector_token (binary bs) =
      if ltb flow_route_selector_max_bytes (length bs)
      then none
      else find_bytes_token (map byte_upper bs) flow_route_selectors
  route_selector_token (text cs) =
      if ltb flow_route_selector_max_bytes (length cs)
      then none
      else if member (upper (as_text (text cs))) flow_route_selectors
      then some (upper (as_text (text cs)))
      else none
  route_selector_token _ = none

  -- The loop of `_option_value`, with how many arguments the index has still to pass.
  unfoldable pub find_option : String → ℕ → List Value → Option Value
  unfolding option_width token
  find_option wanted skip [] = none
  find_option wanted (suc skip) (v ∷ vs) = find_option wanted skip vs
  find_option wanted zero (v ∷ vs) =
      if is (token as_text upper to_int v) wanted
      then elim vs [ [] ↦ none | value ∷ rest ↦ some value ]
      else elim (option_width as_text upper to_int (token as_text upper to_int v) vs) [
        | none ↦ none
        | some width ↦ elim (ltb (suc (length vs)) width) [
          | true ↦ none
          | false ↦ find_option wanted (width - 1) vs
        ]
      ]

  unfoldable pub option_value : List Value → ℕ → String → Option Value
  unfolding find_option
  option_value args start wanted = find_option wanted start args

  -- `_value_mget_route_keys`
  unfoldable pub value_mget_route_keys : List Value → List Value
  unfolding split_flow_value_mget
  value_mget_route_keys args =
      let (refs, max_bytes) = split_flow_value_mget as_text upper to_int args in
      if all_key_values refs then refs else []

  module _ {H : Type 0} (crc32 : List ℕ → ℕ → ℕ) (fresh : H) (update : H → List ℕ → H)
      (digest : H → List ℕ) where
    abbrev pub partition_routing_key : Value → Option (Option Value)
    partition_routing_key value = flow_logical_partition_routing_key crc32 fresh update digest value

    -- `_claim_partition_routing_key`
    unfoldable pub claim_partition_routing_key : Value → Option (Option Value)
    unfolding route_selector_token flow_logical_partition_routing_key
    claim_partition_routing_key value =
        if is (route_selector_token value) "AUTO" || is (route_selector_token value) "ANY"
        then some none
        else if is (route_selector_token value) "GLOBAL"
        then some (some global_route_key)
        else partition_routing_key value

    abbrev pub mapper : Bool → Value → Option (Option Value)
    mapper claim value =
        if claim then claim_partition_routing_key value else partition_routing_key value

    -- `_single_logical_partition_key`
    abbrev pub single_logical_partition_key : Value → Option (List Value)
    single_logical_partition_key value = single (partition_routing_key value)

    abbrev pub partition_keys : Bool → Option ℕ → List Value → Option (List Value)
    partition_keys claim none vs = some []
    partition_keys claim (some count) vs =
        if ltb (length vs) (1 + count)
        then some []
        else or_none (mapped (mapper claim) (take count (drop 1 vs)))

    -- The loop of `_partition_option_route_keys`.
    unfoldable pub find_partition : Bool → ℕ → List Value → Option (Option (List Value))
    unfolding claim_partition_routing_key option_width token non_negative_int member
    find_partition claim skip [] = some none
    find_partition claim (suc skip) (v ∷ vs) = find_partition claim skip vs
    find_partition claim zero (v ∷ vs) =
        if is (token as_text upper to_int v) "PARTITION"
        then named (elim vs [ [] ↦ some [] | value ∷ rest ↦ single (mapper claim value) ])
        else if is (token as_text upper to_int v) "PARTITIONS"
        then named (partition_keys claim (non_negative_int as_text upper to_int vs) vs)
        else if one_of (token as_text upper to_int v) items_tokens
        then some none
        else elim (option_width as_text upper to_int (token as_text upper to_int v) vs) [
          | none ↦ some (some [])
          | some width ↦ elim (ltb (suc (length vs)) width) [
            | true ↦ some (some [])
            | false ↦ find_partition claim (width - 1) vs
          ]
        ]

    unfoldable pub partition_option_route_keys :
        List Value → ℕ → Bool → Option (Option (List Value))
    unfolding find_partition
    partition_option_route_keys args start claim = find_partition claim start args

    abbrev pub owner_key : Option Value → Option Value → Option (List Value)
    owner_key (some owner) (some name) =
        if is_key_value owner && is_key_value name
        then single (flow_auto_id_routing_key crc32 fresh update digest owner)
        else some (global_route_key ∷ [])
    owner_key _ _ = some (global_route_key ∷ [])

    -- The branch of `flow_command_route_keys` behind the options.
    abbrev pub default_route_keys : String → Value → List Value → Option (List Value)
    default_route_keys name first values =
        if Text.◌==◌ name "FLOW.VALUE.PUT"
        then or_else (partition_option_route_keys values 1 false)
            (owner_key (option_value values 1 "OWNER_FLOW_ID") (option_value values 1 "NAME"))
        else if member name flow_state_id_commands
        then single (flow_auto_id_routing_key crc32 fresh update digest first)
        else some []

    abbrev pub option_route_keys : String → Option ℕ → Value → List Value → Option (List Value)
    option_route_keys name none first values = default_route_keys name first values
    option_route_keys name (some start) first values =
        or_else (partition_option_route_keys values start (member name flow_claim_commands)) (
          if member name flow_global_default_partition_commands
          then some (global_route_key ∷ [])
          else default_route_keys name first values)

    module _ (query_options : Value → Option (Option Value)) where
      -- `flow_query_command_routing_key`, which looks at the last argument.
      abbrev pub query_routing_key : List Value → Option Value
      query_routing_key [] = none
      query_routing_key (v ∷ []) = elim (query_options v) [ none ↦ none | some key ↦ key ]
      query_routing_key (v ∷ x ∷ rest) = query_routing_key (x ∷ rest)

      unfoldable pub flow_command_route_keys : String → List Value → Option (List Value)
      unfolding member option_start value_mget_route_keys route_selector_token
          partition_option_route_keys option_value
      flow_command_route_keys name [] = some []
      flow_command_route_keys name (first ∷ rest) =
          if member name flow_schedule_commands
          then some []
          else if member name flow_global_commands
          then some (global_route_key ∷ [])
          else if Text.◌==◌ name "FLOW.QUERY"
          then single (some (query_routing_key (first ∷ rest)))
          else if Text.◌==◌ name "FLOW.VALUE.MGET"
          then some (value_mget_route_keys (first ∷ rest))
          else if member name flow_approval_id_commands
          then single_logical_partition_key first
          else if member name flow_governance_scope_commands
          then single_logical_partition_key first
          else if member name flow_positional_partition_commands
          then if one_of (route_selector_token first) ("AUTO" ∷ "MIXED" ∷ "NONE" ∷ [])
            then some []
            else single_logical_partition_key first
          else option_route_keys name (option_start name flow_option_starts) first (first ∷ rest)
