-- ===== src/Topology/Command.antt =====
-- `route_for_command` of `topology_core.py`: the route of one command. `slot_for_key`, `command_name`
-- and `control_opcodes` are arguments, as they are in the source; so are those of `command_route_keys`.
pub mod Payload
pub mod Calls
use Prim.Native.String.{String}
use text.Mathlib.Text as Text
use text.Mathlib.Text.{starts_with}
use ferricstore_python.Base.{ℕ, Bool, true, ◌||◌, Option, none, some, List, [], ◌∷◌, if◌then◌else◌}
use ferricstore_python.Base.Assoc.{nat_eq}
use ferricstore_python.Codec.Value.{ℤ, Value, list, dict, Items, nil, cons, Fields}
use ferricstore_python.Commands.Keys.{string_eq, member, keys_of}
use ferricstore_python.Commands.Retry.{codes, mapping_value}
use ferricstore_python.Topology.Route.{Decision, control, cross_shard, is_key, route_for_keys}

abbrev pub items_of : List Value → Items
items_of [] = nil
items_of (v ∷ vs) = cons v (items_of vs)

-- `[pair[0] for pair in pairs if isinstance(pair, list) and pair]`
abbrev pub first_of_pairs : Items → Items
first_of_pairs nil = nil
first_of_pairs (cons (list (cons k rest)) ps) = cons k (first_of_pairs ps)
first_of_pairs (cons _ ps) = first_of_pairs ps

abbrev pub routing_fields : List String
routing_fields =
    "key" ∷ "partition_key" ∷ "id" ∷ "owner_flow_id" ∷ "parent_flow_id" ∷ "root_flow_id"
    ∷ "correlation_id" ∷ "scope" ∷ []

-- The first field of the payload that is a key.
unfoldable pub field_key : List String → Fields → Option Value
unfolding mapping_value
field_key [] fs = none
field_key (name ∷ names) fs =
    if is_key (mapping_value fs (codes name))
    then some (mapping_value fs (codes name))
    else field_key names fs

-- A Flow command that would cross shards takes the control route.
abbrev pub flow_decision : Bool → Decision → Decision
flow_decision true (cross_shard a b) = control
flow_decision _ d = d

module _ (slot_for_key : Value → ℕ) where
  abbrev pub pairs_route : Value → Decision
  pairs_route (list pairs) = route_for_keys slot_for_key (first_of_pairs pairs)
  pairs_route _ = control

  abbrev pub keys_route : Value → Value → Decision
  keys_route (list keys) pairs = route_for_keys slot_for_key keys
  keys_route _ pairs = pairs_route pairs

  -- The fields of the payload, in the order in which they are tried.
  unfoldable pub payload_route : Value → Decision
  unfolding field_key mapping_value
  payload_route (dict fs) = elim (field_key routing_fields fs) [
    | some key ↦ route_for_keys slot_for_key (cons key nil)
    | none ↦ keys_route (mapping_value fs (codes "keys")) (mapping_value fs (codes "pairs"))
  ]
  payload_route _ = control

  -- The route by the keys that `command_route_keys` finds, if it finds any.
  unfoldable pub found_route : Bool → List Value → Value → Decision
  unfolding payload_route route_for_keys
  found_route flow [] payload = if flow then control else payload_route payload
  found_route flow (k ∷ ks) payload =
      flow_decision flow (route_for_keys slot_for_key (items_of (k ∷ ks)))

  module _ (as_text : Value → String) (upper : String → String) (to_int : Value → Option ℤ)
      (flow_keys : String → List Value → List Value) (stream_keys : Bool → List Value → List Value)
      (command_name : Value → String) (control_opcodes : List ℕ) where
    unfoldable pub named_route : String → List Value → Value → Decision
    unfolding found_route keys_of
    named_route name args payload =
        found_route (starts_with name "FLOW.")
          (keys_of as_text upper to_int flow_keys stream_keys (upper name) args) payload

    -- COMMAND_EXEC carries the name and the arguments of another command.
    unfoldable pub exec_route : String → List Value → Value → Decision
    unfolding named_route
    exec_route name [] payload = named_route name [] payload
    exec_route name (a ∷ args) payload =
        if Text.◌==◌ name "COMMAND_EXEC"
        then named_route (command_name a) args payload
        else named_route name (a ∷ args) payload

    unfoldable pub route_for_command : List Value → ℕ → Value → Decision
    unfolding exec_route member
    route_for_command [] opcode payload = control
    route_for_command (a ∷ args) opcode payload =
        if member opcode control_opcodes
          || member (command_name a) ("CLUSTER.KEYSLOT" ∷ "SHARDS" ∷ "ROUTE" ∷ [])
        then control
        else exec_route (command_name a) args payload
