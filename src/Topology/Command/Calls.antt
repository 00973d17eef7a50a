-- ===== src/Topology/Command/Calls.antt =====
-- `route_for_command` of `topology_core.py`: the routes of the calls that name their keys, and of Flow commands.
use Prim.Native.String.{String}
use text.Mathlib.Text as Text
use text.Mathlib.Text.{starts_with}
use text.Mathlib.TextEquality.{eq_iff}
use ferricstore_python.Base.{
  ℕ, ◌≡◌, refl, sym, ap, ◌∙◌, Bool, true, false, ◌||◌, Option, List, [], ◌∷◌, if◌then◌else◌,
  if_false,
}
use ferricstore_python.Base.Assoc.{nat_eq}
use ferricstore_python.Codec.Value.{ℤ, Value}
use ferricstore_python.Commands.Keys.{string_eq, member, keys_of}
use ferricstore_python.Topology.Route.{Decision, control, single_shard, cross_shard, route_for_keys}
use ferricstore_python.Topology.Command.{
  items_of, flow_decision, found_route, named_route, exec_route, route_for_command,
}

module _ (as_text : Value → String) (upper : String → String) (to_int : Value → Option ℤ) where
  module _ (slot_for_key : Value → ℕ) (flow_keys : String → List Value → List Value)
      (stream_keys : Bool → List Value → List Value) (command_name : Value → String)
      (control_opcodes : List ℕ) where
    abbrev pub route : List Value → ℕ → Value → Decision
    route =
        route_for_command slot_for_key as_text upper to_int flow_keys stream_keys command_name
          control_opcodes

    named : String → List Value → Value → Decision
    named =
        named_route slot_for_key as_text upper to_int flow_keys stream_keys command_name
          control_opcodes

    exec-other :
        (n : String) (args : List Value) (payload : Value)
        → Text.◌==◌ n "COMMAND_EXEC" ≡ false
        → exec_route slot_for_key as_text upper to_int flow_keys stream_keys command_name
            control_opcodes n args payload
          ≡ named n args payload
    unfolding exec_route named
    exec-other n [] payload h = refl
    exec-other n (a ∷ args) payload h = if_false _ _ _ h

    flow_decision-whole :
        (d : Decision) → ¬ ((x : ℕ) × (y : ℕ) × (flow_decision true d ≡ cross_shard x y))
    flow_decision-whole control (x, y, h) = absurd cc
    flow_decision-whole (single_shard k s) (x, y, h) = absurd cc
    flow_decision-whole (cross_shard a b) (x, y, h) = absurd cc

    -- The keys that decide the route of a Flow command.
    abbrev pub flow_route : List Value → Decision
    flow_route [] = control
    flow_route (k ∷ ks) = flow_decision true (route_for_keys slot_for_key (items_of (k ∷ ks)))

    flow_route-whole :
        (keys : List Value) → ¬ ((x : ℕ) × (y : ℕ) × (flow_route keys ≡ cross_shard x y))
    flow_route-whole [] (x, y, h) = absurd cc
    flow_route-whole (k ∷ ks) h =
        flow_decision-whole (route_for_keys slot_for_key (items_of (k ∷ ks))) h

    found_route-flow :
        (keys : List Value) (payload : Value)
        → found_route slot_for_key true keys payload ≡ flow_route keys
    unfolding found_route
    found_route-flow [] payload = refl
    found_route-flow (k ∷ ks) payload = refl

    flow_name : (n : String) → starts_with n "FLOW." ≡ true → Text.◌==◌ n "COMMAND_EXEC" ≡ false
    flow_name n h = go (Text.◌==◌ n "COMMAND_EXEC") refl
      where
        go : (b : Bool) → Text.◌==◌ n "COMMAND_EXEC" ≡ b → b ≡ false
        go false e = refl
        go true e =
            let plain : false ≡ true =
              sym (ap (λ m. starts_with m "FLOW.") ((eq_iff n "COMMAND_EXEC").0 e)) ∙ h in
            absurd cc

    guarded-whole :
        (b : Bool) (keys : List Value)
        → ¬ ((x : ℕ) × (y : ℕ) × ((if b then control else flow_route keys) ≡ cross_shard x y))
    guarded-whole true keys (x, y, h) = absurd cc
    guarded-whole false keys h = flow_route-whole keys h

    -- A Flow command is never refused for crossing shards, and no payload changes its route.
    pub route_for_command-flow :
        (name : Value) (args : List Value) (opcode : ℕ) (payload second : Value)
        → starts_with (command_name name) "FLOW." ≡ true
        → ¬ ((x : ℕ) × (y : ℕ) × (route (name ∷ args) opcode payload ≡ cross_shard x y))
          × (route (name ∷ args) opcode payload ≡ route (name ∷ args) opcode second)
    unfolding route_for_command named named_route
    route_for_command-flow name args opcode payload second h = (
      λ c. guarded-whole guard keys (c.0, c.1, sym (by_keys payload) ∙ c.2),
      by_keys payload ∙ sym (by_keys second),
    )
      where
        guard : Bool
        guard =
            member opcode control_opcodes
            || member (command_name name) ("CLUSTER.KEYSLOT" ∷ "SHARDS" ∷ "ROUTE" ∷ [])

        keys : List Value
        keys = keys_of as_text upper to_int flow_keys stream_keys (upper (command_name name)) args

        by_keys :
            (p : Value)
            → route (name ∷ args) opcode p ≡ (if guard then control else flow_route keys)
        by_keys p =
            ap (λ d. if guard then control else d)
              (exec-other (command_name name) args p (flow_name (command_name name) h)
                ∙ ap (λ b. found_route slot_for_key b keys p) h
                ∙ found_route-flow keys p)
