-- ===== src/Topology/Command/Payload.antt =====
-- `route_for_command` of `topology_core.py`: the keys that it finds in a payload.
use Prim.Native.String.{String}
use ferricstore_python.Base.{
  ℕ, ◌≡◌, refl, Bool, true, false, Option, none, some, List, [], ◌∷◌, if◌then◌else◌,
}
use ferricstore_python.Codec.Value.{Value, list, dict, Items, nil, cons, Fields}
use ferricstore_python.Commands.Retry.{codes, mapping_value}
use ferricstore_python.Topology.Route.{is_key, textual, first, scan, route_for_keys}
use ferricstore_python.Topology.Command.{
  items_of, first_of_pairs, routing_fields, field_key, keys_route, payload_route,
}

abbrev pub values_at : Fields → List String → Items
values_at fs [] = nil
values_at fs (name ∷ names) = cons (mapping_value fs (codes name)) (values_at fs names)

-- The list `keys`, and else the first elements of the lists in the list `pairs`.
abbrev pub listed_keys : Value → Value → Items
listed_keys (list keys) pairs = keys
listed_keys _ (list pairs) = first_of_pairs pairs
listed_keys _ _ = nil

abbrev pub one_or : Option Value → Items → Items
one_or none keys = keys
one_or (some k) keys = cons k nil

-- The first of eight fields that is a text or bytes, and else the listed keys.
abbrev pub payload_keys : Value → Items
payload_keys (dict fs) =
    one_or
      (first (
        textual (
          values_at fs (
            "key" ∷ "partition_key" ∷ "id" ∷ "owner_flow_id" ∷ "parent_flow_id" ∷ "root_flow_id"
            ∷ "correlation_id" ∷ "scope" ∷ []))))
      (listed_keys (mapping_value fs (codes "keys")) (mapping_value fs (codes "pairs")))
payload_keys _ = nil

-- The keys of the command, and those of the payload where it names none.
abbrev pub routing_keys : List Value → Value → Items
routing_keys [] payload = payload_keys payload
routing_keys (k ∷ ks) payload = items_of (k ∷ ks)

field_key-first :
    (names : List String) (fs : Fields) → field_key names fs ≡ first (textual (values_at fs names))
unfolding field_key
field_key-first [] fs = refl
field_key-first (name ∷ names) fs =
    go (is_key (mapping_value fs (codes name))) (field_key-first names fs)
  where
    v : Value
    v = mapping_value fs (codes name)

    go :
        (b : Bool)
        → field_key names fs ≡ first (textual (values_at fs names))
        → (if b then some v else field_key names fs)
          ≡ first (if b then v ∷ textual (values_at fs names) else textual (values_at fs names))
    go true e = refl
    go false e = e

module _ (slot_for_key : Value → ℕ) where
  listed-route :
      (keys pairs : Value)
      → keys_route slot_for_key keys pairs ≡ route_for_keys slot_for_key (listed_keys keys pairs)
  unfolding route_for_keys scan
  listed-route (list keys) pairs = refl
  listed-route _ (list pairs) = refl
  listed-route _ _ = refl

  pub payload_route-payload_keys :
      (payload : Value)
      → payload_route slot_for_key payload ≡ route_for_keys slot_for_key (payload_keys payload)
  unfolding payload_route route_for_keys scan
  payload_route-payload_keys (dict fs) =
      rw (field_key-first routing_fields fs, payload_route)
        (go (first (textual (values_at fs routing_fields))))
    where
      keys : Value
      keys = mapping_value fs (codes "keys")

      go :
          (o : Option Value)
          → (elim o [
            | some key ↦ route_for_keys slot_for_key (cons key nil)
            | none ↦ keys_route slot_for_key keys (mapping_value fs (codes "pairs"))
          ])
            ≡ route_for_keys slot_for_key
                (one_or o (listed_keys keys (mapping_value fs (codes "pairs"))))
      go none = listed-route keys (mapping_value fs (codes "pairs"))
      go (some k) = refl
  payload_route-payload_keys _ = refl
