-- ===== src/Topology/Tests.antt =====
-- The topology's theorems on a batch over two targets, on keys, and on three addresses.
use ferricstore_python.Base.{
  Bool, refl, not, inl, arith, ◌≤◌, ℕ, ◌+◌, ◌%◌, ◌≡◌, ◌↔◌, Option, none, List, [], ◌∷◌, ◌++◌,
}
use ferricstore_python.Base.Assoc.{nat_eq}
use ferricstore_python.Codec.Value.{ℤ, integer, Value, Items, cons, nil, text, binary, null}
use ferricstore_python.Topology.Batch.{build, merge}
use ferricstore_python.Topology.Batch.Order.{answers, results, merge-build}
use ferricstore_python.Topology.Route.{
  Decision, cross_shard, routable, raised, cross_slot, validate_single_slot, textual, first,
  OneSlot, validate_single_slot-exact,
}
use Prim.Native.String.{String}
use ferricstore_python.Commands.Keys.{string_eq}
use ferricstore_python.Commands.Calls.{Call, all_keys}
use ferricstore_python.Topology.Command.Calls.{route, route_for_command-flow}
use ferricstore_python.Topology.Wake.{
  Store, Argument, listed, plain, Registry, copy_value, copy_kwargs, contents, same, remember,
  snapshot,
}
use ferricstore_python.Topology.Wake.Copies.{AllBelow}
use ferricstore_python.Topology.Wake.Kept.{behind, rewritten, describe_all, remember-snapshot}
use ferricstore_python.Topology.Endpoints.{
  Selector, mark_success, candidates, contains, IsNodup, candidates-mark_success,
}

abbrev routed : List (ℕ × ℕ)
routed = (7, 10) ∷ (8, 11) ∷ (7, 12) ∷ (7, 13) ∷ (8, 14) ∷ []

abbrev double : ℕ → ℕ
double c = c + c

merge-build_example :
    merge (build routed) (answers double (build routed).groups) ≡ (none, results double routed)
merge-build_example = merge-build double routed

-- The slot of a key is its first character or byte, modulo 4.
abbrev slot_of : Value → ℕ
slot_of (text (c ∷ cs)) = c % 4
slot_of (binary (b ∷ bs)) = b % 4
slot_of _ = 0

abbrev keys : Items
keys = cons (text (5 ∷ [])) (cons null (cons (binary (9 ∷ [])) nil))

validate_single_slot-exact_example :
    ((o : Option Value)
      → (validate_single_slot slot_of keys ≡ routable o)
        ↔ (OneSlot slot_of (textual keys) × (first (textual keys) ≡ o)))
    × ((validate_single_slot slot_of keys ≡ raised cross_slot) ↔ ¬ OneSlot slot_of (textual keys))
validate_single_slot-exact_example = validate_single_slot-exact slot_of keys

abbrev seeds : Selector ℕ
seeds = record { seed_urls = 1 ∷ 2 ∷ []; last_good_url = none }

candidates-mark_success_example :
    ((rest : List ℕ) × (candidates (mark_success 2 seeds) (3 ∷ 1 ∷ []) ≡ 2 ∷ rest))
    × IsNodup (candidates (mark_success 2 seeds) (3 ∷ 1 ∷ []))
    × ((v : ℕ)
        → contains v (candidates (mark_success 2 seeds) (3 ∷ 1 ∷ []))
          ≡ contains v (2 ∷ ((1 ∷ 2 ∷ []) ++ (3 ∷ 1 ∷ []))))
candidates-mark_success_example = candidates-mark_success seeds 2 (3 ∷ 1 ∷ [])

-- `MGET` of two keys, by itself and behind COMMAND_EXEC, which is a number here; any other name is in bytes.
abbrev text_of : Value → String
text_of (integer z) = "COMMAND_EXEC"
text_of (text cs) = "FLOW.GET"
text_of v = "MGET"

abbrev itself : String → String
itself s = s

abbrev no_number : Value → Option ℤ
no_number v = none

abbrev own_keys : String → List Value → List Value
own_keys name args = args

abbrev no_stream : Bool → List Value → List Value
no_stream group args = []

abbrev route_of : List Value → ℕ → Value → Decision
route_of = route text_of itself no_number slot_of own_keys no_stream text_of (1 ∷ 2 ∷ [])

abbrev mget : Call Value
mget = all_keys (text (5 ∷ []) ∷ text (6 ∷ []) ∷ [])

route_for_command-flow_example :
    ¬ (
      (x : ℕ) × (y : ℕ) × (route_of (text [] ∷ text (5 ∷ []) ∷ text (6 ∷ []) ∷ []) 260 null
        ≡ cross_shard x y))
    × (route_of (text [] ∷ text (5 ∷ []) ∷ text (6 ∷ []) ∷ []) 260 null
        ≡ route_of (text [] ∷ text (5 ∷ []) ∷ text (6 ∷ []) ∷ []) 260 (text []))
route_for_command-flow_example =
    route_for_command-flow text_of itself no_number slot_of own_keys no_stream text_of (1 ∷ 2 ∷ [])
      (text []) (text (5 ∷ []) ∷ text (6 ∷ []) ∷ []) 260 null (text []) refl

-- A filter of one list, which its caller changes before it is given again.
abbrev registry : Registry ℕ ℕ ℕ
registry = record { item = none }

abbrev store : Store ℕ
store = record { next = 1; lists = λ b. 5 ∷ [] }

abbrev filter : List (ℕ × Argument ℕ)
filter = (0, listed 0) ∷ (1, plain 8) ∷ []

abbrev changed_store : Store ℕ
changed_store = rewritten ((0, 9 ∷ []) ∷ []) 2 (behind 7 filter registry store)

filter-AllBelow : AllBelow 2 filter
filter-AllBelow = (omega arith, (tt, tt))

grows : (behind 7 filter registry store).next ≤ 2
unfolding remember copy_kwargs copy_value
grows = omega arith

remember-snapshot_example :
    (describe_all changed_store.lists (snapshot (remember 7 filter registry store).1)
      ≡ (7, contents store.lists filter) ∷ [])
    × ((remember 7 filter (remember 7 filter registry store).1 changed_store).0
        ≡ not (
            same {V = ℕ} {K = ℕ} {A = ℕ}
              (7, contents changed_store.lists filter)
              (7, contents store.lists filter)))
remember-snapshot_example =
    remember-snapshot registry store 7 7 filter filter ((0, 9 ∷ []) ∷ []) 2 (omega arith, (tt, tt))
      (inl (omega arith), tt) grows filter-AllBelow
