-- ===== src/Topology/Batch.antt =====
-- `RouteBatchPlan` of `topology_core.py`: commands grouped by target, and results put back in order.
-- Group keys are numbers, as `id(target)` is; a command is any value.
pub mod Order
use ferricstore_python.Base.{
  ℕ, zero, suc, ◌+◌, Bool, true, false, Option, none, some, List, [], ◌∷◌, ◌++◌, length, set,
  replicate, ◌==◌, not, if◌then◌else◌,
}

pub data Error : Type 0 where
  group_cardinality response_cardinality : Error

pub record Group (C : Type 0) : Type 0 where
  pub target : ℕ
  pub indexes : List ℕ
  pub commands : List C

pub record Plan (C : Type 0) : Type 0 where
  pub groups : List (Group C)
  pub command_count : ℕ

module _ {C : Type 0} where
  -- `groups.setdefault(key, RouteBatchGroup(target, [], []))`, and the two appends.
  unfoldable pub join : ℕ → ℕ → C → List (Group C) → List (Group C)
  join key index command [] =
      record { target = key; indexes = index ∷ []; commands = command ∷ [] } ∷ []
  join key index command (g ∷ gs) =
      if g.target == key
      then record g { indexes = g.indexes ++ index ∷ []; commands = g.commands ++ command ∷ [] }
        ∷ gs
      else g ∷ join key index command gs

  -- The loop of `build`, with the index that comes next.
  unfoldable pub build_from : List (ℕ × C) → ℕ → List (Group C) → Plan C
  build_from [] count groups = record { groups = groups; command_count = count }
  build_from ((key, command) ∷ rest) count groups =
      build_from rest (count + 1) (join key count command groups)

  unfoldable pub build : List (ℕ × C) → Plan C
  unfolding build_from
  build routed = build_from routed 0 []

module _ {V : Type 0} where
  -- `for index, value in zip(group.indexes, values): results[index] = value`
  unfoldable pub scatter : List ℕ → List V → List (Option V) → List (Option V)
  scatter [] vs results = results
  scatter (i ∷ is) [] results = results
  scatter (i ∷ is) (v ∷ vs) results = scatter is vs (set results i (some v))

  module _ {C : Type 0} where
    -- The loop over the groups; `none` in a result is Python's `None`.
    unfoldable pub merge_groups :
        List (Group C) → List (List V) → List (Option V) → (Option Error) × List (Option V)
    unfolding scatter
    merge_groups [] vss results = (none, results)
    merge_groups (g ∷ gs) [] results = (none, results)
    merge_groups (g ∷ gs) (vs ∷ vss) results =
        let rest = merge_groups gs vss (scatter g.indexes vs results) in
        if length vs == length g.indexes then rest else (some response_cardinality, results)

    unfoldable pub merge : Plan C → List (List V) → Option Error × List (Option V)
    unfolding merge_groups
    merge plan vss =
        if length vss == length plan.groups
        then merge_groups plan.groups vss (replicate plan.command_count none)
        else (some group_cardinality, [])
