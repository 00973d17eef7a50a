-- ===== src/Flow/Commands.antt =====
-- The command tables of `flow_routing.py`, entry by entry.
use Prim.Native.String.{String}
use ferricstore_python.Base.{ℕ, List, [], ◌∷◌}

abbrev pub flow_global_commands : List String
flow_global_commands = "FLOW.POLICY.GET" ∷ "FLOW.POLICY.SET" ∷ []

abbrev pub flow_positional_partition_commands : List String
flow_positional_partition_commands =
    "FLOW.CANCEL_MANY" ∷ "FLOW.COMPLETE_MANY" ∷ "FLOW.CREATE_MANY" ∷ "FLOW.FAIL_MANY"
    ∷ "FLOW.RETRY_MANY" ∷ "FLOW.TRANSITION_MANY" ∷ []

abbrev pub flow_state_id_commands : List String
flow_state_id_commands =
    "FLOW.CANCEL" ∷ "FLOW.COMPLETE" ∷ "FLOW.CREATE" ∷ "FLOW.EFFECT.COMPENSATE"
    ∷ "FLOW.EFFECT.CONFIRM" ∷ "FLOW.EFFECT.FAIL" ∷ "FLOW.EFFECT.GET" ∷ "FLOW.EFFECT.RESERVE"
    ∷ "FLOW.EXTEND_LEASE" ∷ "FLOW.FAIL" ∷ "FLOW.GET" ∷ "FLOW.GOVERNANCE.LEDGER" ∷ "FLOW.HISTORY"
    ∷ "FLOW.RETRY" ∷ "FLOW.REWIND" ∷ "FLOW.SIGNAL" ∷ "FLOW.SPAWN_CHILDREN" ∷ "FLOW.START_AND_CLAIM"
    ∷ "FLOW.STEP_CONTINUE" ∷ "FLOW.TRANSITION" ∷ []

abbrev pub flow_schedule_commands : List String
flow_schedule_commands =
    "FLOW.SCHEDULE.CREATE" ∷ "FLOW.SCHEDULE.DELETE" ∷ "FLOW.SCHEDULE.FIRE"
    ∷ "FLOW.SCHEDULE.FIRE_DUE" ∷ "FLOW.SCHEDULE.GET" ∷ "FLOW.SCHEDULE.LIST" ∷ "FLOW.SCHEDULE.PAUSE"
    ∷ "FLOW.SCHEDULE.RESUME" ∷ []

abbrev pub flow_approval_id_commands : List String
flow_approval_id_commands =
    "FLOW.APPROVAL.APPROVE" ∷ "FLOW.APPROVAL.GET" ∷ "FLOW.APPROVAL.REJECT" ∷ "FLOW.APPROVAL.REQUEST"
    ∷ []

abbrev pub flow_governance_scope_commands : List String
flow_governance_scope_commands =
    "FLOW.BUDGET.COMMIT" ∷ "FLOW.BUDGET.GET" ∷ "FLOW.BUDGET.RELEASE" ∷ "FLOW.BUDGET.RESERVE"
    ∷ "FLOW.CIRCUIT.CLOSE" ∷ "FLOW.CIRCUIT.GET" ∷ "FLOW.CIRCUIT.OPEN" ∷ "FLOW.LIMIT.GET"
    ∷ "FLOW.LIMIT.LEASE" ∷ "FLOW.LIMIT.RELEASE" ∷ "FLOW.LIMIT.SPEND" ∷ []

abbrev pub flow_option_starts : List (String × ℕ)
flow_option_starts =
    ("FLOW.APPROVAL.LIST", 0)
    ∷ ("FLOW.ATTRIBUTE_VALUES", 2)
    ∷ ("FLOW.ATTRIBUTES", 1)
    ∷ ("FLOW.BUDGET.LIST", 0)
    ∷ ("FLOW.CANCEL", 1)
    ∷ ("FLOW.CLAIM_DUE", 1)
    ∷ ("FLOW.COMPLETE", 2)
    ∷ ("FLOW.CREATE", 1)
    ∷ ("FLOW.EFFECT.COMPENSATE", 1)
    ∷ ("FLOW.EFFECT.CONFIRM", 1)
    ∷ ("FLOW.EFFECT.FAIL", 1)
    ∷ ("FLOW.EFFECT.GET", 1)
    ∷ ("FLOW.EFFECT.RESERVE", 1)
    ∷ ("FLOW.EXTEND_LEASE", 2)
    ∷ ("FLOW.FAIL", 2)
    ∷ ("FLOW.GET", 1)
    ∷ ("FLOW.GOVERNANCE.LEDGER", 1)
    ∷ ("FLOW.GOVERNANCE.OVERVIEW", 0)
    ∷ ("FLOW.HISTORY", 1)
    ∷ ("FLOW.INFO", 1)
    ∷ ("FLOW.LIMIT.LIST", 0)
    ∷ ("FLOW.RECLAIM", 1)
    ∷ ("FLOW.RETRY", 2)
    ∷ ("FLOW.REWIND", 1)
    ∷ ("FLOW.RUN_STEPS_MANY", 0)
    ∷ ("FLOW.SIGNAL", 1)
    ∷ ("FLOW.SPAWN_CHILDREN", 1)
    ∷ ("FLOW.START_AND_CLAIM", 1)
    ∷ ("FLOW.STATS", 1)
    ∷ ("FLOW.STEP_CONTINUE", 4)
    ∷ ("FLOW.TRANSITION", 3)
    ∷ []

abbrev pub flow_claim_commands : List String
flow_claim_commands = "FLOW.CLAIM_DUE" ∷ "FLOW.RECLAIM" ∷ []
