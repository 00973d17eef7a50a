-- ===== src/Workflow/Tests.antt =====
-- The budget's theorems with a client whose commit raises.
use ferricstore_python.Base.{◌≡◌, refl, true, false, none, some, [], ◌∷◌}
use ferricstore_python.Workflow.{Client, Budget, workflow_budget, state, exit}
use ferricstore_python.Workflow.Settlement.{
  Settled, entering, committing_amount, releasing_it, exiting, perform_all, workflow_budget-Settled,
}
use ferricstore_python.Workflow.Leaving.{exit-closed}

abbrev no_commits : Client
no_commits = record {
  budget_reserve = λ calls. some (some 7);
  budget_commit = λ calls. none;
  budget_release = λ calls. some 1;
  record_result = λ calls. true;
}

workflow_budget-Settled_example : Settled (
    perform_all no_commits
      (entering ∷ committing_amount 3 ∷ exiting false ∷ releasing_it ∷ entering ∷ [])
      (workflow_budget 5))
workflow_budget-Settled_example =
    workflow_budget-Settled no_commits 5
      (entering ∷ committing_amount 3 ∷ exiting false ∷ releasing_it ∷ entering ∷ [])

abbrev open_budget : Budget
open_budget = record (workflow_budget 5) { entered = true; reservation = some (some 7) }

exit-closed_example : (state no_commits (exit no_commits false open_budget)).closed ≡ true
exit-closed_example = exit-closed no_commits false open_budget refl (λ calls e. cc)
