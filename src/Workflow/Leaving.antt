-- ===== src/Workflow/Leaving.antt =====
-- `__exit__` of `WorkflowBudget` (workflow_budget.py) with an open reservation.
use ferricstore_python.Base.{
  ℕ, ◌≡◌, ◌≢◌, ◌⊎◌, refl, sym, ◌∙◌, Bool, true, false, ◌&&◌, not, Option, none, some, List,
  if◌then◌else◌, Bool-cases, Option-cases, inl, inr,
}
use ferricstore_python.Base.Exec.{Outcome, ok, err}
use ferricstore_python.Workflow.{
  Error, Call, committing, releasing, Client, Budget, id_of, is_some, is_open, record_budget_result,
  settle, commit, release, state, rollback, released, leave, exit,
}

module _ (client : Client) where
  record-closed :
      (r : ℕ) (b : Budget) → (state client (record_budget_result client r b)).closed ≡ b.closed
  unfolding record_budget_result
  record-closed r b = elim (Bool-cases (client.record_result b.calls)) [
    | inl fine ↦ rw (fine, record_budget_result) refl
    | inr raised ↦ rw (raised, record_budget_result) refl
  ]

  settle-closed :
      (call : Bool → Call) (r : ℕ) (b : Budget)
      → (state client (settle client call (some r) b)).closed ≡ true
  unfolding settle
  settle-closed call r b = record-closed r _

  -- What an open budget has.
  Open-parts :
      (b : Budget)
      → is_open b ≡ true
      → (b.closed ≡ false) × ((id : ℕ) × (id_of b.reservation ≡ some id))
  Open-parts b h = parts b.closed (id_of b.reservation) h
    where
      parts :
          (x : Bool) (o : Option ℕ)
          → not x && is_some o ≡ true
          → (x ≡ false) × ((id : ℕ) × (o ≡ some id))
      parts false (some id) h = (refl, (id, refl))
      parts false none h = cc
      parts true o h = cc

  release-closed :
      (b : Budget)
      → is_open b ≡ true
      → ((cs : List Call) → client.budget_release cs ≢ none)
      → (state client (release client b)).closed ≡ true
  unfolding release
  release-closed b h answers =
      let (alive, (id, found)) = Open-parts b h in
      elim (Option-cases (client.budget_release b.calls)) [
        | inl raised ↦ absurd (answers b.calls raised)
        | inr (r, returned) ↦
            rw (alive, found, returned, release) (settle-closed (releasing id) r b)
      ]

  released-closed :
      (o : Outcome Error Budget ℕ)
      → (state client (released client o)).closed ≡ (state client o).closed
  released-closed (ok r b) = refl
  released-closed (err e b) = refl

  -- A commit ends with the budget closed, or with an error and the budget still open.
  abbrev Ends : Outcome Error Budget ℕ → Type 0
  Ends (ok r b) = b.closed ≡ true
  Ends (err e b) = (b.closed ≡ true) ⊎ (is_open b ≡ true)

  record-Ends : (r : ℕ) (b : Budget) → b.closed ≡ true → Ends (record_budget_result client r b)
  unfolding record_budget_result
  record-Ends r b shut = elim (Bool-cases (client.record_result b.calls)) [
    | inl fine ↦ rw (fine, record_budget_result) shut
    | inr raised ↦ rw (raised, record_budget_result) (inl shut)
  ]

  settle-Ends :
      (call : Bool → Call) (o : Option ℕ) (b : Budget)
      → is_open b ≡ true
      → Ends (settle client call o b)
  unfolding settle
  settle-Ends call none b h = inr h
  settle-Ends call (some r) b h = record-Ends r _ refl

  commit-Ends : (n : ℕ) (b : Budget) → is_open b ≡ true → Ends (commit client n b)
  unfolding commit
  commit-Ends n b h =
      let (alive, (id, found)) = Open-parts b h in
      rw (alive, found, commit) (settle-Ends (committing id n) (client.budget_commit b.calls) b h)

  rollback-closed :
      (o : Outcome Error Budget ℕ)
      → ((cs : List Call) → client.budget_release cs ≢ none)
      → Ends o
      → (state client (rollback client o)).closed ≡ true
  unfolding rollback
  rollback-closed (ok r b) answers h = h
  rollback-closed (err e b) answers h = elim (Bool-cases (is_open b)) [
    | inl still ↦ rw (still, rollback) (release-closed b still answers)
    | inr done ↦
        rw (done, rollback)
          (elim h [
            | inl shut ↦ shut
            | inr still ↦ let impossible : false ≡ true = sym done ∙ still in cc
          ])
  ]

  leave-closed :
      (failed : Bool) (b : Budget)
      → is_open b ≡ true
      → ((cs : List Call) → client.budget_release cs ≢ none)
      → (state client (leave client failed b)).closed ≡ true
  unfolding leave
  leave-closed true b h answers = released-closed (release client b) ∙ release-closed b h answers
  leave-closed false b h answers =
      rollback-closed (commit client b.amount b) answers (commit-Ends b.amount b h)

  -- Leaving the block with an open reservation closes the budget, whether the handler failed or not and
  -- whatever the client's other calls do, if its release never raises.
  pub exit-closed :
      (failed : Bool) (b : Budget)
      → is_open b ≡ true
      → ((cs : List Call) → client.budget_release cs ≢ none)
      → (state client (exit client failed b)).closed ≡ true
  unfolding exit
  exit-closed failed b h answers = go b.closed refl
    where
      go :
          (x : Bool)
          → b.closed ≡ x
          → (state client (if x then ok tt b else leave client failed b)).closed ≡ true
      go true e = e
      go false e = leave-closed failed b h answers
