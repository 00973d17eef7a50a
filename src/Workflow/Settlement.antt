-- ===== src/Workflow/Settlement.antt =====
-- `WorkflowBudget` (workflow_budget.py): how often its client is asked, over any sequence of operations.
use ferricstore_python.Base.{
  ℕ, suc, ◌≡◌, refl, ap, ◌∙◌, Bool, true, false, Option, none, some, List, [], ◌∷◌, if◌then◌else◌,
  Bool-cases, Option-cases, inl, inr,
}
use ferricstore_python.Base.Exec.{Outcome, ok, err}
use ferricstore_python.Workflow.{
  Error, Call, reserving, committing, releasing, recording, Client, Budget, workflow_budget, id_of,
  is_some, is_open, closed_result, record_budget_result, settle, commit, release, opened, enter,
  state, rollback, released, leave, exit,
}

-- The commits and releases that returned, and the reservations that were asked for.
abbrev pub settled : List Call → ℕ
settled [] = 0
settled (committing id n true ∷ cs) = suc (settled cs)
settled (releasing id true ∷ cs) = suc (settled cs)
settled (committing id n false ∷ cs) = settled cs
settled (releasing id false ∷ cs) = settled cs
settled (reserving n ∷ cs) = settled cs
settled (recording ∷ cs) = settled cs

abbrev pub reserved : List Call → ℕ
reserved [] = 0
reserved (reserving n ∷ cs) = suc (reserved cs)
reserved (committing id n x ∷ cs) = reserved cs
reserved (releasing id x ∷ cs) = reserved cs
reserved (recording ∷ cs) = reserved cs

abbrev pub once : Bool → ℕ
once true = 1
once false = 0

pub record Settled (b : Budget) : Type 0 where
  pub settles : settled b.calls ≡ once b.closed
  pub reserves : reserved b.calls ≡ once b.entered
  pub answers : is_some b.result ≡ b.closed

module _ (client : Client) where
  record-Settled :
      (r : ℕ) (b : Budget) → Settled b → Settled (state client (record_budget_result client r b))
  unfolding record_budget_result
  record-Settled r b h = elim (Bool-cases (client.record_result b.calls)) [
    | inl fine ↦
        rw (fine, record_budget_result)
          (record { settles = h.settles; reserves = h.reserves; answers = h.answers })
    | inr raised ↦
        rw (raised, record_budget_result)
          (record { settles = h.settles; reserves = h.reserves; answers = h.answers })
  ]

  -- A call that settles, by its entry.
  record Settles (call : Bool → Call) : Type 0 where
    yes_settled : (cs : List Call) → settled (call true ∷ cs) ≡ suc (settled cs)
    no_settled : (cs : List Call) → settled (call false ∷ cs) ≡ settled cs
    same_reserved : (x : Bool) (cs : List Call) → reserved (call x ∷ cs) ≡ reserved cs

  settle-Settled :
      (call : Bool → Call) (o : Option ℕ) (b : Budget)
      → Settles call
      → b.closed ≡ false
      → Settled b
      → Settled (state client (settle client call o b))
  unfolding settle
  settle-Settled call none b c alive h = record {
    settles = c.no_settled b.calls ∙ h.settles;
    reserves = c.same_reserved false b.calls ∙ h.reserves;
    answers = h.answers;
  }
  settle-Settled call (some r) b c alive h =
      record-Settled r (record b { calls = call true ∷ b.calls; closed = true; result = some r })
        (record {
          settles = c.yes_settled b.calls ∙ ap suc (h.settles ∙ ap once alive);
          reserves = c.same_reserved true b.calls ∙ h.reserves;
          answers = refl;
        })

  closed_result-Settled :
      (o : Option ℕ) (b : Budget) → Settled b → Settled (state client (closed_result o b))
  closed_result-Settled none b h = h
  closed_result-Settled (some r) b h = h

  -- A budget with its test of `closed` read.
  closed-is : (b : Budget) (x : Bool) → b.closed ≡ x → Settled b → Settled (record b { closed = x })
  closed-is b x e h = record {
    settles = h.settles ∙ ap once e;
    reserves = h.reserves;
    answers = h.answers ∙ e;
  }

  committing-Settles : (id n : ℕ) → Settles (committing id n)
  committing-Settles id n = record {
    yes_settled = λ cs. refl;
    no_settled = λ cs. refl;
    same_reserved = λ x cs. refl;
  }

  releasing-Settles : (id : ℕ) → Settles (releasing id)
  releasing-Settles id = record {
    yes_settled = λ cs. refl;
    no_settled = λ cs. refl;
    same_reserved = λ x cs. refl;
  }

  commit-Settled : (n : ℕ) (b : Budget) → Settled b → Settled (state client (commit client n b))
  unfolding commit
  commit-Settled n b h = elim (Bool-cases b.closed) [
    | inl shut ↦ rw (shut, commit) (closed_result-Settled b.result _ (closed-is b true shut h))
    | inr alive ↦ elim (Option-cases (id_of b.reservation)) [
      | inl absent ↦ rw (alive, absent, commit) h
      | inr (id, found) ↦
          rw (alive, found, commit)
            (settle-Settled (committing id n) (client.budget_commit b.calls) b
              (committing-Settles id n) alive h)
    ]
  ]

  release-Settled : (b : Budget) → Settled b → Settled (state client (release client b))
  unfolding release
  release-Settled b h = elim (Bool-cases b.closed) [
    | inl shut ↦ rw (shut, release) (closed_result-Settled b.result _ (closed-is b true shut h))
    | inr alive ↦ elim (Option-cases (id_of b.reservation)) [
      | inl absent ↦ rw (alive, absent, release) h
      | inr (id, found) ↦
          rw (alive, found, release)
            (settle-Settled (releasing id) (client.budget_release b.calls) b (releasing-Settles id)
              alive h)
    ]
  ]

  opened-Settled :
      (o : Option (Option ℕ)) (b : Budget) → Settled b → Settled (state client (opened client o b))
  unfolding opened
  opened-Settled none b h = h
  opened-Settled (some none) b h = record {
    settles = h.settles;
    reserves = h.reserves;
    answers = h.answers;
  }
  opened-Settled (some (some id)) b h =
      record-Settled id (record b { reservation = some (some id) })
        (record { settles = h.settles; reserves = h.reserves; answers = h.answers })

  enter-Settled : (b : Budget) → Settled b → Settled (state client (enter client b))
  unfolding enter
  enter-Settled b h = elim (Bool-cases b.entered) [
    | inl before ↦
        rw (before, enter)
          (record {
            settles = h.settles;
            reserves = h.reserves ∙ ap once before;
            answers = h.answers;
          })
    | inr first ↦
        rw (first, enter)
          (opened-Settled (client.budget_reserve b.calls)
            (record b { entered = true; calls = reserving b.amount ∷ b.calls })
            (record {
              settles = h.settles;
              reserves = ap suc (h.reserves ∙ ap once first);
              answers = h.answers;
            }))
  ]

  rollback-Settled :
      (o : Outcome Error Budget ℕ)
      → Settled (state client o)
      → Settled (state client (rollback client o))
  unfolding rollback
  rollback-Settled (ok r b) h = h
  rollback-Settled (err e b) h = elim (Bool-cases (is_open b)) [
    | inl still ↦ rw (still, rollback) (release-Settled b h)
    | inr done ↦ rw (done, rollback) h
  ]

  released-Settled :
      (o : Outcome Error Budget ℕ)
      → Settled (state client o)
      → Settled (state client (released client o))
  released-Settled (ok r b) h = h
  released-Settled (err e b) h = h

  leave-Settled :
      (failed : Bool) (b : Budget) → Settled b → Settled (state client (leave client failed b))
  unfolding leave
  leave-Settled true b h = released-Settled (release client b) (release-Settled b h)
  leave-Settled false b h =
      rollback-Settled (commit client b.amount b) (commit-Settled b.amount b h)

  exit-Settled :
      (failed : Bool) (b : Budget) → Settled b → Settled (state client (exit client failed b))
  unfolding exit
  exit-Settled failed b h = go b.closed
    where
      go : (x : Bool) → Settled (state client (if x then ok tt b else leave client failed b))
      go true = h
      go false = leave-Settled failed b h

-- What the owner of a budget may do, in any order.
pub data Operation : Type 0 where
  entering : Operation
  committing_amount : ℕ → Operation
  releasing_it : Operation
  exiting : Bool → Operation

abbrev pub perform : Client → Operation → Budget → Budget
perform client entering b = state client (enter client b)
perform client (committing_amount n) b = state client (commit client n b)
perform client releasing_it b = state client (release client b)
perform client (exiting failed) b = state client (exit client failed b)

abbrev pub perform_all : Client → List Operation → Budget → Budget
perform_all client [] b = b
perform_all client (o ∷ os) b = perform_all client os (perform client o b)

perform-Settled :
    (client : Client) (o : Operation) (b : Budget) → Settled b → Settled (perform client o b)
perform-Settled client entering b h = enter-Settled client b h
perform-Settled client (committing_amount n) b h = commit-Settled client n b h
perform-Settled client releasing_it b h = release-Settled client b h
perform-Settled client (exiting failed) b h = exit-Settled client failed b h

perform_all-Settled :
    (client : Client) (os : List Operation) (b : Budget)
    → Settled b
    → Settled (perform_all client os b)
perform_all-Settled client [] b h = h
perform_all-Settled client (o ∷ os) b h =
    perform_all-Settled client os (perform client o b) (perform-Settled client o b h)

-- Whatever is done with a new budget, in any order and whichever calls of the client raise: the client
-- has been asked for one reservation if the budget was entered, and else for none; exactly one commit or
-- release has returned if the budget is closed, and else none; and a closed budget has a result.
pub workflow_budget-Settled :
    (client : Client) (amount : ℕ) (os : List Operation)
    → Settled (perform_all client os (workflow_budget amount))
workflow_budget-Settled client amount os =
    perform_all-Settled client os (workflow_budget amount)
      (record { settles = refl; reserves = refl; answers = refl })
