-- ===== src/Workflow.antt =====
-- `workflow_budget.py`: a reservation of budget around a handler, committed when the handler returns and
-- released when it raises. The client's answers are a parameter, and may depend on all earlier calls;
-- `none` and `false` stand for a call that raises. `calls` is what the client has been asked, the newest
-- first; a commit or release carries whether it returned. The `usage` of a commit only passes through.
pub mod Settlement
pub mod Leaving
mod Tests
use ferricstore_python.Base.{
  ℕ, zero, suc, ◌+◌, Bool, true, false, ◌&&◌, not, Option, none, some, List, [], ◌∷◌, if◌then◌else◌,
}
use ferricstore_python.Base.Exec.{Outcome, ok, err, Exec, ◌>>=◌, ◌>>◌}

pub data Error : Type 0 where
  already_entered not_opened already_closed call_failed handler_failed : Error

pub data Call : Type 0 where
  reserving : ℕ → Call
  committing : ℕ → ℕ → Bool → Call
  releasing : ℕ → Bool → Call
  recording : Call

-- A reservation is its `reservation_id`, which may be None; a result is a number.
pub record Client : Type 0 where
  pub budget_reserve : List Call → Option (Option ℕ)
  pub budget_commit : List Call → Option ℕ
  pub budget_release : List Call → Option ℕ
  pub record_result : List Call → Bool

pub record Budget : Type 0 where
  pub amount : ℕ
  pub reservation : Option (Option ℕ)
  pub closed : Bool
  pub entered : Bool
  pub result : Option ℕ
  pub calls : List Call

abbrev pub workflow_budget : ℕ → Budget
workflow_budget amount = record {
  amount = amount;
  reservation = none;
  closed = false;
  entered = false;
  result = none;
  calls = [];
}

abbrev pub id_of : Option (Option ℕ) → Option ℕ
id_of none = none
id_of (some id) = id

abbrev pub is_some : Option ℕ → Bool
is_some none = false
is_some (some n) = true

abbrev pub is_open : Budget → Bool
is_open b = not b.closed && is_some (id_of b.reservation)

-- What a closed budget answers to another commit or release.
abbrev pub closed_result : Option ℕ → Exec Error Budget ℕ
closed_result none b = err already_closed b
closed_result (some r) b = ok r b

module _ (client : Client) where
  -- `self.ctx._record_budget_result`
  unfoldable pub record_budget_result : ℕ → Exec Error Budget ℕ
  record_budget_result r b =
      let asked = record b { calls = recording ∷ b.calls } in
      if client.record_result b.calls then ok r asked else err call_failed asked

  -- The answer of `budget_commit` or `budget_release`, where `call` is the entry for it.
  unfoldable pub settle : (Bool → Call) → Option ℕ → Exec Error Budget ℕ
  unfolding record_budget_result
  settle call none b = err call_failed (record b { calls = call false ∷ b.calls })
  settle call (some r) b =
      record_budget_result r
        (record b { calls = call true ∷ b.calls; closed = true; result = some r })

  unfoldable pub commit : ℕ → Exec Error Budget ℕ
  unfolding settle
  commit actual b = if b.closed then closed_result b.result b else elim (id_of b.reservation) [
    | none ↦ err not_opened b
    | some id ↦ settle (committing id actual) (client.budget_commit b.calls) b
  ]

  unfoldable pub release : Exec Error Budget ℕ
  unfolding settle
  release b = if b.closed then closed_result b.result b else elim (id_of b.reservation) [
    | none ↦ err not_opened b
    | some id ↦ settle (releasing id) (client.budget_release b.calls) b
  ]

  -- `__enter__` behind the answer to its reservation.
  unfoldable pub opened : Option (Option ℕ) → Exec Error Budget ℕ
  unfolding record_budget_result
  opened none b = err call_failed b
  opened (some none) b = err not_opened (record b { reservation = some none })
  opened (some (some id)) b = record_budget_result id (record b { reservation = some (some id) })

  unfoldable pub enter : Exec Error Budget ℕ
  unfolding opened
  enter b =
      if b.entered
      then err already_entered b
      else opened (client.budget_reserve b.calls)
          (record b { entered = true; calls = reserving b.amount ∷ b.calls })

  abbrev pub state : {A : Type 0} → Outcome Error Budget A → Budget
  state (ok a b) = b
  state (err e b) = b

  -- The cleanup behind a commit that raised: the release's own error does not replace the primary one.
  unfoldable pub rollback : Outcome Error Budget ℕ → Outcome Error Budget (Unit {0})
  unfolding release
  rollback (ok r b) = ok tt b
  rollback (err e b) = if is_open b then err e (state (release b)) else err e b

  -- After the handler's error, which goes on whether or not the release raises.
  abbrev pub released : Outcome Error Budget ℕ → Outcome Error Budget (Unit {0})
  released (ok r b) = ok tt b
  released (err e b) = err handler_failed b

  -- `__exit__` of a budget that is not closed; `failed` says whether the handler raised.
  unfoldable pub leave : Bool → Exec Error Budget (Unit {0})
  unfolding commit rollback
  leave failed b = if failed then released (release b) else rollback (commit b.amount b)

  unfoldable pub exit : Bool → Exec Error Budget (Unit {0})
  unfolding leave
  exit failed b = if b.closed then ok tt b else leave failed b
