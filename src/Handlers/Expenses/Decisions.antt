-- ===== src/Handlers/Expenses/Decisions.antt =====
-- What deciding on an expense, or cancelling it, leaves when it succeeds.
use ratel_financial_platform.Prelude.{
  ℕ, String, Bool, true, some, ◌≡◌, refl, sym, ap, ◌∙◌, arith, if◌then◌else◌,
}
use ratel_financial_platform.Errors.{ok, or_throw, >>=-eq-ok, or_throw-eq-ok}
use ratel_financial_platform.Workflow.Engine
use ratel_financial_platform.Workflow.Engine.{Approvable}
use ratel_financial_platform.Workflow.Progress.{ApprovalProgress}
use ratel_financial_platform.Expense.Status.{pending_approval, approved, rejected, cancelled}
use ratel_financial_platform.Expense.Aggregate
use ratel_financial_platform.Expense.Aggregate.{Expense, ExpenseProps, reconstitute}
use ratel_financial_platform.Expense.Lifecycle.{SameIdentity}
use ratel_financial_platform.Database.{Database}
use ratel_financial_platform.Database.Expenses.Laws.{find_row-id}
use ratel_financial_platform.Database.Approvals
use ratel_financial_platform.Handlers.Expenses.{
  load, assert_period_open, commit, approve_if, approve_expense, reject_expense, cancel_expense,
  expense_to_approvable,
}
use ratel_financial_platform.Handlers.Expenses.Laws.{
  reconstituted, Touches, Loaded, loaded, committed, commit-eq-ok, approvals_save-eq-ok,
}

progress_item_id :
    (id : String) (db : Database) (p : ApprovalProgress)
    → Approvals.find_by_item_id id db ≡ some p
    → p.item_id ≡ id
unfolding Approvals.find_by_item_id
progress_item_id id db p h = ground arith

approve_if-SameIdentity :
    (final : Bool) (approver : String) (now : ℕ) (e e' : Expense)
    → approve_if final approver now e ≡ ok e'
    → SameIdentity e.props e'.props
      × ((e'.props.status ≡ (if final then approved else e.props.status))
          × (final ≡ true → e.props.status ≡ pending_approval))
unfolding Aggregate.approve
approve_if-SameIdentity final approver now e e' h = ground arith

-- What `ApproveExpenseHandler` leaves: the engine has accepted the approval on the stored progress,
-- the new record is stored, and the expense is approved if that was the last step of its chain.
pub record Approved (org id approver : String) (now : ℕ) (db db' : Database) : Type 0 where
  pub row : ExpenseProps
  pub p : ExpenseProps
  pub touches : Touches org id db db' row p
  pub before : ApprovalProgress
  pub after : ApprovalProgress
  pub final : Bool
  pub progress : Approvals.find_by_item_id id db ≡ some before
  pub accepted :
      Engine.record_approval db.roles (expense_to_approvable (reconstitute row)) before approver now
      ≡ ok (after, final)
  pub status : p.status ≡ (if final then approved else row.status)
  pub was_pending : final ≡ true → row.status ≡ pending_approval
  pub approvals : db'.approvals ≡ Approvals.flush id after.records db.approvals

approve_expense-Approved :
    {org id : String} {db : Database} {e : Expense} (approver : String) (now : ℕ)
    (before : ApprovalProgress) (recorded : ApprovalProgress × Bool) (e' : Expense)
    (flushed db' : Database)
    → Loaded org id db e
    → Approvals.find_by_item_id e.props.id db ≡ some before
    → Engine.record_approval db.roles (expense_to_approvable e) before approver now ≡ ok recorded
    → approve_if recorded.1 approver now e ≡ ok e'
    → Approvals.save e.props.id recorded.0 db ≡ ok flushed
    → commit e' flushed ≡ ok db'
    → Approved org id approver now db db'
approve_expense-Approved {org} {id} {db} {e} approver now before recorded e' flushed db' l e2 e3 e4
      e5 h =
    let id_is = find_row-id id db.expenses e.props l.found in
    let (same, (status, was)) = approve_if-SameIdentity recorded.1 approver now e e' e4 in
    let saved = approvals_save-eq-ok e.props.id recorded.0 db flushed e5 in
    let (_, _, approvals, _) = commit-eq-ok e' flushed db' h in
    let stored : flushed.approvals ≡ Approvals.flush id recorded.0.records db.approvals =
      rw (sym id_is) (ap (λ (d : Database). d.approvals) saved) in
    record {
      row = e.props;
      p = e'.props;
      touches =
          committed e' flushed db' l same (ap (λ (d : Database). d.expenses) saved)
            (ap (λ (d : Database). d.periods) saved) h;
      before = before;
      after = recorded.0;
      final = recorded.1;
      progress = rw (sym id_is) e2;
      accepted = rw (reconstituted e l.fresh) e3;
      status = status;
      was_pending = was;
      approvals = approvals ∙ stored;
    }

-- Approving an expense, if it succeeds: the expense was the organization's and its period open; the
-- engine accepted the approval on the progress that is stored, and its record is stored; the expense
-- becomes approved exactly in a final approval, for which it was waiting, and keeps its status
-- otherwise. No other expense's row and no period is written.
pub approve_expense_effect :
    (id org approver : String) (now : ℕ) (db db' : Database)
    → approve_expense id org approver now db ≡ ok db'
    → Approved org id approver now db db'
unfolding approve_expense
approve_expense_effect id org approver now db db' h =
    let (e, e0, h0) = >>=-eq-ok (load id org db) _ h in
    let (_, e1, h1) = >>=-eq-ok (assert_period_open org e db) _ h0 in
    let (before, e2, h2) = >>=-eq-ok (or_throw (Approvals.find_by_item_id e.props.id db) _) _ h1 in
    let (recorded, e3, h3) =
      >>=-eq-ok (Engine.record_approval db.roles (expense_to_approvable e) before approver now) _
        h2 in
    let (e', e4, h4) = >>=-eq-ok (approve_if recorded.1 approver now e) _ h3 in
    let (flushed, e5, h5) = >>=-eq-ok (Approvals.save e.props.id recorded.0 db) _ h4 in
    approve_expense-Approved approver now before recorded e' flushed db' (loaded org id db e e0 e1)
      (or_throw-eq-ok _ _ e2) e3 e4 e5 h5

reject_status :
    (approver reason : String) (now : ℕ) (e e' : Expense)
    → Aggregate.reject approver reason now e ≡ ok e'
    → (e.props.status ≡ pending_approval)
      × (e'.props.status ≡ rejected)
      × SameIdentity e.props e'.props
unfolding Aggregate.reject
reject_status approver reason now e e' h = ground arith

-- What `RejectExpenseHandler` leaves: a pending expense is rejected, at whatever step it was, and the
-- rejection is stored.
pub record Rejected (org id approver reason : String) (now : ℕ) (db db' : Database) : Type 0 where
  pub row : ExpenseProps
  pub p : ExpenseProps
  pub touches : Touches org id db db' row p
  pub before : ApprovalProgress
  pub after : ApprovalProgress
  pub progress : Approvals.find_by_item_id id db ≡ some before
  pub accepted :
      Engine.record_rejection db.roles
        (expense_to_approvable (reconstitute row))
        before
        approver
        reason
        now
      ≡ ok after
  pub was_pending : row.status ≡ pending_approval
  pub status : p.status ≡ rejected
  pub approvals : db'.approvals ≡ Approvals.flush id after.records db.approvals

reject_expense-Rejected :
    {org id : String} {db : Database} {e : Expense} (approver reason : String) (now : ℕ)
    (before after : ApprovalProgress) (e' : Expense) (flushed db' : Database)
    → Loaded org id db e
    → Approvals.find_by_item_id e.props.id db ≡ some before
    → Engine.record_rejection db.roles (expense_to_approvable e) before approver reason now
      ≡ ok after
    → Aggregate.reject approver reason now e ≡ ok e'
    → Approvals.save e.props.id after db ≡ ok flushed
    → commit e' flushed ≡ ok db'
    → Rejected org id approver reason now db db'
reject_expense-Rejected {org} {id} {db} {e} approver reason now before after e' flushed db' l e2 e3
      e4 e5 h =
    let id_is = find_row-id id db.expenses e.props l.found in
    let (was, is, same) = reject_status approver reason now e e' e4 in
    let saved = approvals_save-eq-ok e.props.id after db flushed e5 in
    let (_, _, approvals, _) = commit-eq-ok e' flushed db' h in
    let stored : flushed.approvals ≡ Approvals.flush id after.records db.approvals =
      rw (sym id_is) (ap (λ (d : Database). d.approvals) saved) in
    record {
      row = e.props;
      p = e'.props;
      touches =
          committed e' flushed db' l same (ap (λ (d : Database). d.expenses) saved)
            (ap (λ (d : Database). d.periods) saved) h;
      before = before;
      after = after;
      progress = rw (sym id_is) e2;
      accepted = rw (reconstituted e l.fresh) e3;
      was_pending = was;
      status = is;
      approvals = approvals ∙ stored;
    }

-- Rejecting an expense, if it succeeds: the expense was the organization's, in an open period and
-- waiting for approval; the engine accepted the rejection on the progress that is stored, its record
-- is stored, and the expense is rejected. No other expense's row and no period is written.
pub reject_expense_effect :
    (id org approver reason : String) (now : ℕ) (db db' : Database)
    → reject_expense id org approver reason now db ≡ ok db'
    → Rejected org id approver reason now db db'
unfolding reject_expense
reject_expense_effect id org approver reason now db db' h =
    let (e, e0, h0) = >>=-eq-ok (load id org db) _ h in
    let (_, e1, h1) = >>=-eq-ok (assert_period_open org e db) _ h0 in
    let (before, e2, h2) = >>=-eq-ok (or_throw (Approvals.find_by_item_id e.props.id db) _) _ h1 in
    let (after, e3, h3) =
      >>=-eq-ok
        (Engine.record_rejection db.roles (expense_to_approvable e) before approver reason now) _
        h2 in
    let (e', e4, h4) = >>=-eq-ok (Aggregate.reject approver reason now e) _ h3 in
    let (flushed, e5, h5) = >>=-eq-ok (Approvals.save e.props.id after db) _ h4 in
    reject_expense-Rejected approver reason now before after e' flushed db'
      (loaded org id db e e0 e1) (or_throw-eq-ok _ _ e2) e3 e4 e5 h5

cancel_status :
    (actor : String) (now : ℕ) (e e' : Expense)
    → Aggregate.cancel actor now e ≡ ok e'
    → (e'.props.status ≡ cancelled) × SameIdentity e.props e'.props
unfolding Aggregate.cancel
cancel_status actor now e e' h = ground arith

-- Cancelling an expense, if it succeeds: the expense was the organization's and in an open period, and
-- is cancelled. No other expense's row and no period is written.
pub cancel_expense-eq-ok :
    (id org actor : String) (now : ℕ) (db db' : Database)
    → cancel_expense id org actor now db ≡ ok db'
    → (row : ExpenseProps) × (p : ExpenseProps) × Touches org id db db' row p
      × (p.status ≡ cancelled)
unfolding cancel_expense
cancel_expense-eq-ok id org actor now db db' h =
    let (e, e0, h0) = >>=-eq-ok (load id org db) _ h in
    let (_, e1, h1) = >>=-eq-ok (assert_period_open org e db) _ h0 in
    let (e', e2, h2) = >>=-eq-ok (Aggregate.cancel actor now e) _ h1 in
    let (is, same) = cancel_status actor now e e' e2 in
    (e.props, e'.props, committed e' db db' (loaded org id db e e0 e1) same refl refl h2, is)
