-- ===== src/Handlers/Expenses/Outcomes.antt =====
-- What is found, after a handler of an existing expense, under the expense's id and under others.
use ratel_financial_platform.Prelude.{
  ℕ, ◌+◌, String, Bool, true, false, some, List, [], ◌∷◌, ◌++◌, ◌≡◌, ◌≢◌, refl, sym, ap, ◌∙◌, arith,
  eq_iff, length, if◌then◌else◌,
}
use ratel_financial_platform.Errors.{ok}
use ratel_financial_platform.Workflow.Chain.Laws.{IsContiguous}
use ratel_financial_platform.Workflow.Engine
use ratel_financial_platform.Workflow.Engine.Laws.{record_approval-eq-ok, record_rejection-eq-ok}
use ratel_financial_platform.Workflow.Policies.{resolve_expense_chain}
use ratel_financial_platform.Workflow.Policies.Laws.{resolve_expense_chain-IsContiguous}
use ratel_financial_platform.Workflow.Progress.{
  ApprovalProgress, ApprovalRecord, approval, rejection,
}
use ratel_financial_platform.Workflow.Reach.{IsNumbered}
use ratel_financial_platform.Expense.Status.{draft, pending_approval, approved, rejected}
use ratel_financial_platform.Expense.Aggregate.{ExpenseProps, reconstitute}
use ratel_financial_platform.Expense.Lifecycle.{SameIdentity}
use ratel_financial_platform.Database.{Database, ApprovalRow, to_date}
use ratel_financial_platform.Database.Expenses.{find_row, upsert}
use ratel_financial_platform.Database.Expenses.Laws.{
  find_row-id, find_row-upsert_same, find_row-upsert_other,
}
use ratel_financial_platform.Database.Periods.{period_is_open}
use ratel_financial_platform.Database.Approvals
use ratel_financial_platform.Database.Approvals.{find_by_item_id}
use ratel_financial_platform.Database.Approvals.Laws.{save_found_again, found_progress}
use ratel_financial_platform.Handlers.Expenses.{
  submit_expense, approve_expense, reject_expense, expense_to_approvable,
}
use ratel_financial_platform.Handlers.Expenses.Laws.{Touches, approvals_save-eq-ok}
use ratel_financial_platform.Handlers.Expenses.Submission.{submit_expense_effect, new_row}
use ratel_financial_platform.Handlers.Expenses.Decisions.{
  approve_expense_effect, reject_expense_effect,
}

-- The expense is stored, with a day as its date.
pub record HasDay (id : String) (db : Database) : Type 0 where
  pub row : ExpenseProps
  pub found : find_row id db.expenses ≡ some row
  pub day : row.expense_date ≡ to_date row.expense_date

-- The item's progress is stored, its steps and its records numbered from 1 without a gap.
pub record HasProgress (id : String) (db : Database) : Type 0 where
  pub row : ApprovalRow
  pub found : Approvals.find_row id db.approvals ≡ some row
  pub contiguous : IsContiguous 1 row.chain
  pub numbered : IsNumbered 1 row.records

-- The id finds one expense before and another one after, with the same identity; it was of the
-- organization and in an open period. Every other id finds what it found, and no period is written.
pub record Replaces (org id : String) (db db' : Database) (before after : ExpenseProps)
    : Type 0 where
  pub found_before : find_row id db.expenses ≡ some before
  pub own : before.organization_id ≡ org
  pub in_open_period : period_is_open org before.period_id db ≡ true
  pub found_after : find_row id db'.expenses ≡ some after
  pub identity : SameIdentity before after
  pub others :
      (other : String) → other ≢ id → find_row other db'.expenses ≡ find_row other db.expenses
  pub periods : db'.periods ≡ db.periods

some_row : {a b : ExpenseProps} → some a ≡ some b → a ≡ b
some_row e = cc

-- The row that an update leaves has the new status, and keeps its identity.
touched :
    {org id : String} {db db' : Database} {row p : ExpenseProps}
    → HasDay id db
    → Touches org id db db' row p
    → (after : ExpenseProps) × Replaces org id db db' row after × (after.status ≡ p.status)
touched {org} {id} {db} {db'} {row} {p} well t =
    let id_is : p.id ≡ id = t.identity.id ∙ find_row-id id db.expenses row t.found in
    let same = some_row (sym well.found ∙ t.found) in
    let day : row.expense_date ≡ to_date p.expense_date =
      ap (λ (r : ExpenseProps). r.expense_date) (sym same)
      ∙ well.day
      ∙ ap (λ (r : ExpenseProps). to_date r.expense_date) same
      ∙ ap to_date (sym t.identity.date) in
    let there : find_row p.id db.expenses ≡ some row =
      ap (λ z. find_row z db.expenses) id_is ∙ t.found in
    (
      _,
      record {
        found_before = t.found;
        own = t.own;
        in_open_period = t.in_open_period;
        found_after =
            ap (find_row id) t.stored
            ∙ ap (λ z. find_row z (upsert p db.expenses)) (sym id_is)
            ∙ find_row-upsert_same p db.expenses row there day;
        identity = record {
          id = refl;
          organization = refl;
          number = refl;
          source = refl;
          department = refl;
          period = refl;
          parent = refl;
          date = refl;
          created = refl;
        };
        others = λ other ne.
            ap (find_row other) t.stored
            ∙ find_row-upsert_other p other db.expenses (λ e. ne (sym e ∙ id_is));
        periods = t.periods;
      },
      refl,
    )

some_progress : {a b : ApprovalProgress} → some a ≡ some b → a ≡ b
some_progress e = cc

lookup_flushed :
    (id : String) (db db' : Database) (p : ApprovalProgress) (saved : Database)
    → Approvals.save id p db ≡ ok saved
    → db'.approvals ≡ Approvals.flush id p.records db.approvals
    → find_by_item_id id db' ≡ find_by_item_id id saved
unfolding find_by_item_id
lookup_flushed id db db' p saved h e =
    let s = ap (λ (d : Database). d.approvals) (approvals_save-eq-ok id p db saved h) in
    let same : db'.approvals ≡ saved.approvals = e ∙ sym s in
    ap (λ (a : List ApprovalRow). find_by_item_id id (record db { approvals = a })) same

-- A stored progress that has grown by one record is found with it.
grown_found :
    (id : String) (db db' : Database) (before after : ApprovalProgress) (r : ApprovalRecord)
    → HasProgress id db
    → find_by_item_id id db ≡ some before
    → after ≡ record before { records = before.records ++ r ∷ [] }
    → r.step_order ≡ length before.records + 1
    → db'.approvals ≡ Approvals.flush id after.records db.approvals
    → find_by_item_id id db' ≡ some after
grown_found id db db' before after r has found same order flushed =
    let row = has.row in
    let is : before ≡ record { item_id = id; chain = row.chain; records = row.records } =
      some_progress (sym found ∙ found_progress id db row has.found has.contiguous has.numbered) in
    let records_are = ap (λ (p : ApprovalProgress). length p.records) is in
    let (saved, save, again) =
      save_found_again id db row r after has.found has.contiguous has.numbered
        (omega (arith, order, records_are))
        (same ∙ ap (λ (p : ApprovalProgress). record p { records = p.records ++ r ∷ [] }) is) in
    lookup_flushed id db db' after saved save flushed ∙ again

-- What approving leaves to be found.
pub record Approves (org id approver : String) (now : ℕ) (db db' : Database) : Type 0 where
  pub before : ExpenseProps
  pub after : ExpenseProps
  pub replaces : Replaces org id db db' before after
  pub progress : ApprovalProgress
  pub next : ApprovalProgress
  pub final : Bool
  pub progress_before : find_by_item_id id db ≡ some progress
  pub accepted :
      Engine.record_approval db.roles
        (expense_to_approvable (reconstitute before))
        progress
        approver
        now
      ≡ ok (next, final)
  pub progress_after : find_by_item_id id db' ≡ some next
  pub recorded :
      next.records ≡ progress.records ++ approval (length progress.records + 1) approver now ∷ []
  pub status : after.status ≡ (if final then approved else before.status)
  pub was_pending : final ≡ true → before.status ≡ pending_approval

-- Approving an expense, if it succeeds: the expense was the organization's and its period open, and the
-- engine accepted the approval on the progress that was found. Afterwards the id finds the expense
-- approved in a final approval, for which it was waiting, and with the status that it had otherwise;
-- its progress is found with this approval as one more record. Other ids find the expenses that they
-- found, and no period is written. (The stored date is a day, and the stored steps and records are
-- numbered from 1 without a gap.)
pub approve_expense-eq-ok :
    (id org approver : String) (now : ℕ) (db db' : Database)
    → HasDay id db
    → HasProgress id db
    → approve_expense id org approver now db ≡ ok db'
    → Approves org id approver now db db'
approve_expense-eq-ok id org approver now db db' day has h =
    let e = approve_expense_effect id org approver now db db' h in
    let (after, replaces, status) = touched day e.touches in
    let (_, _, _, next, _) =
      record_approval-eq-ok db.roles (expense_to_approvable (reconstitute e.row)) e.before approver
        now e.accepted in
    record {
      before = e.row;
      after = after;
      replaces = replaces;
      progress = e.before;
      next = e.after;
      final = e.final;
      progress_before = e.progress;
      accepted = e.accepted;
      progress_after =
          grown_found id db db' e.before e.after _ has e.progress next refl e.approvals;
      recorded = ap (λ (p : ApprovalProgress). p.records) next;
      status = status ∙ e.status;
      was_pending = e.was_pending;
    }

-- What rejecting leaves to be found.
pub record Rejects (org id approver reason : String) (now : ℕ) (db db' : Database) : Type 0 where
  pub before : ExpenseProps
  pub after : ExpenseProps
  pub replaces : Replaces org id db db' before after
  pub progress : ApprovalProgress
  pub next : ApprovalProgress
  pub progress_before : find_by_item_id id db ≡ some progress
  pub accepted :
      Engine.record_rejection db.roles
        (expense_to_approvable (reconstitute before))
        progress
        approver
        reason
        now
      ≡ ok next
  pub progress_after : find_by_item_id id db' ≡ some next
  pub recorded :
      next.records
      ≡ progress.records ++ rejection (length progress.records + 1) approver reason now ∷ []
  pub was_pending : before.status ≡ pending_approval
  pub status : after.status ≡ rejected

-- Rejecting an expense, if it succeeds: the expense was the organization's, in an open period and
-- waiting for approval, and the engine accepted the rejection on the progress that was found. Afterwards
-- the id finds the expense rejected, and its progress with this rejection as one more record. Other ids
-- find the expenses that they found, and no period is written. (The stored date is a day, and the stored
-- steps and records are numbered from 1 without a gap.)
pub reject_expense-eq-ok :
    (id org approver reason : String) (now : ℕ) (db db' : Database)
    → HasDay id db
    → HasProgress id db
    → reject_expense id org approver reason now db ≡ ok db'
    → Rejects org id approver reason now db db'
reject_expense-eq-ok id org approver reason now db db' day has h =
    let e = reject_expense_effect id org approver reason now db db' h in
    let (after, replaces, status) = touched day e.touches in
    let (_, next) =
      record_rejection-eq-ok db.roles (expense_to_approvable (reconstitute e.row)) e.before approver
        reason now e.accepted in
    record {
      before = e.row;
      after = after;
      replaces = replaces;
      progress = e.before;
      next = e.after;
      progress_before = e.progress;
      accepted = e.accepted;
      progress_after =
          grown_found id db db' e.before e.after _ has e.progress next refl e.approvals;
      recorded = ap (λ (p : ApprovalProgress). p.records) next;
      was_pending = e.was_pending;
      status = status ∙ e.status;
    }

find_row-append_new :
    (id : String) (rows : List ApprovalRow) (new : ApprovalRow)
    → Approvals.is_stored id rows ≡ false
    → new.item_id ≡ id
    → Approvals.find_row id (rows ++ new ∷ []) ≡ some new
unfolding Approvals.find_row
find_row-append_new id [] new h e = let f = eq_iff new.item_id id in ground arith
find_row-append_new id (r ∷ rows) new h e =
    let rest = find_row-append_new id rows new in ground arith

-- What submitting leaves to be found.
pub record Submits (org id : String) (db db' : Database) : Type 0 where
  pub before : ExpenseProps
  pub after : ExpenseProps
  pub replaces : Replaces org id db db' before after
  pub was_draft : before.status ≡ draft
  pub is_pending : after.status ≡ pending_approval
  pub progress_after :
      find_by_item_id id db'
      ≡ some (record {
        item_id = id;
        chain = resolve_expense_chain (expense_to_approvable (reconstitute before));
        records = [];
      })

-- Submitting an expense, if it succeeds: the expense was a draft of the caller's organization in a
-- period that is open. Afterwards the id finds it waiting for approval, and its progress on the chain
-- that the policy asks for its amount, with nothing recorded. Other ids find the expenses that they
-- found, and no period is written. (The stored date is a day.)
pub submit_expense-eq-ok :
    (id org : String) (now : ℕ) (db db' : Database)
    → HasDay id db
    → submit_expense id org now db ≡ ok db'
    → Submits org id db db'
unfolding find_by_item_id
submit_expense-eq-ok id org now db db' day h =
    let e = submit_expense_effect id org now db db' h in
    let (after, replaces, status) = touched day e.touches in
    let item = expense_to_approvable (reconstitute e.row) in
    let (contiguous, _) = resolve_expense_chain-IsContiguous item in
    let new : ApprovalRow = new_row id (resolve_expense_chain item) in
    record {
      before = e.row;
      after = after;
      replaces = replaces;
      was_draft = e.was_draft;
      is_pending = status ∙ e.is_pending;
      progress_after =
          found_progress id db' new
            (ap (Approvals.find_row id) e.approvals
              ∙ find_row-append_new id db.approvals new e.was_free refl)
            contiguous tt;
    }
