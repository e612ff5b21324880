-- ===== src/Handlers/Expenses.antt =====
-- contexts/expense/application: handlers/{create-expense, submit-expense, approve-expense,
-- reject-expense, cancel-expense, create-adjustment}.handler.ts and
-- mappers/expense-to-approvable.mapper.ts.
pub mod Laws
pub mod Creation
pub mod Submission
pub mod Decisions
pub mod Refusals
pub mod Outcomes
pub mod Filed
pub mod Acceptance
use ratel_financial_platform.Prelude.{
  ℕ, String, Bool, true, false, not, Option, none, some, List, str_eq, if◌then◌else◌,
}
use ratel_financial_platform.Prelude.Int.{ℤ}
use ratel_financial_platform.Prelude.Texts.{is_empty_text}
use ratel_financial_platform.Errors.{
  Result, ok, err, ◌>>=◌, ◌>>◌, throw_if, or_throw, entity_not_found, period_closed, no_open_period,
  inactive_or_missing_reference_data,
}
use ratel_financial_platform.Money
use ratel_financial_platform.Workflow.Chain.{ApprovalChain, is_empty}
use ratel_financial_platform.Workflow.Engine
use ratel_financial_platform.Workflow.Engine.{Approvable}
use ratel_financial_platform.Workflow.Policies.{resolve_expense_chain, requires_approval}
use ratel_financial_platform.Expense.Status.{ExpenseSource}
use ratel_financial_platform.Expense.Aggregate
use ratel_financial_platform.Expense.Aggregate.{Expense, ExpenseProps}
use ratel_financial_platform.Database.{Database, ReferenceRow, has_active, enqueue}
use ratel_financial_platform.Database.Expenses
use ratel_financial_platform.Database.Expenses.{next_expense_number}
use ratel_financial_platform.Database.Periods.{current_open_period, period_is_open}
use ratel_financial_platform.Database.Approvals

unfoldable pub expense_to_approvable : Expense → Approvable
expense_to_approvable e = record {
  id = e.props.id;
  organization_id = e.props.organization_id;
  department_id = some e.props.department_id;
  requester_id = e.props.source.actor_id;
  amount_minor_units = e.props.amount.minor_units;
}

pub record CreateExpenseCommand : Type 0 where
  pub organization_id : String
  pub source : ExpenseSource
  pub amount_minor_units : ℤ
  pub currency : String
  pub category_id : String
  pub department_id : String
  pub expense_date : ℕ
  pub vendor_id : Option String
  pub project_id : Option String
  pub description : Option String

-- `if (id) { … if (!row) throw … }`: neither a missing nor an empty id is looked up.
abbrev pub assert_active : String → List ReferenceRow → String → Option String → Result (Unit {0})
assert_active what rows org none = ok tt
assert_active what rows org (some id) =
    throw_if (if is_empty_text id then false else not (has_active rows id org))
      (inactive_or_missing_reference_data what id)

abbrev pub create_input :
    CreateExpenseCommand → String → Money.Money → String → Aggregate.CreateInput
create_input cmd number amount period_id = record {
  organization_id = cmd.organization_id;
  expense_number = number;
  source = cmd.source;
  amount = amount;
  category_id = cmd.category_id;
  vendor_id = cmd.vendor_id;
  department_id = cmd.department_id;
  project_id = cmd.project_id;
  period_id = period_id;
  expense_date = cmd.expense_date;
  description = cmd.description;
}

-- `CreateExpenseHandler.execute`
unfoldable pub create_expense :
    CreateExpenseCommand → String → ℕ → Database → Result ((String × String) × Database)
create_expense cmd new_id now db = do
  let org = cmd.organization_id
  period_id ← or_throw (current_open_period org db) (no_open_period org)
  throw_if (not (has_active db.departments cmd.department_id org))
      (inactive_or_missing_reference_data "Department" cmd.department_id)
  throw_if (not (has_active db.categories cmd.category_id org))
      (inactive_or_missing_reference_data "ExpenseCategory" cmd.category_id)
  assert_active "Vendor" db.vendors org cmd.vendor_id
  assert_active "Project" db.projects org cmd.project_id
  let numbered = next_expense_number org db
  amount ← Money.of cmd.amount_minor_units cmd.currency
  e ← Aggregate.create (create_input cmd numbered.0 amount period_id) new_id now
  saved ← Expenses.save e numbered.1
  ok ((e.props.id, e.props.expense_number), enqueue e.events saved)

-- `findById`, and `EntityNotFoundError` unless the row is there and of this organization
unfoldable pub load : String → String → Database → Result Expense
load expense_id org db = do
  e ← or_throw (Expenses.find_by_id expense_id db) (entity_not_found "Expense" expense_id)
  throw_if (not (str_eq e.props.organization_id org)) (entity_not_found "Expense" expense_id)
  ok e

-- `if (!isOpen) throw new PeriodClosedError(expense.periodId)`
unfoldable pub assert_period_open : String → Expense → Database → Result (Unit {0})
assert_period_open org e db =
    throw_if (not (period_is_open org e.props.period_id db)) (period_closed e.props.period_id)

-- `repo.save` and `outbox.enqueue(expense.pullDomainEvents())`
unfoldable pub commit : Expense → Database → Result Database
commit e db = do saved ← Expenses.save e db; ok (enqueue e.events saved)

-- An empty chain approves the expense at once, any other starts a progress.
unfoldable pub route_submitted :
    ApprovalChain → ℕ → Expense → Database → Result (Expense × Database)
route_submitted chain now e db = elim (is_empty chain) [
  | true ↦ Aggregate.approve "system-auto-approval" now e >>= λ e'. ok (e', db)
  | false ↦ Approvals.initialize e.props.id "Expense" chain db >>= λ db'. ok (e, db')
]

-- `SubmitExpenseHandler.execute`
unfoldable pub submit_expense : String → String → ℕ → Database → Result Database
submit_expense expense_id org now db = do
  e ← load expense_id org db
  assert_period_open org e db
  sent ← Aggregate.submit_for_approval now e
  routed ← route_submitted (resolve_expense_chain (expense_to_approvable e)) now sent db
  commit routed.0 routed.1

-- `if (isFinalApproval) expense.approve(…)`
abbrev pub approve_if : Bool → String → ℕ → Expense → Result Expense
approve_if true approver now e = Aggregate.approve approver now e
approve_if false approver now e = ok e

-- `ApproveExpenseHandler.execute`
unfoldable pub approve_expense : String → String → String → ℕ → Database → Result Database
approve_expense expense_id org approver now db = do
  e ← load expense_id org db
  assert_period_open org e db
  progress ←
      or_throw (Approvals.find_by_item_id e.props.id db)
        (entity_not_found "ApprovalProgress" e.props.id)
  recorded ← Engine.record_approval db.roles (expense_to_approvable e) progress approver now
  approved ← approve_if recorded.1 approver now e
  flushed ← Approvals.save e.props.id recorded.0 db
  commit approved flushed

-- `RejectExpenseHandler.execute`
unfoldable pub reject_expense : String → String → String → String → ℕ → Database → Result Database
reject_expense expense_id org approver reason now db = do
  e ← load expense_id org db
  assert_period_open org e db
  progress ←
      or_throw (Approvals.find_by_item_id e.props.id db)
        (entity_not_found "ApprovalProgress" e.props.id)
  recorded ← Engine.record_rejection db.roles (expense_to_approvable e) progress approver reason now
  rejected ← Aggregate.reject approver reason now e
  flushed ← Approvals.save e.props.id recorded db
  commit rejected flushed

-- `CancelExpenseHandler.execute`
unfoldable pub cancel_expense : String → String → String → ℕ → Database → Result Database
cancel_expense expense_id org actor now db = do
  e ← load expense_id org db
  assert_period_open org e db
  cancelled ← Aggregate.cancel actor now e
  commit cancelled db

pub record CreateAdjustmentCommand : Type 0 where
  pub original_expense_id : String
  pub organization_id : String
  pub new_amount_minor_units : ℤ
  pub reason : String

-- A progress is started if the adjustment requires approval.
abbrev pub initialize_if : Bool → Expense → Database → Result Database
initialize_if true a db =
    Approvals.initialize a.props.id "Expense" (resolve_expense_chain (expense_to_approvable a)) db
initialize_if false a db = ok db

-- `CreateAdjustmentHandler.execute`
unfoldable pub create_adjustment :
    CreateAdjustmentCommand → String → ℕ → Database → Result (String × Database)
create_adjustment cmd new_id now db = do
  let org = cmd.organization_id
  period_id ← or_throw (current_open_period org db) (no_open_period org)
  original ← load cmd.original_expense_id org db
  let needed =
      requires_approval cmd.new_amount_minor_units original.props.amount.minor_units cmd.reason
  let numbered = next_expense_number org db
  a ←
      Aggregate.create_adjustment
        (record {
          original = original;
          reason = cmd.reason;
          current_open_period_id = period_id;
          expense_number = numbered.0;
          new_amount_minor_units = cmd.new_amount_minor_units;
          requires_approval = needed;
        })
        new_id now
  saved ← Expenses.save a numbered.1
  started ← initialize_if needed a saved
  ok (a.props.id, enqueue a.events started)
