-- ===== src/Expense/Aggregate.antt =====
-- contexts/expense/domain/aggregates/expense.aggregate.ts. A method that mutates the aggregate
-- returns the new one, or throws and changes nothing. `new_id` is what `randomUUID()` returns and
-- `now` what `new Date()` returns, in milliseconds; all dates are such numbers.
-- The events are as the aggregate gives them to `recordEvent`, without the `changes` that this adds
-- for an aggregate that was read back (Events.Diff).
use ratel_financial_platform.Prelude.{
  ℕ, String, Bool, not, ◌||◌, Option, none, some, List, [], ◌∷◌, ◌++◌, if◌then◌else◌,
}
use ratel_financial_platform.Prelude.Int.{ℤ, pos, ltb_ℤ}
use ratel_financial_platform.Prelude.Texts.{trim, is_empty_text, concat}
use ratel_financial_platform.Errors.{
  Result, ok, ◌>>=◌, ◌>>◌, throw_if, range_error, adjustment_reason_required,
  invalid_adjustment_amount, no_op_adjustment, expense_not_mutable, invalid_state_transition,
}
use ratel_financial_platform.Money
use ratel_financial_platform.Money.{Money, is_zero, is_negative, negate, currency_name}
use ratel_financial_platform.Events.{DomainEvent}
use ratel_financial_platform.Expense.Status.{
  ExpenseStatus, draft, pending_approval, approved, rejected, cancelled, status_name, includes,
  mutable_statuses, ExpenseSource,
}
use ratel_financial_platform.Expense.Events.{
  expense_drafted, expense_submitted_for_approval, expense_approved, expense_rejected,
  expense_cancelled, expense_adjustment_created,
}

pub record ExpenseProps : Type 0 where
  pub id : String
  pub organization_id : String
  pub expense_number : String
  pub status : ExpenseStatus
  pub source : ExpenseSource
  pub amount : Money
  pub category_id : String
  pub vendor_id : Option String
  pub department_id : String
  pub project_id : Option String
  pub period_id : String
  pub parent_expense_id : Option String
  pub adjustment_reason : Option String
  pub expense_date : ℕ
  pub description : Option String
  pub created_at : ℕ
  pub updated_at : ℕ

-- The aggregate: its properties and the events recorded since it was loaded.
pub record Expense : Type 0 where
  pub props : ExpenseProps
  pub events : List DomainEvent

pub record CreateInput : Type 0 where
  pub organization_id : String
  pub expense_number : String
  pub source : ExpenseSource
  pub amount : Money
  pub category_id : String
  pub vendor_id : Option String
  pub department_id : String
  pub project_id : Option String
  pub period_id : String
  pub expense_date : ℕ
  pub description : Option String

unfoldable pub create : CreateInput → String → ℕ → Result Expense
create input new_id now = do
  throw_if (is_zero input.amount || is_negative input.amount) range_error
  ok (record {
    props = record {
      id = new_id;
      organization_id = input.organization_id;
      expense_number = input.expense_number;
      status = draft;
      source = input.source;
      amount = input.amount;
      category_id = input.category_id;
      vendor_id = input.vendor_id;
      department_id = input.department_id;
      project_id = input.project_id;
      period_id = input.period_id;
      parent_expense_id = none;
      adjustment_reason = none;
      expense_date = input.expense_date;
      description = input.description;
      created_at = now;
      updated_at = now;
    };
    events = expense_drafted new_id input.organization_id input.source ∷ [];
  })

pub record AdjustmentInput : Type 0 where
  pub original : Expense
  pub reason : String
  pub current_open_period_id : String
  pub expense_number : String
  pub new_amount_minor_units : ℤ
  pub requires_approval : Bool

-- The properties of the adjustment row; its amount is the delta.
abbrev pub adjustment_props : AdjustmentInput → Money → String → ℕ → ExpenseProps
adjustment_props input delta new_id now = record {
  id = new_id;
  organization_id = input.original.props.organization_id;
  expense_number = input.expense_number;
  status = if input.requires_approval then pending_approval else approved;
  source = input.original.props.source;
  amount = delta;
  category_id = input.original.props.category_id;
  vendor_id = input.original.props.vendor_id;
  department_id = input.original.props.department_id;
  project_id = input.original.props.project_id;
  period_id = input.current_open_period_id;
  parent_expense_id = some input.original.props.id;
  adjustment_reason = some input.reason;
  expense_date = now;
  description =
      some (
        concat
          ("Adjustment for " ∷ input.original.props.expense_number ∷ ": " ∷ input.reason ∷ []));
  created_at = now;
  updated_at = now;
}

abbrev pub adjustment_events : AdjustmentInput → String → List DomainEvent
adjustment_events input new_id =
    expense_adjustment_created new_id input.original.props.organization_id input.original.props.id
      input.reason
    ∷ (if input.requires_approval
        then expense_submitted_for_approval new_id input.original.props.organization_id ∷ []
        else [])

unfoldable pub create_adjustment : AdjustmentInput → String → ℕ → Result Expense
create_adjustment input new_id now = do
  throw_if (is_empty_text (trim input.reason)) adjustment_reason_required
  throw_if (ltb_ℤ input.new_amount_minor_units (pos 0)) invalid_adjustment_amount
  new_amount ←
      Money.of input.new_amount_minor_units (currency_name input.original.props.amount.currency)
  delta ← Money.add new_amount (negate input.original.props.amount)
  throw_if (is_zero delta) (no_op_adjustment input.original.props.id)
  ok (record {
    props = adjustment_props input delta new_id now;
    events = adjustment_events input new_id;
  })

unfoldable pub reconstitute : ExpenseProps → Expense
reconstitute props = record { props = props; events = [] }

-- The fields that `update` may change, each only if it is given.
pub record Changes : Type 0 where
  pub amount : Option Money
  pub category_id : Option String
  pub vendor_id : Option (Option String)
  pub project_id : Option (Option String)
  pub description : Option (Option String)

abbrev given {ℓ} : {A : Type ℓ} → Option A → A → A
given none old = old
given (some a) old = a

abbrev pub assign : Changes → ℕ → ExpenseProps → ExpenseProps
assign c now p = record p {
  amount = given c.amount p.amount;
  category_id = given c.category_id p.category_id;
  vendor_id = given c.vendor_id p.vendor_id;
  project_id = given c.project_id p.project_id;
  description = given c.description p.description;
  updated_at = now;
}

unfoldable pub update : Changes → ℕ → Expense → Result Expense
update changes now e = do
  throw_if (not (includes mutable_statuses e.props.status))
      (expense_not_mutable e.props.id (status_name e.props.status))
  ok (record e { props = assign changes now e.props })

unfoldable pub assert_transition : ExpenseStatus → List ExpenseStatus → Expense → Result (Unit {0})
assert_transition to allowed_from e =
    throw_if (not (includes allowed_from e.props.status))
      (invalid_state_transition "Expense" (status_name e.props.status) (status_name to))

-- The assignments and the event that follow a legal transition.
abbrev pub enter : ExpenseStatus → ℕ → DomainEvent → Expense → Expense
enter to now event e = record {
  props = record (e.props) { status = to; updated_at = now };
  events = e.events ++ event ∷ [];
}

unfoldable pub submit_for_approval : ℕ → Expense → Result Expense
unfolding assert_transition
submit_for_approval now e = do
  assert_transition pending_approval (draft ∷ []) e
  ok (
      enter pending_approval now (expense_submitted_for_approval e.props.id e.props.organization_id)
        e)

unfoldable pub approve : String → ℕ → Expense → Result Expense
unfolding assert_transition
approve approver now e = do
  assert_transition approved (pending_approval ∷ []) e
  ok (enter approved now (expense_approved e.props.id e.props.organization_id approver) e)

unfoldable pub reject : String → String → ℕ → Expense → Result Expense
unfolding assert_transition
reject approver reason now e = do
  assert_transition rejected (pending_approval ∷ []) e
  ok (enter rejected now (expense_rejected e.props.id e.props.organization_id approver reason) e)

unfoldable pub cancel : String → ℕ → Expense → Result Expense
unfolding assert_transition
cancel actor now e = do
  assert_transition cancelled (draft ∷ pending_approval ∷ []) e
  ok (enter cancelled now (expense_cancelled e.props.id e.props.organization_id actor) e)
