-- ===== src/Tests/Creations.antt =====
-- An expense is created, and another one corrected.
use ratel_financial_platform.Prelude.{◌≡◌, refl, none, String}
use ratel_financial_platform.Prelude.Int.{pos, neg, ◌+ℤ◌}
use ratel_financial_platform.Prelude.Texts.{trim, is_empty_text}
use ratel_financial_platform.Errors.{ok}
use ratel_financial_platform.Money
use ratel_financial_platform.Money.{ngn}
use ratel_financial_platform.Workflow.Policies
use ratel_financial_platform.Workflow.Policies.{step}
use ratel_financial_platform.Expense.Status.{draft, employee}
use ratel_financial_platform.Expense.Aggregate
use ratel_financial_platform.Expense.Aggregate.{ExpenseProps}
use ratel_financial_platform.Period
use ratel_financial_platform.Period.{PeriodProps, PeriodStatus, open_status, closed}
use ratel_financial_platform.Database
use ratel_financial_platform.Database.{Database, ReferenceRow, ApprovalRow}
use ratel_financial_platform.Database.Expenses
use ratel_financial_platform.Database.Periods
use ratel_financial_platform.Handlers.Expenses.{
  CreateExpenseCommand, CreateAdjustmentCommand, create_expense, create_adjustment, load,
}
use ratel_financial_platform.Handlers.Expenses.Filed.{
  IsFiled, create_expense-eq-ok, Corrects, create_adjustment-eq-ok,
}
use ratel_financial_platform.Tests.Books.{books, left_with}

abbrev dinner : CreateExpenseCommand
dinner = record {
  organization_id = "org";
  source = record { kind = employee; actor_id = "ann"; import_job_id = none };
  amount_minor_units = pos 70_000;
  currency = "NGN";
  category_id = "meals";
  department_id = "sales";
  expense_date = 90_000_000;
  vendor_id = none;
  project_id = none;
  description = none;
}

abbrev created : (String × String) × Database
created = left_with ("", "") (create_expense dinner "e5" 9 books)

creates : create_expense dinner "e5" 9 books ≡ ok created
unfolding create_expense Database.has_active Money.of Money.supported_currency Money.is_zero
    Money.is_negative Aggregate.create Periods.current_open_period Periods.find_current_open
    Periods.latest Period.reconstitute Expenses.next_expense_number Expenses.take_number
    Expenses.number_text Expenses.save Expenses.is_stored Expenses.is_number_taken
creates = refl

fifth_free : Expenses.find_row "e5" books.expenses ≡ none
unfolding Expenses.find_row
fifth_free = refl

create_expense-eq-ok_example :
    (after : ExpenseProps) × IsFiled "org" "e5" books created.1 after × (after.status ≡ draft)
create_expense-eq-ok_example = create_expense-eq-ok dinner "e5" 9 books created fifth_free creates

abbrev correction : CreateAdjustmentCommand
correction = record {
  original_expense_id = "e3";
  organization_id = "org";
  new_amount_minor_units = pos 20_000;
  reason = "typo";
}

abbrev corrected : String × Database
corrected = left_with "" (create_adjustment correction "e5" 9 books)

corrects : create_adjustment correction "e5" 9 books ≡ ok corrected
unfolding create_adjustment load Money.of Money.supported_currency Money.add Money.negate
    Money.is_zero neg ◌+ℤ◌ trim is_empty_text Aggregate.create_adjustment Aggregate.reconstitute
    Policies.requires_approval Periods.current_open_period Periods.find_current_open Periods.latest
    Period.reconstitute Expenses.find_by_id Expenses.find_row Expenses.next_expense_number
    Expenses.take_number Expenses.number_text Expenses.save Expenses.is_stored
    Expenses.is_number_taken
corrects = refl

create_adjustment-eq-ok_example : Corrects correction "e5" books corrected.1
create_adjustment-eq-ok_example =
    create_adjustment-eq-ok correction "e5" 9 books corrected fifth_free corrects
