-- ===== src/Tests/Acceptances.antt =====
-- A draft that can be submitted, and a pending expense that can be approved.
use ratel_financial_platform.Prelude.{◌≡◌, refl, some, [], ◌∷◌}
use ratel_financial_platform.Errors.{ok}
use ratel_financial_platform.Workflow.Chain
use ratel_financial_platform.Workflow.Engine
use ratel_financial_platform.Workflow.Progress
use ratel_financial_platform.Expense.Status.{draft}
use ratel_financial_platform.Expense.Aggregate
use ratel_financial_platform.Expense.Aggregate.{ExpenseProps}
use ratel_financial_platform.Period
use ratel_financial_platform.Period.{PeriodProps, PeriodStatus, open_status, closed}
use ratel_financial_platform.Database.{Database}
use ratel_financial_platform.Database.Expenses
use ratel_financial_platform.Database.Periods
use ratel_financial_platform.Database.Approvals
use ratel_financial_platform.Database.Approvals.Laws.{save_found_again}
use ratel_financial_platform.Handlers.Expenses.{submit_expense}
use ratel_financial_platform.Handlers.Expenses.Acceptance.{submit_expense_accepts}
use ratel_financial_platform.Tests.Books.{expense, waiting, books}

abbrev bob_signs : Progress.ApprovalRecord
bob_signs = Progress.approval 1 "bob" 9

abbrev signed : Progress.ApprovalProgress
signed = record { item_id = "e2"; chain = waiting.chain; records = bob_signs ∷ [] }

waiting_found : Approvals.find_row "e2" books.approvals ≡ some waiting
unfolding Approvals.find_row
waiting_found = refl

save_found_again_example :
    (db' : Database) × (Approvals.save "e2" signed books ≡ ok db')
    × (Approvals.find_by_item_id "e2" db' ≡ some signed)
save_found_again_example =
    save_found_again "e2" books waiting bob_signs signed waiting_found (refl, tt) tt refl refl

submit_expense_accepts_example : (db' : Database) × (submit_expense "e1" "org" 9 books ≡ ok db')
unfolding Expenses.find_row Periods.period_is_open Periods.find_by_id Periods.find_row
    Period.is_open Period.reconstitute
submit_expense_accepts_example =
    submit_expense_accepts "e1" "org" 9 books (expense "e1" "org" draft "p2") refl refl refl refl
      refl refl

abbrev unsigned : Progress.ApprovalProgress
unsigned = record { item_id = "e2"; chain = waiting.chain; records = [] }
