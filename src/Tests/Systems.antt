-- ===== src/Tests/Systems.antt =====
-- Commands on the database.
use ratel_financial_platform.Prelude.{◌≡◌, refl, ◌≢◌, inr, some, eq_iff}
use ratel_financial_platform.Errors.{ok, entity_not_found}
use ratel_financial_platform.Workflow.Chain
use ratel_financial_platform.Workflow.Engine
use ratel_financial_platform.Workflow.Progress
use ratel_financial_platform.Workflow.Policies
use ratel_financial_platform.Workflow.Policies.{step}
use ratel_financial_platform.Workflow.Chain.{department}
use ratel_financial_platform.Workflow.Roles.{get_roles_for_user}
use ratel_financial_platform.Expense.Status.{pending_approval, draft, approved}
use ratel_financial_platform.Expense.Aggregate
use ratel_financial_platform.Expense.Aggregate.{ExpenseProps}
use ratel_financial_platform.Period
use ratel_financial_platform.Period.{PeriodProps, PeriodStatus, open_status, closed}
use ratel_financial_platform.Database.{Database}
use ratel_financial_platform.Database.Expenses
use ratel_financial_platform.Database.Periods
use ratel_financial_platform.Database.Approvals
use ratel_financial_platform.Handlers.Expenses.{
  submit_expense, approve_expense, reject_expense, load, assert_period_open, commit,
  route_submitted, expense_to_approvable,
}
use ratel_financial_platform.Handlers.Expenses.Outcomes.{
  HasDay, HasProgress, Submits, submit_expense-eq-ok, Approves, approve_expense-eq-ok, Rejects,
  reject_expense-eq-ok,
}
use ratel_financial_platform.Handlers.Expenses.Refusals.{AllRefuse, not_found_refused}
use ratel_financial_platform.Handlers.System.{
  submit_expense_command, execute, organization_of, Steps, unchanged, commits,
}
use ratel_financial_platform.Handlers.System.Effect.{Reopens}
use ratel_financial_platform.Handlers.System.Tenants.{tenants_isolated}
use ratel_financial_platform.Handlers.System.ClosedBooks.{IsClosed, shut_books_frozen}
use ratel_financial_platform.Tests.Books.{period, expense, waiting, books, left}

submits : submit_expense "e1" "org" 9 books ≡ ok (left (submit_expense "e1" "org" 9 books))
unfolding submit_expense load assert_period_open commit route_submitted expense_to_approvable
    Expenses.find_by_id Expenses.find_row Expenses.save Expenses.upsert Expenses.is_stored
    Periods.period_is_open Periods.find_by_id Periods.find_row Period.is_open Period.reconstitute
    Approvals.initialize Aggregate.reconstitute Aggregate.submit_for_approval
    Policies.resolve_expense_chain Policies.absolute_amount Chain.of Chain.is_empty
submits = refl

first_day : HasDay "e1" books
unfolding Expenses.find_row
first_day = record { row = expense "e1" "org" draft "p2"; found = refl; day = refl }

second_day : HasDay "e2" books
unfolding Expenses.find_row
second_day = record { row = expense "e2" "org" pending_approval "p2"; found = refl; day = refl }

second_progress : HasProgress "e2" books
unfolding Approvals.find_row
second_progress = record { row = waiting; found = refl; contiguous = (refl, tt); numbered = tt }

submit_expense-eq-ok_example : Submits "org" "e1" books (left (submit_expense "e1" "org" 9 books))
submit_expense-eq-ok_example =
    submit_expense-eq-ok "e1" "org" 9 books (left (submit_expense "e1" "org" 9 books)) first_day
      submits

approves :
    approve_expense "e2" "org" "bob" 9 books ≡ ok (left (approve_expense "e2" "org" "bob" 9 books))
unfolding approve_expense load assert_period_open commit expense_to_approvable Expenses.find_by_id
    Expenses.find_row Expenses.save Expenses.upsert Expenses.is_stored Periods.period_is_open
    Periods.find_by_id Periods.find_row Period.is_open Period.reconstitute Approvals.find_by_item_id
    Approvals.find_row Approvals.by_step_order Approvals.save Aggregate.reconstitute
    Aggregate.approve Chain.of Engine.record_approval Engine.assert_holds_current_step_role
    Engine.holds_required_role Engine.already_approved Progress.record_approval
    Progress.current_step_requirement get_roles_for_user Chain.step_at Chain.is_last_step
    Chain.max_order
approves = refl

approve_expense-eq-ok_example :
    Approves "org" "e2" "bob" 9 books (left (approve_expense "e2" "org" "bob" 9 books))
approve_expense-eq-ok_example =
    approve_expense-eq-ok "e2" "org" "bob" 9 books (left (approve_expense "e2" "org" "bob" 9 books))
      second_day second_progress approves

rejects :
    reject_expense "e2" "org" "bob" "no" 9 books
    ≡ ok (left (reject_expense "e2" "org" "bob" "no" 9 books))
unfolding reject_expense load assert_period_open commit expense_to_approvable Expenses.find_by_id
    Expenses.find_row Expenses.save Expenses.upsert Expenses.is_stored Periods.period_is_open
    Periods.find_by_id Periods.find_row Period.is_open Period.reconstitute Approvals.find_by_item_id
    Approvals.find_row Approvals.by_step_order Approvals.save Aggregate.reconstitute
    Aggregate.reject Chain.of Engine.record_rejection Engine.assert_holds_current_step_role
    Engine.holds_required_role Progress.record_rejection Progress.current_step_requirement
    get_roles_for_user Chain.step_at
rejects = refl

reject_expense-eq-ok_example :
    Rejects "org" "e2" "bob" "no" 9 books (left (reject_expense "e2" "org" "bob" "no" 9 books))
reject_expense-eq-ok_example =
    reject_expense-eq-ok "e2" "org" "bob" "no" 9 books
      (left (reject_expense "e2" "org" "bob" "no" 9 books)) second_day second_progress rejects

third_found : Expenses.find_row "e3" books.expenses ≡ some (expense "e3" "org" approved "p1")
unfolding Expenses.find_row
third_found = refl

fourth_found : Expenses.find_row "e4" books.expenses ≡ some (expense "e4" "else" draft "p3")
unfolding Expenses.find_row
fourth_found = refl

books_shut : IsClosed "p1" books
unfolding Periods.find_row
books_shut = record { row = period "p1" closed; found = refl; status = refl }

abbrev after_submit : Database
after_submit = left (submit_expense "e1" "org" 9 books)

one_submit : Steps (λ c. ¬ Reopens "p1" c) books after_submit
unfolding execute
one_submit = commits unchanged (submit_expense_command "e1" "org" 9) (λ r. r) tt submits

one_submit_elsewhere : Steps (λ c. organization_of c ≢ "else") books after_submit
unfolding execute
one_submit_elsewhere =
    commits unchanged (submit_expense_command "e1" "org" 9)
      (λ e. let t = (eq_iff "org" "else").1 e in cc) tt submits

not_found_refused_example : AllRefuse "e4" "org" books (entity_not_found "Expense" "e4")
not_found_refused_example = not_found_refused "e4" "org" books (
    inr
      (expense "e4" "else" draft "p3", fourth_found, λ e. let t = (eq_iff "else" "org").1 e in cc))

shut_books_frozen_example :
    IsClosed "p1" after_submit
    × (Expenses.find_row "e3" after_submit.expenses ≡ some (expense "e3" "org" approved "p1"))
shut_books_frozen_example =
    shut_books_frozen "p1" books after_submit "e3" (expense "e3" "org" approved "p1") refl
      one_submit books_shut third_found

tenants_isolated_example :
    Expenses.find_row "e4" after_submit.expenses ≡ some (expense "e4" "else" draft "p3")
tenants_isolated_example =
    tenants_isolated "else" books after_submit "e4" (expense "e4" "else" draft "p3") refl
      one_submit_elsewhere fourth_found
