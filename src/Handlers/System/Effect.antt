-- ===== src/Handlers/System/Effect.antt =====
-- The three ways in which a command that succeeds changes the tables of expenses and periods.
use ratel_financial_platform.Prelude.{String, none, ◌≡◌, refl}
use ratel_financial_platform.Errors.{ok, >>=-eq-ok, ok-injective}
use ratel_financial_platform.Expense.Aggregate.{ExpenseProps}
use ratel_financial_platform.Period.{PeriodProps, closed}
use ratel_financial_platform.Database.{Database}
use ratel_financial_platform.Database.Expenses
use ratel_financial_platform.Database.Periods
use ratel_financial_platform.Handlers.Expenses.{create_expense, create_adjustment}
use ratel_financial_platform.Handlers.Expenses.Laws.{Touches}
use ratel_financial_platform.Handlers.Expenses.Creation.{
  Files, create_expense_effect, create_adjustment_effect,
}
use ratel_financial_platform.Handlers.Expenses.Submission.{submit_expense_effect}
use ratel_financial_platform.Handlers.Expenses.Decisions.{
  approve_expense_effect, reject_expense_effect, cancel_expense-eq-ok,
}
use ratel_financial_platform.Handlers.Periods.{open_period}
use ratel_financial_platform.Handlers.Periods.Laws.{
  Stores, open_period-eq-ok, close_period-eq-ok, reopen_period-eq-ok,
}
use ratel_financial_platform.Handlers.System.{
  Command, create_expense_command, submit_expense_command, approve_expense_command,
  reject_expense_command, cancel_expense_command, create_adjustment_command, open_period_command,
  close_period_command, reopen_period_command, execute, organization_of, IsFresh,
}

-- The command reopens this period.
abbrev pub Reopens : String → Command → Type 0
Reopens id (reopen_period_command p _ _ _) = p ≡ id
Reopens id _ = ⊥

pub data Effect (c : Command) (db db' : Database) : Type 0 where
  files :
      {id : String} {p : ExpenseProps}
      → Expenses.find_row id db.expenses ≡ none
      → Files (organization_of c) id db db' p
      → Effect c db db'
  touches :
      {id : String} {row p : ExpenseProps}
      → Touches (organization_of c) id db db' row p
      → Effect c db db'
  opens :
      {id : String} {p : PeriodProps}
      → Periods.find_row id db.periods ≡ none
      → Stores id (organization_of c) db db' p
      → Effect c db db'
  closes :
      {id : String} {p : PeriodProps}
      → p.status ≡ closed
      → Stores id (organization_of c) db db' p
      → Effect c db db'
  reopens :
      {id : String} {p : PeriodProps}
      → Reopens id c
      → Stores id (organization_of c) db db' p
      → Effect c db db'

-- Every command that succeeds has one of these effects.
pub execute-Effect :
    (c : Command) (db db' : Database) → IsFresh c db → execute c db ≡ ok db' → Effect c db db'
unfolding execute
execute-Effect (create_expense_command cmd id now) db db' f h =
    let (r, e, k) = >>=-eq-ok (create_expense cmd id now db) _ h in
    let (p, files', _) = create_expense_effect cmd id now db r e in
    files f (rw (ok-injective k) at files')
execute-Effect (submit_expense_command id org now) db db' f h =
    touches (submit_expense_effect id org now db db' h).touches
execute-Effect (approve_expense_command id org a now) db db' f h =
    touches (approve_expense_effect id org a now db db' h).touches
execute-Effect (reject_expense_command id org a why now) db db' f h =
    touches (reject_expense_effect id org a why now db db' h).touches
execute-Effect (cancel_expense_command id org a now) db db' f h =
    let (_, _, t, _) = cancel_expense-eq-ok id org a now db db' h in touches t
execute-Effect (create_adjustment_command cmd id now) db db' f h =
    let (r, e, k) = >>=-eq-ok (create_adjustment cmd id now db) _ h in
    files f (rw (ok-injective k) at (create_adjustment_effect cmd id now db r e).files)
execute-Effect (open_period_command org s e id now) db db' f h =
    let (r, k, l) = >>=-eq-ok (open_period org s e id now db) _ h in
    let (p, stores, _) = open_period-eq-ok org s e id now db r k in
    opens f (rw (ok-injective l) at stores)
execute-Effect (close_period_command id org by now) db db' f h =
    let (p, stores, is) = close_period-eq-ok id org by now db db' h in closes is stores
execute-Effect (reopen_period_command id org by why) db db' f h =
    let (p, stores, _) = reopen_period-eq-ok id org by why db db' h in reopens refl stores
