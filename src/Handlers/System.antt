-- ===== src/Handlers/System.antt =====
-- The commands on expenses and periods as one system: a command either commits what its handler
-- leaves or throws and commits nothing, and any order of commands can happen.
pub mod Effect
pub mod ClosedBooks
pub mod Tenants
use ratel_financial_platform.Prelude.{ℕ, String, Option, none, some, ◌≡◌}
use ratel_financial_platform.Errors.{Result, ok, err, ◌>>=◌}
use ratel_financial_platform.Database.{Database}
use ratel_financial_platform.Database.Expenses
use ratel_financial_platform.Database.Periods
use ratel_financial_platform.Handlers.Expenses.{
  CreateExpenseCommand, CreateAdjustmentCommand, create_expense, submit_expense, approve_expense,
  reject_expense, cancel_expense, create_adjustment,
}
use ratel_financial_platform.Handlers.Periods.{open_period, close_period, reopen_period}

-- The commands, with the ids and times that their handlers make up.
pub data Command : Type 0 where
  create_expense_command : CreateExpenseCommand → String → ℕ → Command
  submit_expense_command : String → String → ℕ → Command
  approve_expense_command : String → String → String → ℕ → Command
  reject_expense_command : String → String → String → String → ℕ → Command
  cancel_expense_command : String → String → String → ℕ → Command
  create_adjustment_command : CreateAdjustmentCommand → String → ℕ → Command
  open_period_command : String → ℕ → ℕ → String → ℕ → Command
  close_period_command : String → String → String → ℕ → Command
  reopen_period_command : String → String → String → String → Command

abbrev committed : {A : Type 0} → A × Database → Result Database
committed r = ok r.1

unfoldable pub execute : Command → Database → Result Database
execute (create_expense_command cmd id now) db = create_expense cmd id now db >>= committed
execute (submit_expense_command id org now) db = submit_expense id org now db
execute (approve_expense_command id org a now) db = approve_expense id org a now db
execute (reject_expense_command id org a why now) db = reject_expense id org a why now db
execute (cancel_expense_command id org a now) db = cancel_expense id org a now db
execute (create_adjustment_command cmd id now) db = create_adjustment cmd id now db >>= committed
execute (open_period_command org s e id now) db = open_period org s e id now db >>= committed
execute (close_period_command id org by now) db = close_period id org by now db
execute (reopen_period_command id org by why) db = reopen_period id org by why db

-- The organization that a command is given for.
abbrev pub organization_of : Command → String
organization_of (create_expense_command cmd _ _) = cmd.organization_id
organization_of (submit_expense_command _ org _) = org
organization_of (approve_expense_command _ org _ _) = org
organization_of (reject_expense_command _ org _ _ _) = org
organization_of (cancel_expense_command _ org _ _) = org
organization_of (create_adjustment_command cmd _ _) = cmd.organization_id
organization_of (open_period_command org _ _ _ _) = org
organization_of (close_period_command _ org _ _) = org
organization_of (reopen_period_command _ org _ _) = org

-- An id that a handler makes up is not in its table yet.
abbrev pub IsFresh : Command → Database → Type 0
IsFresh (create_expense_command _ id _) db = Expenses.find_row id db.expenses ≡ none
IsFresh (create_adjustment_command _ id _) db = Expenses.find_row id db.expenses ≡ none
IsFresh (open_period_command _ _ _ id _) db = Periods.find_row id db.periods ≡ none
IsFresh _ db = Unit

-- What can become of a database by commands that all satisfy `P`; those that throw commit nothing.
pub data Steps (P : Command → Type 0) : Database → Database → Type 0 where
  unchanged : {db : Database} → Steps P db db
  commits :
      {db between db' : Database}
      → Steps P db between
      → (c : Command) → P c
      → IsFresh c between
      → execute c between ≡ ok db'
      → Steps P db db'
