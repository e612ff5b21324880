-- ===== src/Handlers/Expenses/Refusals.antt =====
-- What the handlers of an existing expense refuse before they change anything.
use ratel_financial_platform.Prelude.{
  ℕ, String, none, some, eq_iff, ◌≡◌, ◌≢◌, ◌⊎◌, inl, inr, refl, arith,
}
use ratel_financial_platform.Errors.{Failure, ok, err, entity_not_found}
use ratel_financial_platform.Expense.Aggregate.{ExpenseProps, reconstitute}
use ratel_financial_platform.Database.{Database}
use ratel_financial_platform.Database.Expenses
use ratel_financial_platform.Database.Expenses.{find_row}
use ratel_financial_platform.Handlers.Expenses.{
  load, submit_expense, approve_expense, reject_expense, cancel_expense,
}

-- The four handlers all throw this failure.
pub record AllRefuse (id org : String) (db : Database) (f : Failure) : Type 0 where
  pub submit : (now : ℕ) → submit_expense id org now db ≡ err f
  pub approve : (a : String) (now : ℕ) → approve_expense id org a now db ≡ err f
  pub reject : (a why : String) (now : ℕ) → reject_expense id org a why now db ≡ err f
  pub cancel : (a : String) (now : ℕ) → cancel_expense id org a now db ≡ err f

load-eq-err :
    (id org : String) (db : Database) (f : Failure) → load id org db ≡ err f → AllRefuse id org db f
unfolding submit_expense approve_expense reject_expense cancel_expense
load-eq-err id org db f h = record {
  submit = λ now. rw h refl;
  approve = λ a now. rw h refl;
  reject = λ a why now. rw h refl;
  cancel = λ a now. rw h refl;
}

-- An expense that is not there, or is another organization's, is reported as not found, and nothing
-- tells the two apart.
pub not_found_refused :
    (id org : String) (db : Database)
    → (find_row id db.expenses ≡ none)
      ⊎ ((row : ExpenseProps) × (find_row id db.expenses ≡ some row) × (row.organization_id ≢ org))
    → AllRefuse id org db (entity_not_found "Expense" id)
unfolding load Expenses.find_by_id reconstitute
not_found_refused id org db (inl missing) =
    load-eq-err id org db (entity_not_found "Expense" id) (ground arith)
not_found_refused id org db (inr (row, found, other)) =
    load-eq-err id org db (entity_not_found "Expense" id)
      (let e = eq_iff row.organization_id org in ground arith)

pub load_found :
    (id org : String) (db : Database) (row : ExpenseProps)
    → find_row id db.expenses ≡ some row
    → row.organization_id ≡ org
    → load id org db ≡ ok (reconstitute row)
unfolding load Expenses.find_by_id reconstitute
load_found id org db row found own = let e = eq_iff row.organization_id org in ground arith
