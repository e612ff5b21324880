-- ===== src/Handlers/System/ClosedBooks.antt =====
-- The books of a closed period: nothing is changed in them until the period is reopened.
use mathlib.Core.Path.{subst}
use ratel_financial_platform.Prelude.{
  String, true, none, some, ◌≡◌, ◌≢◌, sym, ap, ◌∙◌, inl, inr, arith,
}
use ratel_financial_platform.Prelude.Texts.{same_text}
use ratel_financial_platform.Expense.Aggregate.{ExpenseProps}
use ratel_financial_platform.Period.{PeriodProps, closed}
use ratel_financial_platform.Database.{Database}
use ratel_financial_platform.Database.Expenses
use ratel_financial_platform.Database.Periods
use ratel_financial_platform.Database.Periods.{period_is_open}
use ratel_financial_platform.Database.Periods.Laws
use ratel_financial_platform.Handlers.Periods.Laws.{Stores}
use ratel_financial_platform.Handlers.System.{Command, organization_of, Steps, unchanged, commits}
use ratel_financial_platform.Handlers.System.Effect.{
  Effect, files, touches, opens, closes, reopens, execute-Effect, Reopens,
}
use ratel_financial_platform.Handlers.System.Tenants.{survives, touched_row, filed_elsewhere}

-- The period of this id is stored, and closed.
pub record IsClosed (period : String) (db : Database) : Type 0 where
  pub row : PeriodProps
  pub found : Periods.find_row period db.periods ≡ some row
  pub status : row.status ≡ closed

-- The id and the new status of the period that is saved decide whether a closed period stays so.
stays_closed :
    (period : String) {id org : String} {db db' : Database} {p : PeriodProps}
    → Stores id org db db' p
    → (id ≡ period → p.status ≡ closed)
    → IsClosed period db
    → IsClosed period db'
stays_closed period {id} {org} {db} {db'} {p} s keeps k = elim (same_text id period) [
  | inl same ↦
      let at : p.id ≡ period = s.id_is ∙ same in
      let found : Periods.find_row p.id db.periods ≡ some k.row = rw at k.found in
      let after = Periods.Laws.find_row-upsert_same p db.periods k.row found in
      record {
        row = Periods.updated p k.row;
        found =
            ap (Periods.find_row period) s.stored
            ∙ (ap (λ z. Periods.find_row z (Periods.upsert p db.periods)) (sym at) ∙ after);
        status = keeps same;
      }
  | inr differ ↦ record {
    row = k.row;
    found =
        ap (Periods.find_row period) s.stored
        ∙ (Periods.Laws.find_row-upsert_other p period db.periods (λ e. differ (sym s.id_is ∙ e))
            ∙ k.found);
    status = k.status;
  }
]

closed_not_open :
    (org period : String) (db : Database) → IsClosed period db → period_is_open org period db ≢ true
closed_not_open org period db k h =
    let (_, open_status) = Periods.Laws.period_is_open-eq-true org period db k.row k.found h in
    let is = k.status in ground arith

IsClosed-same :
    (period : String) (db db' : Database)
    → db'.periods ≡ db.periods
    → IsClosed period db
    → IsClosed period db'
IsClosed-same period db db' e k = record {
  row = k.row;
  found = ap (Periods.find_row period) e ∙ k.found;
  status = k.status;
}

step_keeps :
    (c : Command) (db db' : Database) (period x : String) (row : ExpenseProps)
    → Effect c db db'
    → ¬ Reopens period c
    → row.period_id ≡ period
    → IsClosed period db
    → Expenses.find_row x db.expenses ≡ some row
    → IsClosed period db' × (Expenses.find_row x db'.expenses ≡ some row)
step_keeps c db db' period x row (files {id} {p} fresh f) apart in_it k found = (
  IsClosed-same period db db' f.periods k,
  survives x p row db db' f.stored (filed_elsewhere x row fresh f found) found,
)
step_keeps c db db' period x row (touches {id} {row = r} {p} t) apart in_it k found = (
  IsClosed-same period db db' t.periods k,
  survives x p row db db' t.stored
      (λ same.
        let at : r.period_id ≡ period =
          ap (λ (q : ExpenseProps). q.period_id) (touched_row x row t same found) ∙ in_it in
        closed_not_open (organization_of c) period db k (rw at at t.in_open_period))
      found,
)
step_keeps c db db' period x row (opens {id} fresh s) apart in_it k found = (
  stays_closed period s
      (λ same.
        let none_found : none ≡ some k.row =
          sym fresh ∙ (ap (λ z. Periods.find_row z db.periods) same ∙ k.found) in
        absurd cc)
      k,
  ap (Expenses.find_row x) s.expenses ∙ found,
)
step_keeps c db db' period x row (closes is s) apart in_it k found =
    (stays_closed period s (λ _. is) k, ap (Expenses.find_row x) s.expenses ∙ found)
step_keeps c db db' period x row (reopens {id} again s) apart in_it k found = (
  stays_closed period s (λ same. absurd (apart (subst (λ z. Reopens z c) same again))) k,
  ap (Expenses.find_row x) s.expenses ∙ found,
)

-- While no command reopens a closed period, and the ids that handlers make up are new to their tables,
-- it stays closed and every expense that is filed in it stays as it is, column by column.
pub shut_books_frozen :
    (period : String) (before after : Database) (x : String) (row : ExpenseProps)
    → row.period_id ≡ period
    → Steps (λ c. ¬ Reopens period c) before after
    → IsClosed period before
    → Expenses.find_row x before.expenses ≡ some row
    → IsClosed period after × (Expenses.find_row x after.expenses ≡ some row)
shut_books_frozen period before after x row in_it unchanged k found = (k, found)
shut_books_frozen period before after x row in_it (commits {between} steps c apart fresh h) k
      found =
    let (shut, same) = shut_books_frozen period before between x row in_it steps k found in
    step_keeps c between after period x row (execute-Effect c between after fresh h) apart in_it
      shut same
