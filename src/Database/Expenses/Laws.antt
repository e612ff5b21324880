-- ===== src/Database/Expenses/Laws.antt =====
-- What a saved expense is found as, and that saving it leaves the other expenses alone.
use ratel_financial_platform.Prelude.{String, some, List, [], ◌∷◌, eq_iff, ◌≡◌, ◌≢◌, arith}
use ratel_financial_platform.Errors.{ok}
use ratel_financial_platform.Expense.Aggregate.{ExpenseProps, Expense, reconstitute}
use ratel_financial_platform.Database.{Database, to_date}
use ratel_financial_platform.Database.Expenses.{find_row, find_by_id, updated, upsert, save}

-- Saving an expense leaves what is found under any other id as it was.
pub find_row-upsert_other :
    (p : ExpenseProps) (id : String) (rows : List ExpenseProps)
    → p.id ≢ id
    → find_row id (upsert p rows) ≡ find_row id rows
unfolding find_row upsert
find_row-upsert_other p id [] ne = let e = eq_iff p.id id in ground arith
find_row-upsert_other p id (row ∷ rows) ne =
    let e = eq_iff row.id id in
    let f = eq_iff row.id p.id in let rest = find_row-upsert_other p id rows ne in ground arith

-- Saving an expense over the row that its id finds changes the columns of an update there.
pub find_row-upsert_same :
    (p : ExpenseProps) (rows : List ExpenseProps) (row : ExpenseProps)
    → find_row p.id rows ≡ some row
    → row.expense_date ≡ to_date p.expense_date
    → find_row p.id (upsert p rows) ≡ some (updated p row)
unfolding find_row upsert
find_row-upsert_same p [] row h d = ground arith
find_row-upsert_same p (first ∷ rows) row h d =
    let e = eq_iff first.id p.id in let rest = find_row-upsert_same p rows row in ground arith

pub find_by_id-eq-some :
    (id : String) (db : Database) (e : Expense)
    → find_by_id id db ≡ some e
    → (find_row id db.expenses ≡ some e.props) × (e ≡ reconstitute e.props)
unfolding find_by_id reconstitute
find_by_id-eq-some id db e h = ground arith

pub find_row-id :
    (id : String) (rows : List ExpenseProps) (row : ExpenseProps)
    → find_row id rows ≡ some row
    → row.id ≡ id
unfolding find_row
find_row-id id [] row h = ground arith
find_row-id id (first ∷ rows) row h =
    let e = eq_iff first.id id in let rest = find_row-id id rows row in ground arith

pub save-eq-ok :
    (e : Expense) (db db' : Database)
    → save e db ≡ ok db'
    → db' ≡ record db { expenses = upsert e.props db.expenses }
unfolding save
save-eq-ok e db db' h = ground arith
