-- ===== src/Database/Expenses.antt =====
-- contexts/expense/infrastructure/persistence/prisma-expense.repository.ts over the rows of
-- `expenses` and of `expense_number_sequences`.
pub mod Laws
use Prim.Native.Nat.{◌/◌, ◌%◌}
use Prim.Native.Char.{Char, char}
use Prim.Native.String
use ratel_financial_platform.Prelude.{
  ℕ, zero, suc, ◌+◌, ◌-◌, String, Bool, true, false, ◌&&◌, Option, none, some, List, [], ◌∷◌,
  str_eq, eq_iff, ◌==◌, find, any, not, length, if◌then◌else◌, ◌≡◌, ◌≢◌, refl, arith,
}
use ratel_financial_platform.Prelude.Texts.{concat}
use ratel_financial_platform.Errors.{Result, ok, err, ◌>>=◌, ◌>>◌, throw_if, unique_violation}
use ratel_financial_platform.Expense.Aggregate.{ExpenseProps, Expense, reconstitute}
use ratel_financial_platform.Database.{Database, SequenceRow, to_date}

unfoldable pub find_row : String → List ExpenseProps → Option ExpenseProps
find_row id rows = find (λ (r : ExpenseProps). str_eq r.id id) rows

-- `findById`
unfoldable pub find_by_id : String → Database → Option Expense
find_by_id id db = elim (find_row id db.expenses) [
  | none ↦ none
  | some row ↦ some (reconstitute row)
]

-- The columns that the `update` of the upsert sets.
abbrev pub updated : ExpenseProps → ExpenseProps → ExpenseProps
updated p row = record row {
  status = p.status;
  amount = p.amount;
  category_id = p.category_id;
  vendor_id = p.vendor_id;
  project_id = p.project_id;
  description = p.description;
  updated_at = p.updated_at;
}

-- `toRow`
abbrev pub to_row : ExpenseProps → ExpenseProps
to_row p = record p { expense_date = to_date p.expense_date }

-- The upsert is keyed on the id and the date.
unfoldable pub upsert : ExpenseProps → List ExpenseProps → List ExpenseProps
upsert p [] = to_row p ∷ []
upsert p (row ∷ rows) = elim (str_eq row.id p.id && row.expense_date == to_date p.expense_date) [
  | true ↦ updated p row ∷ rows
  | false ↦ row ∷ upsert p rows
]

-- There is a row with this key; a row that is created may not share its number with another.
unfoldable pub is_stored : ExpenseProps → List ExpenseProps → Bool
is_stored p rows =
    any (λ (r : ExpenseProps). str_eq r.id p.id && r.expense_date == to_date p.expense_date) rows

unfoldable pub is_number_taken : ExpenseProps → List ExpenseProps → Bool
is_number_taken p rows =
    any
      (λ (r : ExpenseProps).
        str_eq r.organization_id p.organization_id && str_eq r.expense_number p.expense_number)
      rows

unfoldable pub save : Expense → Database → Result Database
save e db = do
  throw_if (not (is_stored e.props db.expenses) && is_number_taken e.props db.expenses)
      (unique_violation "expenses_organization_id_expense_number_key")
  ok (record db { expenses = upsert e.props db.expenses })

digit : ℕ → String
digit n =
    if n == 0
    then "0"
    else if n == 1
    then "1"
    else if n == 2
    then "2"
    else if n == 3
    then "3"
    else if n == 4
    then "4"
    else if n == 5
    then "5"
    else if n == 6
    then "6"
    else if n == 7
    then "7"
    else if n == 8
    then "8"
    else "9"

-- The decimal digits of a number, in front of those collected. A number has fewer digits than it is
-- large, so `n + 1` steps are enough.
digits : ℕ → ℕ → List String → List String
digits zero n acc = acc
digits (suc fuel) n acc =
    let acc' = digit (n % 10) ∷ acc in
    let rest = digits fuel (n / 10) acc' in if n / 10 == 0 then acc' else rest

-- `padStart` with zeros, for `missing` places.
pad : ℕ → List String → List String
pad zero ds = ds
pad (suc missing) ds = "0" ∷ pad missing ds

-- `EXP-${value.toString().padStart(6, '0')}`
unfoldable pub number_text : ℕ → String
unfolding digit digits pad
number_text value = let ds = digits (suc value) value [] in concat ("EXP-" ∷ pad (6 - length ds) ds)

-- The upsert of the sequence row, and the value that it consumes.
unfoldable pub take_number : String → List SequenceRow → ℕ × List SequenceRow
take_number org [] = (1, record { organization_id = org; next_value = 2 } ∷ [])
take_number org (r ∷ rs) = elim (str_eq r.organization_id org) [
  | true ↦ (r.next_value, record r { next_value = r.next_value + 1 } ∷ rs)
  | false ↦ ((take_number org rs).0, r ∷ (take_number org rs).1)
]

unfoldable pub next_expense_number : String → Database → String × Database
next_expense_number org db =
    let taken = take_number org db.sequences in
    (number_text taken.0, record db { sequences = taken.1 })
