-- ===== src/Handlers/Expenses/Filed.antt =====
-- What is found after an expense, or an adjustment of one, is created.
use ratel_financial_platform.Prelude.{
  ℕ, String, none, some, List, [], ◌∷◌, ◌≡◌, ◌≢◌, sym, ap, ◌∙◌, arith, eq_iff, if◌then◌else◌,
}
use ratel_financial_platform.Prelude.Int.{ltb_ℤ}
use ratel_financial_platform.Errors.{ok}
use ratel_financial_platform.Expense.Status.{draft, pending_approval, approved}
use ratel_financial_platform.Expense.Aggregate.{ExpenseProps}
use ratel_financial_platform.Period.{PeriodProps}
use ratel_financial_platform.Database.{Database}
use ratel_financial_platform.Database.Expenses.{find_row, to_row, upsert}
use ratel_financial_platform.Database.Expenses.Laws.{find_row-upsert_other}
use ratel_financial_platform.Database.Periods.Current.{IsCurrent, current_open_period-IsCurrent}
use ratel_financial_platform.Handlers.Expenses.{
  CreateExpenseCommand, CreateAdjustmentCommand, create_expense, create_adjustment,
}
use ratel_financial_platform.Handlers.Expenses.Creation.{
  Files, create_expense_effect, create_adjustment_effect,
}

find_row-upsert_new :
    (p : ExpenseProps) (id : String) (rows : List ExpenseProps)
    → p.id ≡ id
    → find_row id rows ≡ none
    → find_row id (upsert p rows) ≡ some (to_row p)
unfolding find_row upsert
find_row-upsert_new p id [] at h = let e = eq_iff p.id id in ground arith
find_row-upsert_new p id (r ∷ rows) at h =
    let e = eq_iff r.id id in
    let f = eq_iff r.id p.id in let rest = find_row-upsert_new p id rows at in ground arith

-- The new id finds an expense of the organization, filed in its current open period. Every other id
-- finds what it found, and no period is written.
pub record IsFiled (org new_id : String) (db db' : Database) (after : ExpenseProps) : Type 0 where
  pub found : find_row new_id db'.expenses ≡ some after
  pub own : after.organization_id ≡ org
  pub period : PeriodProps
  pub in_current : IsCurrent org after.period_id db period
  pub others :
      (other : String) → other ≢ new_id → find_row other db'.expenses ≡ find_row other db.expenses
  pub periods : db'.periods ≡ db.periods

found-IsFiled :
    (org new_id : String) (db db' : Database) (p : ExpenseProps)
    → find_row new_id db.expenses ≡ none
    → Files org new_id db db' p
    → IsFiled org new_id db db' (to_row p)
found-IsFiled org new_id db db' p fresh f =
    let (period, current) = current_open_period-IsCurrent org p.period_id db f.in_open_period in
    record {
      found = ap (find_row new_id) f.stored ∙ find_row-upsert_new p new_id db.expenses f.id fresh;
      own = f.own;
      period = period;
      in_current = current;
      others = λ other ne.
          ap (find_row other) f.stored
          ∙ find_row-upsert_other p other db.expenses (λ e. ne (sym e ∙ f.id));
      periods = f.periods;
    }

-- Creating an expense, if it succeeds and the new id is not in use: the id then finds a draft of the
-- organization, filed in its current open period, which is stored, open or reopened, and starts last of
-- those. Other ids find the expenses that they found, and no period is written.
pub create_expense-eq-ok :
    (cmd : CreateExpenseCommand) (new_id : String) (now : ℕ) (db : Database)
    (r : (String × String) × Database)
    → find_row new_id db.expenses ≡ none
    → create_expense cmd new_id now db ≡ ok r
    → (after : ExpenseProps) × IsFiled cmd.organization_id new_id db r.1 after
      × (after.status ≡ draft)
create_expense-eq-ok cmd new_id now db r fresh h =
    let (p, files, is) = create_expense_effect cmd new_id now db r h in
    (to_row p, found-IsFiled cmd.organization_id new_id db r.1 p fresh files, is)

-- What correcting an expense leaves to be found.
pub record Corrects (cmd : CreateAdjustmentCommand) (new_id : String) (db db' : Database)
    : Type 0 where
  pub original : ExpenseProps
  pub after : ExpenseProps
  pub found : find_row cmd.original_expense_id db.expenses ≡ some original
  pub own : original.organization_id ≡ cmd.organization_id
  pub filed : IsFiled cmd.organization_id new_id db db' after
  pub parent : after.parent_expense_id ≡ some cmd.original_expense_id
  pub status : after.status ≡ (
      if ltb_ℤ original.amount.minor_units cmd.new_amount_minor_units
      then pending_approval
      else approved)

-- Correcting an expense, if it succeeds and the new id is not in use: the original is the
-- organization's. The new id then finds an expense that is linked to the original and filed in the
-- current open period, which is stored, open or reopened, and starts last of those; it waits for
-- approval if the corrected amount is above the original one and is approved if not. Other ids, the
-- original's among them, find what they found, and no period is written.
pub create_adjustment-eq-ok :
    (cmd : CreateAdjustmentCommand) (new_id : String) (now : ℕ) (db : Database)
    (r : String × Database)
    → find_row new_id db.expenses ≡ none
    → create_adjustment cmd new_id now db ≡ ok r
    → Corrects cmd new_id db r.1
create_adjustment-eq-ok cmd new_id now db r fresh h =
    let a = create_adjustment_effect cmd new_id now db r h in
    record {
      original = a.row;
      after = to_row a.p;
      found = a.found;
      own = a.own;
      filed = found-IsFiled cmd.organization_id new_id db r.1 a.p fresh a.files;
      parent = a.parent;
      status = a.status;
    }
