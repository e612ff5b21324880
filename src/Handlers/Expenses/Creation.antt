-- ===== src/Handlers/Expenses/Creation.antt =====
-- What creating an expense, or an adjustment of one, leaves when it succeeds.
use ratel_financial_platform.Prelude.{
  ℕ, String, Bool, not, some, ◌≡◌, refl, sym, ap, ◌∙◌, arith, if◌then◌else◌,
}
use ratel_financial_platform.Errors.{ok, throw_if, or_throw, >>=-eq-ok, or_throw-eq-ok}
use ratel_financial_platform.Expense.Status.{draft, pending_approval, approved}
use ratel_financial_platform.Expense.Aggregate
use ratel_financial_platform.Expense.Aggregate.{Expense, ExpenseProps, reconstitute}
use ratel_financial_platform.Database.{Database, enqueue}
use ratel_financial_platform.Database.Expenses
use ratel_financial_platform.Database.Expenses.{find_row, upsert}
use ratel_financial_platform.Database.Expenses.Laws.{find_row-id}
use ratel_financial_platform.Database.Approvals
use ratel_financial_platform.Handlers.Expenses.{load}
use ratel_financial_platform.Handlers.Expenses.Laws.{load-eq-ok}
use ratel_financial_platform.Handlers.Expenses.{
  CreateExpenseCommand, CreateAdjustmentCommand, create_expense, create_adjustment, assert_active,
  create_input, initialize_if,
}
use ratel_financial_platform.Database.{has_active}
use ratel_financial_platform.Database.Periods.{current_open_period}
use ratel_financial_platform.Database.Expenses.{next_expense_number, take_number, number_text}
use ratel_financial_platform.Workflow.Policies.{requires_approval}
use ratel_financial_platform.Money
use ratel_financial_platform.Prelude.Int.{ltb_ℤ}

-- `db'` is `db` with the new expense `p` of the organization, filed in its current open period.
pub record Files (org new_id : String) (db db' : Database) (p : ExpenseProps) : Type 0 where
  pub id : p.id ≡ new_id
  pub own : p.organization_id ≡ org
  pub in_open_period : current_open_period org db ≡ some p.period_id
  pub stored : db'.expenses ≡ upsert p db.expenses
  pub periods : db'.periods ≡ db.periods

numbered_tables :
    (org : String) (db : Database)
    → let numbered = next_expense_number org db in
      (numbered.1.expenses ≡ db.expenses)
      × (numbered.1.periods ≡ db.periods)
      × (numbered.1.approvals ≡ db.approvals)
unfolding next_expense_number
numbered_tables org db = (refl, refl, refl)

saved_tables :
    (e : Expense) (db db' : Database)
    → Expenses.save e db ≡ ok db'
    → (db'.expenses ≡ upsert e.props db.expenses)
      × (db'.periods ≡ db.periods)
      × (db'.approvals ≡ db.approvals)
unfolding Expenses.save
saved_tables e db db' h = ground arith

created_props :
    (input : Aggregate.CreateInput) (new_id : String) (now : ℕ) (e : Expense)
    → Aggregate.create input new_id now ≡ ok e
    → (e.props.id ≡ new_id)
      × (e.props.organization_id ≡ input.organization_id)
      × (e.props.period_id ≡ input.period_id)
      × (e.props.status ≡ draft)
unfolding Aggregate.create
created_props input new_id now e h = ground arith

-- A new expense, saved after its number was taken.
filed :
    (org new_id : String) (db db' : Database) (e : Expense) (saved : Database)
    → e.props.id ≡ new_id
    → e.props.organization_id ≡ org
    → current_open_period org db ≡ some e.props.period_id
    → Expenses.save e (next_expense_number org db).1 ≡ ok saved
    → (db'.expenses ≡ saved.expenses) × (db'.periods ≡ saved.periods)
    → Files org new_id db db' e.props
filed org new_id db db' e saved id own opened h (x, p) =
    let (nx, np, _) = numbered_tables org db in
    let (sx, sp, _) = saved_tables e (next_expense_number org db).1 saved h in
    record {
      id = id;
      own = own;
      in_open_period = opened;
      stored = x ∙ (sx ∙ ap (upsert e.props) nx);
      periods = p ∙ (sp ∙ np);
    }

enqueued :
    {A : Type 0} (a : A) (e : Expense) (saved : Database) (r : A × Database)
    → ok (a, enqueue e.events saved) ≡ ok r
    → (r.1.expenses ≡ saved.expenses) × (r.1.periods ≡ saved.periods)
unfolding enqueue
enqueued a e saved r h = ground arith

-- Creating an expense, if it succeeds, stores a draft under the new id, of the organization and filed
-- in its current open period. No other row and no period is written.
pub create_expense_effect :
    (cmd : CreateExpenseCommand) (new_id : String) (now : ℕ) (db : Database)
    (r : (String × String) × Database)
    → create_expense cmd new_id now db ≡ ok r
    → (p : ExpenseProps) × Files cmd.organization_id new_id db r.1 p × (p.status ≡ draft)
unfolding create_expense
create_expense_effect cmd new_id now db r h =
    let org = cmd.organization_id in
    let (period_id, e0, h0) = >>=-eq-ok (or_throw (current_open_period org db) _) _ h in
    let (_, _, h1) =
      >>=-eq-ok (throw_if (not (has_active db.departments cmd.department_id org)) _) _ h0 in
    let (_, _, h2) =
      >>=-eq-ok (throw_if (not (has_active db.categories cmd.category_id org)) _) _ h1 in
    let (_, _, h3) = >>=-eq-ok (assert_active "Vendor" db.vendors org cmd.vendor_id) _ h2 in
    let (_, _, h4) = >>=-eq-ok (assert_active "Project" db.projects org cmd.project_id) _ h3 in
    let numbered = next_expense_number org db in
    let (amount, _, h5) = >>=-eq-ok (Money.of cmd.amount_minor_units cmd.currency) _ h4 in
    let (e, e6, h6) =
      >>=-eq-ok (Aggregate.create (create_input cmd numbered.0 amount period_id) new_id now) _ h5 in
    let (saved, e7, h7) = >>=-eq-ok (Expenses.save e numbered.1) _ h6 in
    let (id, own, period, is) = created_props _ new_id now e e6 in
    let opened = or_throw-eq-ok _ _ e0 in
    (
      e.props,
      filed org new_id db r.1 e saved id own (opened ∙ ap some (sym period)) e7
          (enqueued _ e saved r h7),
      is,
    )

adjusted_props :
    (input : Aggregate.AdjustmentInput) (new_id : String) (now : ℕ) (a : Expense)
    → Aggregate.create_adjustment input new_id now ≡ ok a
    → (a.props.id ≡ new_id)
      × (a.props.organization_id ≡ input.original.props.organization_id)
      × (a.props.period_id ≡ input.current_open_period_id)
      × (a.props.parent_expense_id ≡ some input.original.props.id)
      × (a.props.status ≡ (if input.requires_approval then pending_approval else approved))
unfolding Aggregate.create_adjustment
adjusted_props input new_id now a h = ground arith

started_tables :
    (needed : Bool) (a : Expense) (db db' : Database)
    → initialize_if needed a db ≡ ok db'
    → (db'.expenses ≡ db.expenses) × (db'.periods ≡ db.periods)
unfolding Approvals.initialize
started_tables needed a db db' h = ground arith

-- What `CreateAdjustmentHandler` leaves.
pub record Adjusted (cmd : CreateAdjustmentCommand) (new_id : String) (db db' : Database)
    : Type 0 where
  pub row : ExpenseProps
  pub p : ExpenseProps
  pub found : find_row cmd.original_expense_id db.expenses ≡ some row
  pub own : row.organization_id ≡ cmd.organization_id
  pub files : Files cmd.organization_id new_id db db' p
  pub parent : p.parent_expense_id ≡ some cmd.original_expense_id
  pub status : p.status ≡ (
      if ltb_ℤ row.amount.minor_units cmd.new_amount_minor_units
      then pending_approval
      else approved)

-- Correcting an expense, if it succeeds: the original is the organization's; an expense is stored under
-- the new id, linked to the original and filed in the current open period, which waits for approval if
-- the corrected amount is above the original one and is approved if not.
pub create_adjustment_effect :
    (cmd : CreateAdjustmentCommand) (new_id : String) (now : ℕ) (db : Database)
    (r : String × Database)
    → create_adjustment cmd new_id now db ≡ ok r
    → Adjusted cmd new_id db r.1
unfolding create_adjustment requires_approval
create_adjustment_effect cmd new_id now db r h =
    let org = cmd.organization_id in
    let (period_id, e0, h0) = >>=-eq-ok (or_throw (current_open_period org db) _) _ h in
    let (original, e1, h1) = >>=-eq-ok (load cmd.original_expense_id org db) _ h0 in
    let needed = ltb_ℤ original.props.amount.minor_units cmd.new_amount_minor_units in
    let (a, e2, h2) = >>=-eq-ok (Aggregate.create_adjustment _ new_id now) _ h1 in
    let (saved, e3, h3) = >>=-eq-ok (Expenses.save a (next_expense_number org db).1) _ h2 in
    let (started, e4, h4) = >>=-eq-ok (initialize_if needed a saved) _ h3 in
    let (found, own, _) = load-eq-ok cmd.original_expense_id org db original e1 in
    let (id, mine, period, parent, is) = adjusted_props _ new_id now a e2 in
    let opened = or_throw-eq-ok _ _ e0 in
    let (qx, qp) = enqueued _ a started r h4 in
    let (tx, tp) = started_tables needed a saved started e4 in
    record {
      row = original.props;
      p = a.props;
      found = found;
      own = own;
      files =
          filed org new_id db r.1 a saved id (mine ∙ own) (opened ∙ ap some (sym period)) e3
            (qx ∙ tx, qp ∙ tp);
      parent = parent ∙ ap some (find_row-id cmd.original_expense_id db.expenses _ found);
      status = is;
    }
