-- ===== src/Handlers/Expenses/Laws.antt =====
-- What each handler of an existing expense does when it succeeds: the expense was of the caller's
-- organization and its period was open, and no other expense and no period changes.
use ratel_financial_platform.Prelude.{String, true, some, [], ◌++◌, eq_iff, ◌≡◌, ap, ◌∙◌, arith}
use ratel_financial_platform.Errors.{ok}
use ratel_financial_platform.Workflow.Chain.{ApprovalChain}
use ratel_financial_platform.Workflow.Progress.{ApprovalProgress}
use ratel_financial_platform.Expense.Aggregate.{Expense, ExpenseProps, reconstitute}
use ratel_financial_platform.Expense.Lifecycle.{SameIdentity}
use ratel_financial_platform.Database.{Database, enqueue}
use ratel_financial_platform.Database.Expenses
use ratel_financial_platform.Database.Expenses.{find_row, upsert}
use ratel_financial_platform.Database.Periods.{period_is_open}
use ratel_financial_platform.Database.Approvals
use ratel_financial_platform.Handlers.Expenses.{load, assert_period_open, commit}

-- `db'` is `db` with the properties `p` stored over the row of the expense `id`, which is of the
-- organization `org` and in a period that is open.
pub record Touches (org id : String) (db db' : Database) (row p : ExpenseProps) : Type 0 where
  pub found : find_row id db.expenses ≡ some row
  pub own : row.organization_id ≡ org
  pub in_open_period : period_is_open org row.period_id db ≡ true
  pub identity : SameIdentity row p
  pub stored : db'.expenses ≡ upsert p db.expenses
  pub periods : db'.periods ≡ db.periods

pub load-eq-ok :
    (id org : String) (db : Database) (e : Expense)
    → load id org db ≡ ok e
    → (find_row id db.expenses ≡ some e.props) × (e.props.organization_id ≡ org) × (e.events ≡ [])
unfolding load reconstitute Expenses.find_by_id
load-eq-ok id org db e h = let f = eq_iff e.props.organization_id org in ground arith

pub assert_period_open-eq-ok :
    (org : String) (e : Expense) (db : Database) {u : Unit {0}}
    → assert_period_open org e db ≡ ok u
    → period_is_open org e.props.period_id db ≡ true
unfolding assert_period_open
assert_period_open-eq-ok org e db h = ground arith

-- The effect of a commit on the tables.
pub commit-eq-ok :
    (e : Expense) (db db' : Database)
    → commit e db ≡ ok db'
    → (db'.expenses ≡ upsert e.props db.expenses)
      × (db'.periods ≡ db.periods)
      × (db'.approvals ≡ db.approvals)
      × (db'.outbox ≡ db.outbox ++ e.events)
unfolding commit Expenses.save enqueue
commit-eq-ok e db db' h = ground arith

pub approvals_save-eq-ok :
    (id : String) (p : ApprovalProgress) (db db' : Database)
    → Approvals.save id p db ≡ ok db'
    → db' ≡ record db { approvals = Approvals.flush id p.records db.approvals }
unfolding Approvals.save
approvals_save-eq-ok id p db db' h = ground arith

pub initialize-eq-ok :
    (id type : String) (c : ApprovalChain) (db db' : Database)
    → Approvals.initialize id type c db ≡ ok db'
    → (db'.expenses ≡ db.expenses) × (db'.periods ≡ db.periods)
unfolding Approvals.initialize
initialize-eq-ok id type c db db' h = ground arith

-- What the first lines of each handler have made sure of.
pub record Loaded (org id : String) (db : Database) (e : Expense) : Type 0 where
  pub found : find_row id db.expenses ≡ some e.props
  pub own : e.props.organization_id ≡ org
  pub fresh : e.events ≡ []
  pub in_open_period : period_is_open org e.props.period_id db ≡ true

pub loaded :
    (org id : String) (db : Database) (e : Expense) {u : Unit {0}}
    → load id org db ≡ ok e
    → assert_period_open org e db ≡ ok u
    → Loaded org id db e
loaded org id db e h k =
    let (found, own, fresh) = load-eq-ok id org db e h in
    record {
      found = found;
      own = own;
      fresh = fresh;
      in_open_period = assert_period_open-eq-ok org e db k;
    }

-- A loaded expense, changed in its own way and committed on a database whose expenses and periods
-- are still those it was loaded from.
pub committed :
    {org id : String} {db : Database} {e : Expense} (e' : Expense) (between db' : Database)
    → Loaded org id db e
    → SameIdentity e.props e'.props
    → between.expenses ≡ db.expenses
    → between.periods ≡ db.periods
    → commit e' between ≡ ok db'
    → Touches org id db db' e.props e'.props
committed e' between db' l same x p h =
    let (stored, periods, _, _) = commit-eq-ok e' between db' h in
    record {
      found = l.found;
      own = l.own;
      in_open_period = l.in_open_period;
      identity = same;
      stored = stored ∙ ap (upsert e'.props) x;
      periods = periods ∙ p;
    }

pub reconstituted : (e : Expense) → e.events ≡ [] → reconstitute e.props ≡ e
unfolding reconstitute
reconstituted e h = ground arith
