-- ===== src/Handlers/Periods/Laws.antt =====
-- What the handlers of periods leave when they succeed.
use ratel_financial_platform.Prelude.{ℕ, String, [], ◌≡◌, ◌∙◌, arith}
use ratel_financial_platform.Errors.{ok, >>=-eq-ok, or_throw-eq-ok}
use ratel_financial_platform.Period
use ratel_financial_platform.Period.{
  FinancialPeriod, PeriodProps, PeriodStatus, open_status, closing, closed, reopened,
}
use ratel_financial_platform.Database.{Database, enqueue}
use ratel_financial_platform.Database.Periods
use ratel_financial_platform.Database.Periods.{find_row, upsert, find_by_id_for_organization}
use ratel_financial_platform.Database.Periods.Laws.{find_for_organization}
use ratel_financial_platform.Handlers.Periods.{
  commit, load, open_period, close_period, reopen_period,
}

-- `db'` is `db` with the period `p` of the organization stored under the id.
pub record Stores (id org : String) (db db' : Database) (p : PeriodProps) : Type 0 where
  pub id_is : p.id ≡ id
  pub own : p.organization_id ≡ org
  pub stored : db'.periods ≡ upsert p db.periods
  pub expenses : db'.expenses ≡ db.expenses
  pub approvals : db'.approvals ≡ db.approvals

commit-eq-ok :
    (p : FinancialPeriod) (db db' : Database)
    → commit p db ≡ ok db'
    → (db'.periods ≡ upsert p.props db.periods)
      × (db'.expenses ≡ db.expenses)
      × (db'.approvals ≡ db.approvals)
unfolding commit Periods.save enqueue
commit-eq-ok p db db' h = ground arith

commit-Stores :
    {id org : String} (p : FinancialPeriod) (db db' : Database)
    → p.props.id ≡ id
    → p.props.organization_id ≡ org
    → commit p db ≡ ok db'
    → Stores id org db db' p.props
commit-Stores p db db' e f h =
    let (stored, expenses, approvals) = commit-eq-ok p db db' h in
    record { id_is = e; own = f; stored = stored; expenses = expenses; approvals = approvals }

load-eq-ok :
    (id org : String) (db : Database) (p : FinancialPeriod)
    → load id org db ≡ ok p
    → (p.props.id ≡ id) × (p.props.organization_id ≡ org) × (p.events ≡ [])
unfolding load find_by_id_for_organization
load-eq-ok id org db p h = find_for_organization id org db.periods p (or_throw-eq-ok _ _ h)

created_props :
    (org new_id : String) (s e now : ℕ) (p : FinancialPeriod)
    → Period.create org s e new_id now ≡ ok p
    → (p.props.id ≡ new_id) × (p.props.organization_id ≡ org) × (p.props.status ≡ open_status)
unfolding Period.create
created_props org new_id s e now p h = ground arith

pub open_period-eq-ok :
    (org : String) (s e : ℕ) (new_id : String) (now : ℕ) (db : Database) (r : String × Database)
    → open_period org s e new_id now db ≡ ok r
    → (p : PeriodProps) × Stores new_id org db r.1 p × (p.status ≡ open_status)
unfolding open_period
open_period-eq-ok org s e new_id now db r h =
    let (p, e0, h0) = >>=-eq-ok (Period.create org s e new_id now) _ h in
    let (saved, e1, h1) = >>=-eq-ok (commit p db) _ h0 in
    let (id, own, is) = created_props org new_id s e now p e0 in
    let out : saved ≡ r.1 = ground arith in
    (p.props, rw out at (commit-Stores p db saved id own e1), is)

close_props :
    (by : String) (now : ℕ) (p p' : FinancialPeriod)
    → Period.close by now p ≡ ok p'
    → (p'.props.id ≡ p.props.id)
      × (p'.props.organization_id ≡ p.props.organization_id)
      × (p'.props.status ≡ closed)
unfolding Period.close
close_props by now p p' h = ground arith

pub close_period-eq-ok :
    (id org by : String) (now : ℕ) (db db' : Database)
    → close_period id org by now db ≡ ok db'
    → (p : PeriodProps) × Stores id org db db' p × (p.status ≡ closed)
unfolding close_period
close_period-eq-ok id org by now db db' h =
    let (p, e0, h0) = >>=-eq-ok (load id org db) _ h in
    let (p', e1, h1) = >>=-eq-ok (Period.close by now p) _ h0 in
    let (at, own, _) = load-eq-ok id org db p e0 in
    let (same, mine, is) = close_props by now p p' e1 in
    (p'.props, commit-Stores p' db db' (same ∙ at) (mine ∙ own) h1, is)

reopen_props :
    (by reason : String) (p p' : FinancialPeriod)
    → Period.reopen by reason p ≡ ok p'
    → (p'.props.id ≡ p.props.id)
      × (p'.props.organization_id ≡ p.props.organization_id)
      × (p'.props.status ≡ reopened)
unfolding Period.reopen
reopen_props by reason p p' h = ground arith

pub reopen_period-eq-ok :
    (id org by reason : String) (db db' : Database)
    → reopen_period id org by reason db ≡ ok db'
    → (p : PeriodProps) × Stores id org db db' p × (p.status ≡ reopened)
unfolding reopen_period
reopen_period-eq-ok id org by reason db db' h =
    let (p, e0, h0) = >>=-eq-ok (load id org db) _ h in
    let (p', e1, h1) = >>=-eq-ok (Period.reopen by reason p) _ h0 in
    let (at, own, _) = load-eq-ok id org db p e0 in
    let (same, mine, is) = reopen_props by reason p p' e1 in
    (p'.props, commit-Stores p' db db' (same ∙ at) (mine ∙ own) h1, is)
