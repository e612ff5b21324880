-- ===== src/Handlers/Expenses/Acceptance.antt =====
-- When submitting an expense, and approving it, is accepted.
use mathlib.Core.Path.{subst}
use ratel_financial_platform.Prelude.{
  ℕ, String, true, false, some, List, [], ◌∷◌, eq_iff, ◌≡◌, arith, inl, inr, sym, ap, ◌∙◌,
}
use ratel_financial_platform.Errors.{ok, Result-cases}
use ratel_financial_platform.Workflow.Chain.{ApprovalChain, is_empty}
use ratel_financial_platform.Workflow.Engine
use ratel_financial_platform.Workflow.Policies.{resolve_expense_chain}
use ratel_financial_platform.Expense.Status.{draft}
use ratel_financial_platform.Expense.Aggregate
use ratel_financial_platform.Expense.Aggregate.{Expense, ExpenseProps, reconstitute}
use ratel_financial_platform.Database.{Database, to_date}
use ratel_financial_platform.Database.Expenses
use ratel_financial_platform.Database.Expenses.{find_row}
use ratel_financial_platform.Database.Expenses.Laws.{find_row-id}
use ratel_financial_platform.Database.Periods.{period_is_open}
use ratel_financial_platform.Database.Approvals
use ratel_financial_platform.Handlers.Expenses.{
  assert_period_open, commit, route_submitted, submit_expense, expense_to_approvable,
}
use ratel_financial_platform.Handlers.Expenses.Submission.{expense_chain_nonempty}
use ratel_financial_platform.Handlers.Expenses.Refusals.{load_found}

assert_open :
    (org : String) (db : Database) (row : ExpenseProps)
    → period_is_open org row.period_id db ≡ true
    → assert_period_open org (reconstitute row) db ≡ ok tt
unfolding assert_period_open reconstitute
assert_open org db row h = ground arith

submits_draft :
    (now : ℕ) (e : Expense)
    → e.props.status ≡ draft
    → (sent : Expense) × (Aggregate.submit_for_approval now e ≡ ok sent)
      × (sent.props.id ≡ e.props.id)
      × (sent.props.expense_date ≡ e.props.expense_date)
unfolding Aggregate.submit_for_approval
submits_draft now e h = elim (Result-cases (Aggregate.submit_for_approval now e)) [
  | inl (sent, done) ↦ (sent, done, ground arith, ground arith)
  | inr (f, refused) ↦ absurd (ground arith)
]

routes :
    (c : ApprovalChain) (now : ℕ) (e : Expense) (db : Database)
    → is_empty c ≡ false
    → Approvals.is_stored e.props.id db.approvals ≡ false
    → (db' : Database) × (route_submitted c now e db ≡ ok (e, db')) × (db'.expenses ≡ db.expenses)
unfolding route_submitted Approvals.initialize
routes c now e db n fresh = elim (Result-cases (route_submitted c now e db)) [
  | inl ((e', db'), done) ↦ (db', ground arith, ground arith)
  | inr (f, refused) ↦ absurd (ground arith)
]

row_stored :
    (p : ExpenseProps) (id : String) (rows : List ExpenseProps) (row : ExpenseProps)
    → find_row id rows ≡ some row
    → p.id ≡ id
    → row.expense_date ≡ to_date p.expense_date
    → Expenses.is_stored p rows ≡ true
unfolding find_row Expenses.is_stored
row_stored p id [] row h e d = ground arith
row_stored p id (first ∷ rows) row h e d =
    let f = eq_iff first.id id in
    let g = eq_iff first.id p.id in let rest = row_stored p id rows row in ground arith

commits_stored :
    (e : Expense) (db : Database)
    → Expenses.is_stored e.props db.expenses ≡ true
    → (db' : Database) × (commit e db ≡ ok db')
unfolding commit Expenses.save
commits_stored e db h = elim (Result-cases (commit e db)) [
  | inl (db', done) ↦ (db', done)
  | inr (f, refused) ↦ absurd (ground arith)
]

-- Submitting a draft of the organization in a period that is open is accepted, if the expense has no
-- progress yet. (A stored date is a day.)
pub submit_expense_accepts :
    (id org : String) (now : ℕ) (db : Database) (row : ExpenseProps)
    → find_row id db.expenses ≡ some row
    → row.organization_id ≡ org
    → row.expense_date ≡ to_date row.expense_date
    → period_is_open org row.period_id db ≡ true
    → row.status ≡ draft
    → Approvals.is_stored id db.approvals ≡ false
    → (db' : Database) × (submit_expense id org now db ≡ ok db')
unfolding submit_expense reconstitute
submit_expense_accepts id org now db row found own day open_period is_draft none_yet =
    let e = reconstitute row in
    let (sent, sends, same, date) = submits_draft now e is_draft in
    let chain = resolve_expense_chain (expense_to_approvable e) in
    let at : sent.props.id ≡ id = same ∙ find_row-id id db.expenses row found in
    let fresh : Approvals.is_stored sent.props.id db.approvals ≡ false =
      subst (λ z. Approvals.is_stored z db.approvals ≡ false) (sym at) none_yet in
    let nonempty = expense_chain_nonempty (expense_to_approvable e) in
    let (started, routed, kept) = routes chain now sent db nonempty fresh in
    let there = row_stored sent.props id db.expenses row found at (day ∙ ap to_date (sym date)) in
    let (db', commits) =
      commits_stored sent started
        (subst (λ z. Expenses.is_stored sent.props z ≡ true) (sym kept) there) in
    (
      db',
      rw (load_found id org db row found own, assert_open org db row open_period, sends, routed)
          commits,
    )
