-- ===== src/Handlers/Expenses/Submission.antt =====
-- What submitting an expense leaves when it succeeds.
use mathlib.Core.Path.{ap, ap₂}
use ratel_financial_platform.Prelude.{ℕ, String, false, [], ◌∷◌, ◌++◌, ◌≡◌, refl, sym, ◌∙◌, arith}
use ratel_financial_platform.Errors.{ok, >>=-eq-ok}
use ratel_financial_platform.Workflow.Chain.{ApprovalChain, is_empty}
use ratel_financial_platform.Workflow.Chain
use ratel_financial_platform.Workflow.Engine.{Approvable}
use ratel_financial_platform.Workflow.Policies.{resolve_expense_chain}
use ratel_financial_platform.Expense.Status.{draft, pending_approval}
use ratel_financial_platform.Expense.Aggregate
use ratel_financial_platform.Expense.Aggregate.{Expense, ExpenseProps, reconstitute}
use ratel_financial_platform.Expense.Lifecycle.{SameIdentity}
use ratel_financial_platform.Database.{Database, ApprovalRow}
use ratel_financial_platform.Database.Expenses.Laws.{find_row-id}
use ratel_financial_platform.Database.Approvals
use ratel_financial_platform.Handlers.Expenses.{
  load, assert_period_open, commit, route_submitted, submit_expense, expense_to_approvable,
}
use ratel_financial_platform.Handlers.Expenses.Laws.{
  reconstituted, Touches, Loaded, loaded, committed, commit-eq-ok,
}

abbrev pub new_row : String → ApprovalChain → ApprovalRow
new_row id chain = record { item_id = id; item_type = "Expense"; chain = chain; records = [] }

-- The empty test of a chain that starts anything is false, and the item has a progress row from then.
route_nonempty :
    (c : ApprovalChain) (now : ℕ) (e : Expense) (db : Database) (r : Expense × Database)
    → is_empty c ≡ false
    → route_submitted c now e db ≡ ok r
    → (r.0 ≡ e)
      × (r.1 ≡ record db { approvals = db.approvals ++ new_row e.props.id c ∷ [] })
      × (Approvals.is_stored e.props.id db.approvals ≡ false)
unfolding route_submitted Approvals.initialize
route_nonempty c now e db r n h = ground arith

pub expense_chain_nonempty : (item : Approvable) → is_empty (resolve_expense_chain item) ≡ false
unfolding is_empty resolve_expense_chain Chain.of
expense_chain_nonempty item = ground arith

-- What `SubmitExpenseHandler` leaves: the expense waits for approval, with an empty progress on the
-- chain of its amount.
pub record Submitted (org id : String) (db db' : Database) : Type 0 where
  pub row : ExpenseProps
  pub p : ExpenseProps
  pub touches : Touches org id db db' row p
  pub was_draft : row.status ≡ draft
  pub is_pending : p.status ≡ pending_approval
  pub was_free : Approvals.is_stored id db.approvals ≡ false
  pub approvals :
      db'.approvals
      ≡ db.approvals
        ++ new_row id (resolve_expense_chain (expense_to_approvable (reconstitute row))) ∷ []

submit_status :
    (now : ℕ) (e sent : Expense)
    → Aggregate.submit_for_approval now e ≡ ok sent
    → (e.props.status ≡ draft)
      × (sent.props.status ≡ pending_approval)
      × SameIdentity e.props sent.props
unfolding Aggregate.submit_for_approval
submit_status now e sent h = ground arith

submitted :
    (org id : String) (now : ℕ) (db db' : Database) (e sent : Expense) (routed : Expense × Database)
    → Loaded org id db e
    → Aggregate.submit_for_approval now e ≡ ok sent
    → route_submitted (resolve_expense_chain (expense_to_approvable e)) now sent db ≡ ok routed
    → commit routed.0 routed.1 ≡ ok db'
    → Submitted org id db db'
submitted org id now db db' e sent routed l e2 e3 h =
    let chain = resolve_expense_chain (expense_to_approvable e) in
    let nonempty = expense_chain_nonempty (expense_to_approvable e) in
    let (same, grown, free) = route_nonempty chain now sent db routed nonempty e3 in
    let (was, is, kept) = submit_status now e sent e2 in
    let between = record db { approvals = db.approvals ++ new_row sent.props.id chain ∷ [] } in
    let h' : commit sent between ≡ ok db' = sym (ap₂ commit same grown) ∙ h in
    let (_, _, approvals, _) = commit-eq-ok sent between db' h' in
    let id_is : sent.props.id ≡ id = kept.id ∙ find_row-id id db.expenses e.props l.found in
    record {
      row = e.props;
      p = sent.props;
      touches = committed sent between db' l kept refl refl h';
      was_draft = was;
      is_pending = is;
      was_free = sym (ap (λ z. Approvals.is_stored z db.approvals) id_is) ∙ free;
      approvals = rw (reconstituted e l.fresh, sym id_is) approvals;
    }

-- Submitting an expense, if it succeeds: the expense was a draft of the caller's organization in a
-- period that is open; it now waits for approval, with nothing recorded yet on the chain that the
-- policy asks for its amount. No other expense's row and no period is written.
pub submit_expense_effect :
    (id org : String) (now : ℕ) (db db' : Database)
    → submit_expense id org now db ≡ ok db'
    → Submitted org id db db'
unfolding submit_expense
submit_expense_effect id org now db db' h =
    let (e, e0, h0) = >>=-eq-ok (load id org db) _ h in
    let (_, e1, h1) = >>=-eq-ok (assert_period_open org e db) _ h0 in
    let (sent, e2, h2) = >>=-eq-ok (Aggregate.submit_for_approval now e) _ h1 in
    let chain = resolve_expense_chain (expense_to_approvable e) in
    let (routed, e3, h3) = >>=-eq-ok (route_submitted chain now sent db) _ h2 in
    submitted org id now db db' e sent routed (loaded org id db e e0 e1) e2 e3 h3
