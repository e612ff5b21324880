-- ===== src/Payroll/Handlers/Laws.antt =====
-- What the handlers of payroll leave in the tables.
use mathlib.Core.Path.{subst}
use mathlib.Core.List.{Memᴰ, append-nil}
use ratel_financial_platform.Prelude.{
  ℕ, String, true, some, refl, ◌++◌, str_eq, eq_refl, true-any, List, [], ◌∷◌, eq_iff, ◌≡◌, ◌≢◌,
  sym, ap, ◌∙◌, arith, Option-cases, inl, inr,
}
use ratel_financial_platform.Errors.{ok, or_throw, >>=-eq-ok}
use ratel_financial_platform.Workflow.Chain.{ApprovalChain}
use ratel_financial_platform.Workflow.Engine
use ratel_financial_platform.Workflow.Engine.{Approvable}
use ratel_financial_platform.Workflow.Progress.{ApprovalProgress, ApprovalRecord}
use ratel_financial_platform.Workflow.Policies.{resolve_payroll_chain}
use ratel_financial_platform.Database.{Database, ApprovalRow, enqueue}
use ratel_financial_platform.Database.Approvals
use ratel_financial_platform.Payroll.Run
use ratel_financial_platform.Payroll.Run.{
  PayrollRun, PayrollRunProps, has_payslip_for, draft, PayrollRunStatus, approved, processing,
  completed, pending_approval,
}
use ratel_financial_platform.Payroll.SalaryStructure.{Detail}
use ratel_financial_platform.Payroll.Payslip.{Payslip}
use ratel_financial_platform.Payroll.Tables.{
  PayrollRunRow, PayrollDatabase, find_run_row, find_run, save_run, upsert_run, updated_run,
  new_payslips,
}
use ratel_financial_platform.Payroll.Handlers.{
  load_run, assert_run_period_open, commit_run, payroll_run_to_approvable, submit_payroll_run,
  reject_payroll_run, process_payroll_run, default_currency,
}

find_run_row-id :
    (id : String) (rows : List PayrollRunRow) (row : PayrollRunRow)
    → find_run_row id rows ≡ some row
    → row.props.id ≡ id
unfolding find_run_row
find_run_row-id id [] row h = ground arith
find_run_row-id id (first ∷ rows) row h =
    let e = eq_iff first.props.id id in let rest = find_run_row-id id rows row in ground arith

load_run-eq-ok :
    (id org : String) (db : PayrollDatabase) (r : PayrollRun Detail)
    → load_run id org db ≡ ok r
    → (row : PayrollRunRow) × (find_run_row id db.runs ≡ some row)
      × (r.props ≡ row.props)
      × (r.payslips ≡ row.payslips)
      × (r.props.organization_id ≡ org)
unfolding load_run find_run Run.reconstitute
load_run-eq-ok id org db r h = elim (Option-cases (find_run_row id db.runs)) [
  | inl none_found ↦ absurd (ground arith)
  | inr (row, e) ↦
      let f = eq_iff row.props.organization_id org in
      (row, e, ground arith, ground arith, ground arith)
]

loaded_id :
    (id org : String) (db : PayrollDatabase) (r : PayrollRun Detail)
    → load_run id org db ≡ ok r
    → r.props.id ≡ id
loaded_id id org db r h =
    let (row, e, same, _, _) = load_run-eq-ok id org db r h in
    ap (λ (p : Run.PayrollRunProps). p.id) same ∙ find_run_row-id id db.runs row e

-- A progress is started for an item only once.
initialize_once :
    (id type : String) (c : ApprovalChain) (db db' : Database)
    → Approvals.is_stored id db.approvals ≡ true
    → Approvals.initialize id type c db ≢ ok db'
unfolding Approvals.initialize
initialize_once id type c db db' stored h = ground arith

submit_status :
    (r sent : PayrollRun Detail) → Run.submit_for_approval r ≡ ok sent → sent.props.id ≡ r.props.id
unfolding Run.submit_for_approval
submit_status r sent h = ground arith

-- A run that has a progress can never be submitted.
pub submitted_once :
    (id org : String) (db db' : PayrollDatabase)
    → Approvals.is_stored id db.core.approvals ≡ true
    → submit_payroll_run id org db ≢ ok db'
unfolding submit_payroll_run
submitted_once id org db db' stored h =
    let (r, e0, h0) = >>=-eq-ok (load_run id org db) _ h in
    let (_, _, h1) = >>=-eq-ok (assert_run_period_open org r db) _ h0 in
    let (sent, e2, h2) = >>=-eq-ok (Run.submit_for_approval r) _ h1 in
    let (item, _, h3) = >>=-eq-ok (payroll_run_to_approvable sent default_currency) _ h2 in
    let (core, e4, _) =
      >>=-eq-ok
        (Approvals.initialize sent.props.id "PayrollRun" (resolve_payroll_chain item) db.core) _
        h3 in
    let at : sent.props.id ≡ id = submit_status r sent e2 ∙ loaded_id id org db r e0 in
    initialize_once id "PayrollRun" (resolve_payroll_chain item) db.core core stored (
      subst
        (λ z. Approvals.initialize z "PayrollRun" (resolve_payroll_chain item) db.core ≡ ok core) at
        e4)

flush_stored :
    (id : String) (rs : List ApprovalRecord) (rows : List ApprovalRow)
    → Approvals.is_stored id rows ≡ true
    → Approvals.is_stored id (Approvals.flush id rs rows) ≡ true
unfolding Approvals.flush
flush_stored id rs [] h = ground arith
flush_stored id rs (row ∷ rows) h = let rest = flush_stored id rs rows in ground arith

approvals_saved :
    (id : String) (p : ApprovalProgress) (db db' : Database)
    → Approvals.save id p db ≡ ok db'
    → Approvals.is_stored id db'.approvals ≡ true
unfolding Approvals.save
approvals_saved id p db db' h =
    let stored : Approvals.is_stored id db.approvals ≡ true = ground arith in
    let after : db'.approvals ≡ Approvals.flush id p.records db.approvals = ground arith in
    rw after (flush_stored id p.records db.approvals stored)

pub commit_run-eq-ok :
    (r : PayrollRun Detail) (db db' : PayrollDatabase)
    → commit_run r db ≡ ok db'
    → (db'.runs ≡ upsert_run r db.runs)
      × (db'.core.approvals ≡ db.core.approvals)
      × (db'.core.periods ≡ db.core.periods)
      × (db'.structures ≡ db.structures)
unfolding commit_run save_run enqueue
commit_run-eq-ok r db db' h = ground arith

find_run_row-upsert_same :
    (r : PayrollRun Detail) (rows : List PayrollRunRow) (row : PayrollRunRow)
    → find_run_row r.props.id rows ≡ some row
    → find_run_row r.props.id (upsert_run r rows) ≡ some (updated_run r row)
unfolding find_run_row upsert_run
find_run_row-upsert_same r [] row h = ground arith
find_run_row-upsert_same r (first ∷ rows) row h =
    let rest = find_run_row-upsert_same r rows row in ground arith

find_run_row-upsert_other :
    (r : PayrollRun Detail) (id : String) (rows : List PayrollRunRow)
    → r.props.id ≢ id
    → find_run_row id (upsert_run r rows) ≡ find_run_row id rows
unfolding find_run_row upsert_run
find_run_row-upsert_other r id [] ne = let e = eq_iff r.props.id id in ground arith
find_run_row-upsert_other r id (row ∷ rows) ne =
    let e = eq_iff row.props.id id in
    let f = eq_iff row.props.id r.props.id in
    let rest = find_run_row-upsert_other r id rows ne in ground arith

reject_status :
    (approver reason : String) (r back : PayrollRun Detail)
    → Run.reject approver reason r ≡ ok back
    → (back.props.status ≡ draft) × (back.props.id ≡ r.props.id)
unfolding Run.reject
reject_status approver reason r back h = ground arith

-- A rejected run is stored as a draft, and its progress stays.
pub reject_payroll_run_leaves :
    (id org approver reason : String) (now : ℕ) (db db' : PayrollDatabase)
    → reject_payroll_run id org approver reason now db ≡ ok db'
    → (after : PayrollRunRow) × (find_run_row id db'.runs ≡ some after)
      × (after.props.status ≡ draft)
      × (Approvals.is_stored id db'.core.approvals ≡ true)
unfolding reject_payroll_run
reject_payroll_run_leaves id org approver reason now db db' h =
    let (r, e0, h0) = >>=-eq-ok (load_run id org db) _ h in
    let (_, _, h1) = >>=-eq-ok (assert_run_period_open org r db) _ h0 in
    let (progress, _, h2) =
      >>=-eq-ok (or_throw (Approvals.find_by_item_id r.props.id db.core) _) _ h1 in
    let (item, _, h3) = >>=-eq-ok (payroll_run_to_approvable r default_currency) _ h2 in
    let (recorded, _, h4) =
      >>=-eq-ok (Engine.record_rejection db.core.roles item progress approver reason now) _ h3 in
    let (back, e5, h5) = >>=-eq-ok (Run.reject approver reason r) _ h4 in
    let (core, e6, h6) = >>=-eq-ok (Approvals.save r.props.id recorded db.core) _ h5 in
    let at = loaded_id id org db r e0 in
    let (is, kept_id) = reject_status approver reason r back e5 in
    let (row, found, _, _, _) = load_run-eq-ok id org db r e0 in
    let (runs, kept, _, _) = commit_run-eq-ok back _ db' h6 in
    let id_is = kept_id ∙ at in
    let there : find_run_row back.props.id db.runs ≡ some row =
      ap (λ z. find_run_row z db.runs) id_is ∙ found in
    let stored : Approvals.is_stored id core.approvals ≡ true =
      subst (λ z. Approvals.is_stored z core.approvals ≡ true) at
        (approvals_saved r.props.id recorded db.core core e6) in
    (
      updated_run back row,
      ap (find_run_row id) runs
          ∙ ap (λ z. find_run_row z (upsert_run back db.runs)) (sym id_is)
          ∙ find_run_row-upsert_same back db.runs row there,
      is,
      subst (λ z. Approvals.is_stored id z ≡ true) (sym kept) stored,
    )

process_status :
    (r started done : PayrollRun Detail)
    → Run.start_processing r ≡ ok started
    → Run.complete started ≡ ok done
    → (r.props.status ≡ approved)
      × (done.props.status ≡ completed)
      × (done.payslips ≡ r.payslips)
      × (done.props ≡ record (r.props) { status = completed })
unfolding Run.start_processing Run.complete
process_status r started done h k = ground arith

known_slip :
    (slips : List (Payslip Detail)) (s : Payslip Detail)
    → Memᴰ s slips
    → has_payslip_for slips s.employee_id ≡ true
unfolding has_payslip_for
known_slip slips s m =
    true-any (λ (p : Payslip Detail). str_eq p.employee_id s.employee_id) m (eq_refl s.employee_id)

none_new :
    (stored slips : List (Payslip Detail))
    → ((s : Payslip Detail) → Memᴰ s slips → Memᴰ s stored)
    → new_payslips stored slips ≡ []
none_new stored [] h = refl
none_new stored (s ∷ ss) h =
    let known = known_slip stored s (h s (Memᴰ.head refl)) in
    let rest = none_new stored ss (λ t m. h t (Memᴰ.tail m)) in ground arith

-- Processing a run, if it succeeds: the id found a run of the organization that was approved; it then
-- finds the run completed, with the payslips, the approver, the organization, the period and the month
-- that it had, and every other id finds the run that it found.
pub process_payroll_run-eq-ok :
    (id org : String) (db db' : PayrollDatabase)
    → process_payroll_run id org db ≡ ok db'
    → (before : PayrollRunRow) × (after : PayrollRunRow) × (find_run_row id db.runs ≡ some before)
      × (before.props.organization_id ≡ org)
      × (before.props.status ≡ approved)
      × (find_run_row id db'.runs ≡ some after)
      × (after.props ≡ record (before.props) { status = completed })
      × (after.payslips ≡ before.payslips)
      × ((other : String) → other ≢ id → find_run_row other db'.runs ≡ find_run_row other db.runs)
unfolding process_payroll_run
process_payroll_run-eq-ok id org db db' h =
    let (r, e0, h0) = >>=-eq-ok (load_run id org db) _ h in
    let (started, e1, h1) = >>=-eq-ok (Run.start_processing r) _ h0 in
    let (done, e2, h2) = >>=-eq-ok (Run.complete started) _ h1 in
    let (row, found, same, slips, own) = load_run-eq-ok id org db r e0 in
    let (was, is, kept, all) = process_status r started done e1 e2 in
    let (runs, _, _, _) = commit_run-eq-ok done db db' h2 in
    let id_is : done.props.id ≡ id =
      ap (λ (p : PayrollRunProps). p.id)
        (all ∙ ap (λ (p : PayrollRunProps). record p { status = completed }) same)
      ∙ find_run_row-id id db.runs row found in
    let there : find_run_row done.props.id db.runs ≡ some row =
      ap (λ z. find_run_row z db.runs) id_is ∙ found in
    (
      row,
      updated_run done row,
      found,
      ap (λ (p : PayrollRunProps). p.organization_id) (sym same) ∙ own,
      ap (λ (p : PayrollRunProps). p.status) (sym same) ∙ was,
      ap (find_run_row id) runs
          ∙ ap (λ z. find_run_row z (upsert_run done db.runs)) (sym id_is)
          ∙ find_run_row-upsert_same done db.runs row there,
      ap
          (λ (p : PayrollRunProps). record (row.props) {
            status = p.status;
            approved_by_id = p.approved_by_id;
            approved_at = p.approved_at;
          })
          (all ∙ ap (λ (p : PayrollRunProps). record p { status = completed }) same),
      ap (λ (ps : List (Payslip Detail)). row.payslips ++ ps)
            (none_new row.payslips done.payslips (λ s m. subst (Memᴰ s) (kept ∙ slips) m))
          ∙ append-nil row.payslips,
      λ other ne.
          ap (find_run_row other) runs
          ∙ find_run_row-upsert_other done other db.runs (λ e. ne (sym e ∙ id_is)),
    )
