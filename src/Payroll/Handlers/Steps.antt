-- ===== src/Payroll/Handlers/Steps.antt =====
-- The calls of payroll in any order, and the progress of a run.
use ratel_financial_platform.Prelude.{
  ℕ, String, true, some, List, [], ◌∷◌, ◌++◌, ◌≡◌, ◌≢◌, sym, ap, arith,
}
use mathlib.Core.Path.{subst}
use ratel_financial_platform.Errors.{ok, or_throw, throw_if, >>=-eq-ok, ok-injective}
use ratel_financial_platform.Workflow.Chain.{ApprovalChain}
use ratel_financial_platform.Workflow.Engine
use ratel_financial_platform.Workflow.Progress.{ApprovalProgress, ApprovalRecord}
use ratel_financial_platform.Workflow.Policies.{resolve_payroll_chain}
use ratel_financial_platform.Database.{Database, ApprovalRow}
use ratel_financial_platform.Database.Periods.{current_open_period}
use ratel_financial_platform.Database.Approvals
use ratel_financial_platform.Payroll.Payslip
use ratel_financial_platform.Payroll.Payslip.{SalaryLineItem, no_op_tax_computation}
use ratel_financial_platform.Payroll.Run
use ratel_financial_platform.Payroll.Run.{PayrollRun, draft}
use ratel_financial_platform.Payroll.SalaryStructure.{Detail, empty_object}
use ratel_financial_platform.Payroll.Tables.{
  PayrollRunRow, PayrollDatabase, find_run_row, has_run_for, find_active_for_employee,
}
use ratel_financial_platform.Payroll.Handlers.{
  load_run, assert_run_period_open, commit_run, payroll_run_to_approvable, create_payroll_run,
  add_payslip_to_run, submit_payroll_run, approve_payroll_run, approve_run_if, reject_payroll_run,
  process_payroll_run, cancel_payroll_run, default_currency,
}
use ratel_financial_platform.Payroll.Handlers.Laws.{
  commit_run-eq-ok, submitted_once, reject_payroll_run_leaves,
}

-- Calls of the payroll runs' handlers that succeed, one after another, for any run and organization.
pub data RunSteps (db : PayrollDatabase) : PayrollDatabase → Type 0 where
  rest : RunSteps db db
  create :
      {d e : PayrollDatabase} (org : String) (month : ℕ) (by id : String) (now : ℕ) (new : String)
      → RunSteps db d
      → create_payroll_run org month by id now d ≡ ok (new, e)
      → RunSteps db e
  add_payslip :
      {d e : PayrollDatabase} (run org employee : String) (items : List SalaryLineItem)
      (id : String) (now : ℕ) (new : String)
      → RunSteps db d
      → add_payslip_to_run run org employee items id now d ≡ ok (new, e)
      → RunSteps db e
  submit :
      {d e : PayrollDatabase} (run org : String)
      → RunSteps db d
      → submit_payroll_run run org d ≡ ok e
      → RunSteps db e
  approve :
      {d e : PayrollDatabase} (run org by : String) (now : ℕ)
      → RunSteps db d
      → approve_payroll_run run org by now d ≡ ok e
      → RunSteps db e
  reject :
      {d e : PayrollDatabase} (run org by reason : String) (now : ℕ)
      → RunSteps db d
      → reject_payroll_run run org by reason now d ≡ ok e
      → RunSteps db e
  process :
      {d e : PayrollDatabase} (run org : String)
      → RunSteps db d
      → process_payroll_run run org d ≡ ok e
      → RunSteps db e
  cancel :
      {d e : PayrollDatabase} (run org by : String)
      → RunSteps db d
      → cancel_payroll_run run org by d ≡ ok e
      → RunSteps db e

-- The item has a progress.
abbrev Started : String → PayrollDatabase → Type 0
Started id db = Approvals.is_stored id db.core.approvals ≡ true

stored_append :
    (id : String) (rows : List ApprovalRow) (new : ApprovalRow)
    → Approvals.is_stored id rows ≡ true
    → Approvals.is_stored id (rows ++ new ∷ []) ≡ true
stored_append id [] new h = ground arith
stored_append id (r ∷ rows) new h = ground (arith, stored_append id rows new)

stored_flush :
    (id other : String) (rs : List ApprovalRecord) (rows : List ApprovalRow)
    → Approvals.is_stored id rows ≡ true
    → Approvals.is_stored id (Approvals.flush other rs rows) ≡ true
unfolding Approvals.flush
stored_flush id other rs [] h = ground arith
stored_flush id other rs (r ∷ rows) h = let rest = stored_flush id other rs rows in ground arith

initialize_keeps :
    (id other type : String) (c : ApprovalChain) (db db' : Database)
    → Approvals.initialize other type c db ≡ ok db'
    → Approvals.is_stored id db.approvals ≡ true
    → Approvals.is_stored id db'.approvals ≡ true
unfolding Approvals.initialize
initialize_keeps id other type c db db' h k =
    let grown =
      stored_append id db.approvals
        (record { item_id = other; item_type = type; chain = c; records = [] }) k in
    let e : db'.approvals
        ≡ db.approvals
          ++ record { item_id = other; item_type = type; chain = c; records = [] } ∷ [] =
      ground arith in
    subst (λ z. Approvals.is_stored id z ≡ true) (sym e) grown

save_keeps :
    (id other : String) (p : ApprovalProgress) (db db' : Database)
    → Approvals.save other p db ≡ ok db'
    → Approvals.is_stored id db.approvals ≡ true
    → Approvals.is_stored id db'.approvals ≡ true
unfolding Approvals.save
save_keeps id other p db db' h k =
    let e : db'.approvals ≡ Approvals.flush other p.records db.approvals = ground arith in
    subst (λ z. Approvals.is_stored id z ≡ true) (sym e)
      (stored_flush id other p.records db.approvals k)

commit_keeps :
    (id : String) (r : PayrollRun Detail) (db db' : PayrollDatabase)
    → commit_run r db ≡ ok db'
    → Started id db
    → Started id db'
commit_keeps id r db db' h k =
    let (_, same, _, _) = commit_run-eq-ok r db db' h in
    subst (λ z. Approvals.is_stored id z ≡ true) (sym same) k

returned : (r q : String × PayrollDatabase) → ok r ≡ ok q → r.1 ≡ q.1
returned r q h = ap (λ (z : String × PayrollDatabase). z.1) (ok-injective h)

create_keeps :
    (id : String) (d e : PayrollDatabase) (org : String) (month : ℕ) (by new_id : String) (now : ℕ)
    (new : String)
    → create_payroll_run org month by new_id now d ≡ ok (new, e)
    → Started id d
    → Started id e
unfolding create_payroll_run
create_keeps id d e org month by new_id now new h k =
    let (period, _, h0) = >>=-eq-ok (or_throw (current_open_period org d.core) _) _ h in
    let (_, _, h1) = >>=-eq-ok (throw_if (has_run_for org month d.runs) _) _ h0 in
    let (saved, e2, h2) = >>=-eq-ok (commit_run _ d) _ h1 in
    subst (Started id) (returned _ _ h2) (commit_keeps id _ d saved e2 k)

add_payslip_keeps :
    (id : String) (d e : PayrollDatabase) (run org employee : String) (items : List SalaryLineItem)
    (new_id : String) (now : ℕ) (new : String)
    → add_payslip_to_run run org employee items new_id now d ≡ ok (new, e)
    → Started id d
    → Started id e
unfolding add_payslip_to_run
add_payslip_keeps id d e run org employee items new_id now new h k =
    let (r, _, h0) = >>=-eq-ok (load_run run org d) _ h in
    let (_, _, h1) = >>=-eq-ok (assert_run_period_open org r d) _ h0 in
    let (s, _, h2) = >>=-eq-ok (or_throw (find_active_for_employee employee d) _) _ h1 in
    let (tax, _, h3) = >>=-eq-ok (no_op_tax_computation empty_object default_currency) _ h2 in
    let (slip, _, h4) = >>=-eq-ok (Payslip.generate _ new_id now) _ h3 in
    let (more, _, h5) = >>=-eq-ok (Run.add_payslip slip r) _ h4 in
    let (saved, e6, h6) = >>=-eq-ok (commit_run more d) _ h5 in
    subst (Started id) (returned _ _ h6) (commit_keeps id more d saved e6 k)

submit_keeps :
    (id : String) (d e : PayrollDatabase) (run org : String)
    → submit_payroll_run run org d ≡ ok e
    → Started id d
    → Started id e
unfolding submit_payroll_run
submit_keeps id d e run org h k =
    let (r, _, h0) = >>=-eq-ok (load_run run org d) _ h in
    let (_, _, h1) = >>=-eq-ok (assert_run_period_open org r d) _ h0 in
    let (sent, _, h2) = >>=-eq-ok (Run.submit_for_approval r) _ h1 in
    let (item, _, h3) = >>=-eq-ok (payroll_run_to_approvable sent default_currency) _ h2 in
    let (core, e4, h4) =
      >>=-eq-ok
        (Approvals.initialize sent.props.id "PayrollRun" (resolve_payroll_chain item) d.core) _
        h3 in
    commit_keeps id sent (record d { core = core }) e h4
      (initialize_keeps id sent.props.id "PayrollRun" (resolve_payroll_chain item) d.core core e4 k)

approve_keeps :
    (id : String) (d e : PayrollDatabase) (run org by : String) (now : ℕ)
    → approve_payroll_run run org by now d ≡ ok e
    → Started id d
    → Started id e
unfolding approve_payroll_run
approve_keeps id d e run org by now h k =
    let (r, _, h0) = >>=-eq-ok (load_run run org d) _ h in
    let (_, _, h1) = >>=-eq-ok (assert_run_period_open org r d) _ h0 in
    let (p, _, h2) = >>=-eq-ok (or_throw (Approvals.find_by_item_id r.props.id d.core) _) _ h1 in
    let (item, _, h3) = >>=-eq-ok (payroll_run_to_approvable r default_currency) _ h2 in
    let (recorded, _, h4) = >>=-eq-ok (Engine.record_approval d.core.roles item p by now) _ h3 in
    let (granted, _, h5) = >>=-eq-ok (approve_run_if recorded.1 by now r) _ h4 in
    let (core, e6, h6) = >>=-eq-ok (Approvals.save r.props.id recorded.0 d.core) _ h5 in
    commit_keeps id granted (record d { core = core }) e h6
      (save_keeps id r.props.id recorded.0 d.core core e6 k)

reject_keeps :
    (id : String) (d e : PayrollDatabase) (run org by reason : String) (now : ℕ)
    → reject_payroll_run run org by reason now d ≡ ok e
    → Started id d
    → Started id e
unfolding reject_payroll_run
reject_keeps id d e run org by reason now h k =
    let (r, _, h0) = >>=-eq-ok (load_run run org d) _ h in
    let (_, _, h1) = >>=-eq-ok (assert_run_period_open org r d) _ h0 in
    let (p, _, h2) = >>=-eq-ok (or_throw (Approvals.find_by_item_id r.props.id d.core) _) _ h1 in
    let (item, _, h3) = >>=-eq-ok (payroll_run_to_approvable r default_currency) _ h2 in
    let (recorded, _, h4) =
      >>=-eq-ok (Engine.record_rejection d.core.roles item p by reason now) _ h3 in
    let (back, _, h5) = >>=-eq-ok (Run.reject by reason r) _ h4 in
    let (core, e6, h6) = >>=-eq-ok (Approvals.save r.props.id recorded d.core) _ h5 in
    commit_keeps id back (record d { core = core }) e h6
      (save_keeps id r.props.id recorded d.core core e6 k)

process_keeps :
    (id : String) (d e : PayrollDatabase) (run org : String)
    → process_payroll_run run org d ≡ ok e
    → Started id d
    → Started id e
unfolding process_payroll_run
process_keeps id d e run org h k =
    let (r, _, h0) = >>=-eq-ok (load_run run org d) _ h in
    let (started, _, h1) = >>=-eq-ok (Run.start_processing r) _ h0 in
    let (done, _, h2) = >>=-eq-ok (Run.complete started) _ h1 in commit_keeps id done d e h2 k

cancel_keeps :
    (id : String) (d e : PayrollDatabase) (run org by : String)
    → cancel_payroll_run run org by d ≡ ok e
    → Started id d
    → Started id e
unfolding cancel_payroll_run
cancel_keeps id d e run org by h k =
    let (r, _, h0) = >>=-eq-ok (load_run run org d) _ h in
    let (dropped, _, h1) = >>=-eq-ok (Run.cancel by r) _ h0 in commit_keeps id dropped d e h1 k

steps_keep :
    (id : String) {db later : PayrollDatabase}
    → RunSteps db later
    → Started id db
    → Started id later
steps_keep id rest k = k
steps_keep id (create org month by new_id now new s h) k =
    create_keeps id _ _ org month by new_id now new h (steps_keep id s k)
steps_keep id (add_payslip run org employee items new_id now new s h) k =
    add_payslip_keeps id _ _ run org employee items new_id now new h (steps_keep id s k)
steps_keep id (submit run org s h) k = submit_keeps id _ _ run org h (steps_keep id s k)
steps_keep id (approve run org by now s h) k =
    approve_keeps id _ _ run org by now h (steps_keep id s k)
steps_keep id (reject run org by reason now s h) k =
    reject_keeps id _ _ run org by reason now h (steps_keep id s k)
steps_keep id (process run org s h) k = process_keeps id _ _ run org h (steps_keep id s k)
steps_keep id (cancel run org by s h) k = cancel_keeps id _ _ run org by h (steps_keep id s k)

-- Rejecting a run leaves it stored as a draft; but after any further calls of the payroll runs' handlers,
-- for this run or others, no submission of it succeeds: the progress of its first submission is still
-- stored, and a second one is not accepted.
pub rejected_never_resubmitted :
    (id org approver reason : String) (now : ℕ) (db db' : PayrollDatabase) (caller : String)
    (later submitted : PayrollDatabase)
    → reject_payroll_run id org approver reason now db ≡ ok db'
    → RunSteps db' later
    → ((after : PayrollRunRow) × (find_run_row id db'.runs ≡ some after)
        × (after.props.status ≡ draft))
      × (submit_payroll_run id caller later ≢ ok submitted)
rejected_never_resubmitted id org approver reason now db db' caller later submitted h steps =
    let (after, found, is, started) =
      reject_payroll_run_leaves id org approver reason now db db' h in
    ((after, found, is), submitted_once id caller later submitted (steps_keep id steps started))
