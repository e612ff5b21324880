-- ===== src/Payroll/Handlers.antt =====
-- contexts/payroll/application: handlers/*-payroll-run.handler.ts, handlers/add-payslip.handler.ts,
-- mappers/payroll-run-to-approvable.mapper.ts and salary-structure/salary-structure.handlers.ts.
pub mod Laws
pub mod Steps
pub mod Versions
use ratel_financial_platform.Prelude.{
  ℕ, String, Bool, true, false, not, Option, none, some, List, ◌++◌, str_eq,
}
use ratel_financial_platform.Errors.{
  Result, ok, err, ◌>>=◌, ◌>>◌, throw_if, or_throw, entity_not_found, period_closed, no_open_period,
  payroll_run_already_exists, salary_structure_already_exists,
}
use ratel_financial_platform.Events.{DomainEvent}
use ratel_financial_platform.Workflow.Engine
use ratel_financial_platform.Workflow.Engine.{Approvable}
use ratel_financial_platform.Workflow.Policies.{resolve_payroll_chain}
use ratel_financial_platform.Database.{Database, enqueue}
use ratel_financial_platform.Database.Periods.{current_open_period, period_is_open}
use ratel_financial_platform.Database.Approvals
use ratel_financial_platform.Payroll.Payslip
use ratel_financial_platform.Payroll.Payslip.{SalaryLineItem, GenerateInput, no_op_tax_computation}
use ratel_financial_platform.Payroll.Run
use ratel_financial_platform.Payroll.Run.{PayrollRun}
use ratel_financial_platform.Payroll.SalaryStructure
use ratel_financial_platform.Payroll.SalaryStructure.{
  SalaryStructure, Detail, empty_object, to_snapshot,
}
use ratel_financial_platform.Payroll.Tables.{
  PayrollDatabase, find_run, has_run_for, save_run, find_active_for_employee, save_structure,
  save_next_version,
}

abbrev default_currency : String
default_currency = "NGN"

-- `totalGrossPay` throws if a payslip is not in the currency.
unfoldable pub payroll_run_to_approvable : PayrollRun Detail → String → Result Approvable
payroll_run_to_approvable r currency = do
  total ← Run.total_gross_pay currency r
  ok (record {
    id = r.props.id;
    organization_id = r.props.organization_id;
    department_id = none;
    requester_id = r.props.created_by_id;
    amount_minor_units = total.minor_units;
  })

unfoldable pub load_run : String → String → PayrollDatabase → Result (PayrollRun Detail)
load_run run_id org db = do
  r ← or_throw (find_run run_id db) (entity_not_found "PayrollRun" run_id)
  throw_if (not (str_eq r.props.organization_id org)) (entity_not_found "PayrollRun" run_id)
  ok r

unfoldable pub assert_run_period_open :
    String → PayrollRun Detail → PayrollDatabase → Result (Unit {0})
assert_run_period_open org r db =
    throw_if (not (period_is_open org r.props.period_id db.core)) (period_closed r.props.period_id)

abbrev pub enqueue_on : List DomainEvent → PayrollDatabase → PayrollDatabase
enqueue_on events db = record db { core = enqueue events db.core }

unfoldable pub commit_run : PayrollRun Detail → PayrollDatabase → Result PayrollDatabase
commit_run r db = do saved ← save_run r db; ok (enqueue_on r.events saved)

-- `CreatePayrollRunHandler.execute`
unfoldable pub create_payroll_run :
    String → ℕ → String → String → ℕ → PayrollDatabase → Result (String × PayrollDatabase)
create_payroll_run org month created_by new_id now db = do
  period_id ← or_throw (current_open_period org db.core) (no_open_period org)
  throw_if (has_run_for org month db.runs) (payroll_run_already_exists org month)
  let r = Run.create org period_id month created_by new_id now
  saved ← commit_run r db
  ok (r.props.id, saved)

-- `AddPayslipHandler.execute`
unfoldable pub add_payslip_to_run :
    String
    → String
    → String
    → List SalaryLineItem
    → String
    → ℕ
    → PayrollDatabase
    → Result (String × PayrollDatabase)
add_payslip_to_run run_id org employee additional new_id now db = do
  r ← load_run run_id org db
  assert_run_period_open org r db
  s ← or_throw (find_active_for_employee employee db) (entity_not_found "SalaryStructure" employee)
  tax ← no_op_tax_computation empty_object default_currency
  slip ←
      Payslip.generate
        (record {
          employee_id = employee;
          salary_structure_snapshot = to_snapshot s;
          line_items = s.props.base_salary_line_items ++ additional;
          tax_computation = tax;
          currency = default_currency;
        })
        new_id now
  grown ← Run.add_payslip slip r
  saved ← commit_run grown db
  ok (slip.id, saved)

-- `SubmitPayrollRunHandler.execute`
unfoldable pub submit_payroll_run : String → String → PayrollDatabase → Result PayrollDatabase
submit_payroll_run run_id org db = do
  r ← load_run run_id org db
  assert_run_period_open org r db
  sent ← Run.submit_for_approval r
  item ← payroll_run_to_approvable sent default_currency
  core ← Approvals.initialize sent.props.id "PayrollRun" (resolve_payroll_chain item) db.core
  commit_run sent (record db { core = core })

abbrev approve_run_if : Bool → String → ℕ → PayrollRun Detail → Result (PayrollRun Detail)
approve_run_if true approver now r = Run.approve approver now r
approve_run_if false approver now r = ok r

-- `ApprovePayrollRunHandler.execute`
unfoldable pub approve_payroll_run :
    String → String → String → ℕ → PayrollDatabase → Result PayrollDatabase
approve_payroll_run run_id org approver now db = do
  r ← load_run run_id org db
  assert_run_period_open org r db
  progress ←
      or_throw (Approvals.find_by_item_id r.props.id db.core)
        (entity_not_found "ApprovalProgress" r.props.id)
  item ← payroll_run_to_approvable r default_currency
  recorded ← Engine.record_approval db.core.roles item progress approver now
  granted ← approve_run_if recorded.1 approver now r
  core ← Approvals.save r.props.id recorded.0 db.core
  commit_run granted (record db { core = core })

-- `RejectPayrollRunHandler.execute`
unfoldable pub reject_payroll_run :
    String → String → String → String → ℕ → PayrollDatabase → Result PayrollDatabase
reject_payroll_run run_id org approver reason now db = do
  r ← load_run run_id org db
  assert_run_period_open org r db
  progress ←
      or_throw (Approvals.find_by_item_id r.props.id db.core)
        (entity_not_found "ApprovalProgress" r.props.id)
  item ← payroll_run_to_approvable r default_currency
  recorded ← Engine.record_rejection db.core.roles item progress approver reason now
  back ← Run.reject approver reason r
  core ← Approvals.save r.props.id recorded db.core
  commit_run back (record db { core = core })

-- `ProcessPayrollRunHandler.execute`
unfoldable pub process_payroll_run : String → String → PayrollDatabase → Result PayrollDatabase
process_payroll_run run_id org db = do
  r ← load_run run_id org db
  started ← Run.start_processing r
  done ← Run.complete started
  commit_run done db

-- `CancelPayrollRunHandler.execute`
unfoldable pub cancel_payroll_run :
    String → String → String → PayrollDatabase → Result PayrollDatabase
cancel_payroll_run run_id org actor db = do
  r ← load_run run_id org db
  dropped ← Run.cancel actor r
  commit_run dropped db

-- `if (existing) throw …`
abbrev assert_no_structure : String → Option SalaryStructure → Result (Unit {0})
assert_no_structure employee none = ok tt
assert_no_structure employee (some _) = err (salary_structure_already_exists employee)

-- `CreateSalaryStructureHandler.execute`
unfoldable pub create_salary_structure :
    String
    → String
    → ℕ
    → List SalaryLineItem
    → String
    → ℕ
    → PayrollDatabase
    → Result (String × PayrollDatabase)
create_salary_structure org employee from items new_id now db = do
  assert_no_structure employee (find_active_for_employee employee db)
  let s = SalaryStructure.create_initial_version org employee from items new_id now
  saved ← save_structure s db
  ok (s.props.id, enqueue_on s.events saved)

-- `CreateSalaryStructureVersionHandler.execute`
unfoldable pub create_salary_structure_version :
    String
    → String
    → ℕ
    → List SalaryLineItem
    → String
    → ℕ
    → PayrollDatabase
    → Result (String × PayrollDatabase)
create_salary_structure_version org employee from items new_id now db = do
  previous ←
      or_throw (find_active_for_employee employee db) (entity_not_found "SalaryStructure" employee)
  throw_if (not (str_eq previous.props.organization_id org))
      (entity_not_found "SalaryStructure" employee)
  let next = SalaryStructure.create_next_version previous from items new_id now
  let shut = SalaryStructure.close next.props.effective_from previous
  saved ← save_next_version shut next db
  ok (next.props.id, enqueue_on (shut.events ++ next.events) saved)
