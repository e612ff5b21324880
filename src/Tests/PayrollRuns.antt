-- ===== src/Tests/PayrollRuns.antt =====
-- A payroll run in the database, and the salary structure of an employee.
use ratel_financial_platform.Prelude.{ℕ, ◌≡◌, refl, ◌≢◌, Option, none, some, String, [], ◌∷◌}
use ratel_financial_platform.Prelude.Int.{pos, ◌+ℤ◌}
use ratel_financial_platform.Errors.{Result, ok, err}
use ratel_financial_platform.Money
use ratel_financial_platform.Money.{Money, ngn}
use ratel_financial_platform.Workflow.Chain
use ratel_financial_platform.Workflow.Chain.{organization}
use ratel_financial_platform.Workflow.Engine
use ratel_financial_platform.Workflow.Progress
use ratel_financial_platform.Workflow.Policies.{step}
use ratel_financial_platform.Workflow.Roles.{get_roles_for_user}
use ratel_financial_platform.Period
use ratel_financial_platform.Period.{open_status}
use ratel_financial_platform.Database.{Database}
use ratel_financial_platform.Database.Approvals
use ratel_financial_platform.Database.Periods
use ratel_financial_platform.Payroll.Payslip.{Payslip, add_amounts}
use ratel_financial_platform.Payroll.Run
use ratel_financial_platform.Payroll.Run.{
  PayrollRun, PayrollRunStatus, pending_approval, approved, completed,
}
use ratel_financial_platform.Payroll.SalaryStructure
use ratel_financial_platform.Payroll.SalaryStructure.{SalaryStructureProps, Detail, empty_object}
use ratel_financial_platform.Payroll.Tables
use ratel_financial_platform.Payroll.Tables.{
  PayrollRunRow, PayrollDatabase, find_run_row, find_run, save_run, upsert_run,
}
use ratel_financial_platform.Payroll.Handlers.{
  load_run, assert_run_period_open, payroll_run_to_approvable, commit_run, submit_payroll_run,
  reject_payroll_run, process_payroll_run, create_salary_structure_version,
}
use ratel_financial_platform.Payroll.Handlers.Laws.{process_payroll_run-eq-ok}
use ratel_financial_platform.Payroll.Run.{draft}
use ratel_financial_platform.Payroll.Handlers.Steps.{rest, rejected_never_resubmitted}
use ratel_financial_platform.Payroll.Handlers.Versions.{
  Follows, create_salary_structure_version-eq-ok,
}

abbrev naira : ℕ → Money
naira n = record { minor_units = pos n; currency = ngn }

abbrev slip : Payslip Detail
slip = record {
  id = "s1";
  employee_id = "emp";
  salary_structure_snapshot = empty_object;
  line_items = [];
  tax_computation = record { strategy = "noop"; computed_tax = naira 0; breakdown = empty_object };
  gross_pay = naira 90_000;
  net_pay = naira 90_000;
  created_at = 3;
}

abbrev run_in : PayrollRunStatus → Option String → Option ℕ → PayrollRunRow
run_in s by at = record {
  props = record {
    id = "r1";
    organization_id = "org";
    period_id = "p1";
    status = s;
    run_month = 0;
    created_by_id = "hr";
    approved_by_id = by;
    approved_at = at;
    created_at = 2;
  };
  payslips = slip ∷ [];
}

abbrev base : SalaryStructureProps
base = record {
  id = "st1";
  organization_id = "org";
  employee_id = "emp";
  version = 1;
  effective_from = 0;
  effective_to = none;
  base_salary_line_items = [];
  created_at = 1;
}

abbrev core : Database
core = record {
  expenses = [];
  sequences = [];
  periods =
      record {
        id = "p1";
        organization_id = "org";
        start_date = 0;
        end_date = 864_000_000;
        status = open_status;
        closed_by_id = none;
        closed_at = none;
        created_at = 1;
      }
      ∷ [];
  approvals =
      record {
        item_id = "r1";
        item_type = "PayrollRun";
        chain = step 1 "finance_director" organization ∷ [];
        records = [];
      }
      ∷ [];
  outbox = [];
  departments = [];
  categories = [];
  vendors = [];
  projects = [];
  roles = record {
    department_rows = [];
    organization_rows =
        record { user_id = "fin"; role = "finance_director"; organization_id = "org" } ∷ [];
  };
}

abbrev tables : PayrollRunRow → PayrollDatabase
tables r = record { core = core; runs = r ∷ []; structures = base ∷ [] }

abbrev pending : PayrollDatabase
pending = tables (run_in pending_approval none none)

abbrev granted : PayrollDatabase
granted = tables (run_in approved (some "fin") (some 9))

abbrev left : Result PayrollDatabase → PayrollDatabase
left (ok db) = db
left (err _) = pending

abbrev left_with : Result (String × PayrollDatabase) → String × PayrollDatabase
left_with (ok r) = r
left_with (err _) = ("", pending)

rejects :
    reject_payroll_run "r1" "org" "fin" "no" 9 pending
    ≡ ok (left (reject_payroll_run "r1" "org" "fin" "no" 9 pending))
unfolding reject_payroll_run load_run assert_run_period_open payroll_run_to_approvable commit_run
    find_run find_run_row save_run upsert_run Run.total_gross_pay Run.reconstitute Run.reject
    add_amounts Money.of Money.supported_currency Money.add ◌+ℤ◌ Periods.period_is_open
    Periods.find_by_id Periods.find_row Period.is_open Period.reconstitute Approvals.find_by_item_id
    Approvals.find_row Approvals.by_step_order Approvals.save Chain.of Engine.record_rejection
    Engine.assert_holds_current_step_role Engine.holds_required_role Progress.record_rejection
    Progress.current_step_requirement get_roles_for_user Chain.step_at
rejects = refl

rejected_never_resubmitted_example :
    ((after : PayrollRunRow) × (find_run_row "r1"
          (left (reject_payroll_run "r1" "org" "fin" "no" 9 pending)).runs
        ≡ some after)
      × (after.props.status ≡ draft))
    × (submit_payroll_run "r1" "org" (left (reject_payroll_run "r1" "org" "fin" "no" 9 pending))
        ≢ ok pending)
rejected_never_resubmitted_example =
    rejected_never_resubmitted "r1" "org" "fin" "no" 9 pending
      (left (reject_payroll_run "r1" "org" "fin" "no" 9 pending)) "org"
      (left (reject_payroll_run "r1" "org" "fin" "no" 9 pending)) pending rejects rest

processes :
    process_payroll_run "r1" "org" granted ≡ ok (left (process_payroll_run "r1" "org" granted))
unfolding process_payroll_run load_run commit_run find_run find_run_row save_run upsert_run
    Run.reconstitute Run.start_processing Run.complete
processes = refl

process_payroll_run-eq-ok_example :
    (before : PayrollRunRow) × (after : PayrollRunRow) × (find_run_row "r1" granted.runs
      ≡ some before)
    × (before.props.organization_id ≡ "org")
    × (before.props.status ≡ approved)
    × (find_run_row "r1" (left (process_payroll_run "r1" "org" granted)).runs ≡ some after)
    × (after.props ≡ record (before.props) { status = completed })
    × (after.payslips ≡ before.payslips)
    × ((other : String)
        → other ≢ "r1"
        → find_run_row other (left (process_payroll_run "r1" "org" granted)).runs
          ≡ find_run_row other granted.runs)
process_payroll_run-eq-ok_example =
    process_payroll_run-eq-ok "r1" "org" granted (left (process_payroll_run "r1" "org" granted))
      processes

abbrev raised : String × PayrollDatabase
raised = left_with (create_salary_structure_version "org" "emp" 86_400_000 [] "st2" 9 pending)

raises : create_salary_structure_version "org" "emp" 86_400_000 [] "st2" 9 pending ≡ ok raised
unfolding create_salary_structure_version SalaryStructure.create_next_version SalaryStructure.close
    SalaryStructure.reconstitute Tables.find_active_for_employee Tables.active_row
    Tables.save_next_version Tables.save_structure Tables.set_effective_to
raises = refl

create_salary_structure_version-eq-ok_example :
    Follows "org" "emp" 86_400_000 pending.structures raised.1.structures
create_salary_structure_version-eq-ok_example =
    create_salary_structure_version-eq-ok "org" "emp" 86_400_000 [] "st2" 9 pending raised (tt, tt)
      raises
