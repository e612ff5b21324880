-- ===== src/Payroll/Run.antt =====
-- contexts/payroll/domain: aggregates/payroll-run.aggregate.ts, its events and
-- value-objects/payroll-run-status.ts. The events are as the aggregate gives them to `recordEvent`,
-- without the `changes` that this adds (Events.Diff).
pub mod Lifecycle
pub mod Consistency
use ratel_financial_platform.Prelude.{
  ℕ, String, Bool, true, false, not, Option, none, some, List, [], ◌∷◌, ◌++◌, map, any, str_eq,
}
use ratel_financial_platform.Prelude.Int.{ℤ, pos}
use ratel_financial_platform.Errors.{
  Result, ok, err, ◌>>=◌, ◌>>◌, throw_if, payroll_run_not_mutable, duplicate_payslip,
  empty_payroll_run, invalid_state_transition,
}
use ratel_financial_platform.Money
use ratel_financial_platform.Money.{Money}
use ratel_financial_platform.Events.{DomainEvent, Value, text, date, amount}
use ratel_financial_platform.Payroll.Payslip.{Payslip, add_amounts}

pub data PayrollRunStatus : Type 0 where
  draft pending_approval approved processing completed cancelled : PayrollRunStatus

abbrev pub run_status_name : PayrollRunStatus → String
run_status_name draft = "draft"
run_status_name pending_approval = "pending_approval"
run_status_name approved = "approved"
run_status_name processing = "processing"
run_status_name completed = "completed"
run_status_name cancelled = "cancelled"

abbrev pub same_run_status : PayrollRunStatus → PayrollRunStatus → Bool
same_run_status draft draft = true
same_run_status pending_approval pending_approval = true
same_run_status approved approved = true
same_run_status processing processing = true
same_run_status completed completed = true
same_run_status cancelled cancelled = true
same_run_status _ _ = false

abbrev pub includes : List PayrollRunStatus → PayrollRunStatus → Bool
includes allowed s = any (λ t. same_run_status t s) allowed

-- MUTABLE_RUN_STATUSES
abbrev pub mutable_run_statuses : List PayrollRunStatus
mutable_run_statuses = draft ∷ []

pub record PayrollRunProps : Type 0 where
  pub id : String
  pub organization_id : String
  pub period_id : String
  pub status : PayrollRunStatus
  pub run_month : ℕ
  pub created_by_id : String
  pub approved_by_id : Option String
  pub approved_at : Option ℕ
  pub created_at : ℕ

pub record PayrollRun (J : Type 0) : Type 0 where
  pub props : PayrollRunProps
  pub payslips : List (Payslip J)
  pub events : List DomainEvent

abbrev pub run_event : String → PayrollRunProps → List (String × Value) → DomainEvent
run_event type p more = record {
  type = type;
  aggregate_type = "PayrollRun";
  aggregate_id = p.id;
  payload = ("organizationId", text p.organization_id) ∷ more;
}

module _ {J : Type 0} where
  unfoldable pub create : String → String → ℕ → String → String → ℕ → PayrollRun J
  create organization_id period_id run_month created_by new_id now =
      let props : PayrollRunProps = record {
        id = new_id;
        organization_id = organization_id;
        period_id = period_id;
        status = draft;
        run_month = run_month;
        created_by_id = created_by;
        approved_by_id = none;
        approved_at = none;
        created_at = now;
      } in
      record {
        props = props;
        payslips = [];
        events = run_event "PayrollRunCreated" props (("runMonth", date run_month) ∷ []) ∷ [];
      }

  unfoldable pub reconstitute : PayrollRunProps → List (Payslip J) → PayrollRun J
  reconstitute props payslips = record { props = props; payslips = payslips; events = [] }

  -- `payslips.some((p) => p.employeeId === employeeId)`
  unfoldable pub has_payslip_for : List (Payslip J) → String → Bool
  has_payslip_for slips employee = any (λ (p : Payslip J). str_eq p.employee_id employee) slips

  unfoldable pub add_payslip : Payslip J → PayrollRun J → Result (PayrollRun J)
  add_payslip slip r = do
    throw_if (not (includes mutable_run_statuses r.props.status))
        (payroll_run_not_mutable r.props.id (run_status_name r.props.status))
    throw_if (has_payslip_for r.payslips slip.employee_id)
        (duplicate_payslip r.props.id slip.employee_id)
    ok (record r {
      payslips = r.payslips ++ slip ∷ [];
      events =
          r.events
          ++ run_event "PayslipGenerated" r.props (
              ("employeeId", text slip.employee_id)
              ∷ ("netPayMinorUnits", amount slip.net_pay.minor_units)
              ∷ [])
            ∷ [];
    })

  unfoldable pub assert_transition :
      PayrollRunStatus → List PayrollRunStatus → PayrollRun J → Result (Unit {0})
  assert_transition to allowed_from r =
      throw_if (not (includes allowed_from r.props.status)) (
        invalid_state_transition "PayrollRun" (run_status_name r.props.status) (run_status_name to))

  abbrev pub is_empty_list : List (Payslip J) → Bool
  is_empty_list [] = true
  is_empty_list (_ ∷ _) = false

  unfoldable pub submit_for_approval : PayrollRun J → Result (PayrollRun J)
  unfolding assert_transition
  submit_for_approval r = do
    assert_transition pending_approval (draft ∷ []) r
    throw_if (is_empty_list r.payslips) (empty_payroll_run r.props.id)
    ok (record r {
      props = record (r.props) { status = pending_approval };
      events = r.events ++ run_event "PayrollRunSubmittedForApproval" r.props [] ∷ [];
    })

  unfoldable pub approve : String → ℕ → PayrollRun J → Result (PayrollRun J)
  unfolding assert_transition
  approve approver now r = do
    assert_transition approved (pending_approval ∷ []) r
    ok (record r {
      props = record (r.props) {
        status = approved;
        approved_by_id = some approver;
        approved_at = some now;
      };
      events =
          r.events
          ++ run_event "PayrollRunApproved" r.props (("approverId", text approver) ∷ []) ∷ [];
    })

  -- A rejected run goes back to draft.
  unfoldable pub reject : String → String → PayrollRun J → Result (PayrollRun J)
  unfolding assert_transition
  reject approver reason r = do
    assert_transition draft (pending_approval ∷ []) r
    ok (record r {
      props = record (r.props) { status = draft };
      events =
          r.events
          ++ run_event "PayrollRunRejected" r.props
              (("approverId", text approver) ∷ ("reason", text reason) ∷ [])
            ∷ [];
    })

  unfoldable pub start_processing : PayrollRun J → Result (PayrollRun J)
  unfolding assert_transition
  start_processing r = do
    assert_transition processing (approved ∷ []) r
    ok (record r {
      props = record (r.props) { status = processing };
      events = r.events ++ run_event "PayrollRunProcessingStarted" r.props [] ∷ [];
    })

  unfoldable pub complete : PayrollRun J → Result (PayrollRun J)
  unfolding assert_transition
  complete r = do
    assert_transition completed (processing ∷ []) r
    ok (record r {
      props = record (r.props) { status = completed };
      events = r.events ++ run_event "PayrollRunProcessed" r.props [] ∷ [];
    })

  unfoldable pub cancel : String → PayrollRun J → Result (PayrollRun J)
  unfolding assert_transition
  cancel actor r = do
    assert_transition cancelled (draft ∷ pending_approval ∷ []) r
    ok (record r {
      props = record (r.props) { status = cancelled };
      events =
          r.events ++ run_event "PayrollRunCancelled" r.props (("actorId", text actor) ∷ []) ∷ [];
    })

  unfoldable pub total_gross_pay : String → PayrollRun J → Result Money
  total_gross_pay currency r = do
    start ← Money.of (pos 0) currency
    add_amounts start (map (λ (p : Payslip J). p.gross_pay) r.payslips)
