-- ===== src/Tests/Payrolls.antt =====
-- A payslip of NGN 1,000 with two deductions, and the run that it goes into.
use ratel_financial_platform.Prelude.{ℕ, ◌≡◌, refl, Option, none, some, String, [], ◌∷◌}
use ratel_financial_platform.Prelude.Int.{pos, ◌+ℤ◌, neg}
use ratel_financial_platform.Errors.{ok}
use ratel_financial_platform.Money
use ratel_financial_platform.Money.{Money, CurrencyCode, ngn}
use ratel_financial_platform.Events.{Value}
use ratel_financial_platform.Payroll.Payslip.{
  SalaryLineItem, LineItemKind, allowance, deduction, loan_repayment, Payslip, GenerateInput,
  generate, add_amounts,
}
use ratel_financial_platform.Payroll.Payslip.Laws.{IsBalanced, generate-IsBalanced}
use ratel_financial_platform.Payroll.Run.{
  PayrollRun, PayrollRunStatus, draft, pending_approval, approved, PayrollRunProps, run_event,
}
use ratel_financial_platform.Payroll.Run
use ratel_financial_platform.Payroll.Run.Lifecycle.{Call, approve_call, perform}
use ratel_financial_platform.Payroll.Run.Consistency.{IsConsistent, perform-IsConsistent, Distinct}

abbrev naira : ℕ → Money
naira n = record { minor_units = pos n; currency = ngn }

abbrev line : LineItemKind → String → ℕ → SalaryLineItem
line k label n = record { kind = k; label = label; amount = naira n }

abbrev input : GenerateInput String
input = record {
  employee_id = "emp";
  salary_structure_snapshot = "{}";
  line_items =
      line allowance "basic" 80_000
      ∷ line deduction "pension" 8_000
      ∷ line allowance "housing" 20_000
      ∷ line loan_repayment "loan" 2_000
      ∷ [];
  tax_computation = record { strategy = "noop"; computed_tax = naira 500; breakdown = "{}" };
  currency = "NGN";
}

abbrev slip : Payslip String
slip = record {
  id = "s1";
  employee_id = "emp";
  salary_structure_snapshot = input.salary_structure_snapshot;
  line_items = input.line_items;
  tax_computation = input.tax_computation;
  gross_pay = naira 100_000;
  net_pay = naira 89_500;
  created_at = 3;
}

generates : generate input "s1" 3 ≡ ok slip
unfolding generate add_amounts Money.of Money.supported_currency Money.add Money.negate ◌+ℤ◌ neg
generates = refl

generate-IsBalanced_example : IsBalanced input "s1" 3 slip
generate-IsBalanced_example = generate-IsBalanced input "s1" 3 slip generates

abbrev props_as : PayrollRunStatus → Option String → Option ℕ → PayrollRunProps
props_as s by at = record {
  id = "r1";
  organization_id = "org";
  period_id = "p1";
  status = s;
  run_month = 1;
  created_by_id = "hr";
  approved_by_id = by;
  approved_at = at;
  created_at = 2;
}

abbrev pending : PayrollRun String
pending = record { props = props_as pending_approval none none; payslips = slip ∷ []; events = [] }

abbrev granted : PayrollRun String
granted = record {
  props = props_as approved (some "fin") (some 9);
  payslips = slip ∷ [];
  events =
      run_event "PayrollRunApproved" pending.props (("approverId", Value.text "fin") ∷ []) ∷ [];
}

abbrev grant_call : Call String
grant_call = approve_call "fin"

grants : perform grant_call 9 pending ≡ ok granted
unfolding perform Run.approve
grants = refl

pending-IsConsistent : IsConsistent pending
unfolding Distinct Run.has_payslip_for
pending-IsConsistent = record {
  distinct = (refl, tt);
  nonempty = λ _. tt;
  approver = refl;
  approval_time = refl;
}

perform-IsConsistent_example : IsConsistent granted
perform-IsConsistent_example =
    perform-IsConsistent grant_call 9 pending granted grants pending-IsConsistent
