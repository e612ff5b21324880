-- ===== src/Payroll/Payslip.antt =====
-- contexts/payroll/domain: entities/payslip.entity.ts, value-objects/salary-line-item.ts and
-- value-objects/tax-computation.ts. The frozen salary-structure snapshot and the tax breakdown are
-- opaque JSON to this code: a payslip holds the values it is given, of any type `J`.
pub mod Laws
use ratel_financial_platform.Prelude.{ℕ, String, Bool, true, false, ◌||◌, List, [], ◌∷◌, keep, map}
use ratel_financial_platform.Prelude.Int.{ℤ, pos, ltb_ℤ}
use ratel_financial_platform.Errors.{
  Result, ok, err, ◌>>=◌, ◌>>◌, throw_if, net_pay_exceeds_gross_pay,
}
use ratel_financial_platform.Money
use ratel_financial_platform.Money.{Money, negate}

-- 'allowance' | 'deduction' | 'loan_repayment'
pub data LineItemKind : Type 0 where
  allowance deduction loan_repayment : LineItemKind

pub record SalaryLineItem : Type 0 where
  pub kind : LineItemKind
  pub label : String
  pub amount : Money

pub record TaxComputation (J : Type 0) : Type 0 where
  pub strategy : String
  pub computed_tax : Money
  pub breakdown : J

-- `noOpTaxComputation`; `empty` is the JSON object with no field.
unfoldable pub no_op_tax_computation : {J : Type 0} → J → String → Result (TaxComputation J)
no_op_tax_computation empty currency = do
  zero ← Money.of (pos 0) currency
  ok (record { strategy = "noop"; computed_tax = zero; breakdown = empty })

abbrev pub is_allowance : SalaryLineItem → Bool
is_allowance item = elim item.kind [ allowance ↦ true | _ ↦ false ]

abbrev pub is_deduction : SalaryLineItem → Bool
is_deduction item = elim item.kind [ allowance ↦ false | _ ↦ true ]

-- `items.reduce((sum, item) => sum.add(item.amount), start)`
unfoldable pub add_amounts : Money → List Money → Result Money
add_amounts sum [] = ok sum
add_amounts sum (m ∷ ms) = Money.add sum m >>= λ s. add_amounts s ms

pub record Payslip (J : Type 0) : Type 0 where
  pub id : String
  pub employee_id : String
  pub salary_structure_snapshot : J
  pub line_items : List SalaryLineItem
  pub tax_computation : TaxComputation J
  pub gross_pay : Money
  pub net_pay : Money
  pub created_at : ℕ

pub record GenerateInput (J : Type 0) : Type 0 where
  pub employee_id : String
  pub salary_structure_snapshot : J
  pub line_items : List SalaryLineItem
  pub tax_computation : TaxComputation J
  pub currency : String

abbrev pub amounts : (SalaryLineItem → Bool) → List SalaryLineItem → List Money
amounts p items = map (λ (i : SalaryLineItem). i.amount) (keep p items)

unfoldable pub generate : {J : Type 0} → GenerateInput J → String → ℕ → Result (Payslip J)
generate input new_id now = do
  start ← Money.of (pos 0) input.currency
  gross ← add_amounts start (amounts is_allowance input.line_items)
  deductions ← add_amounts start (amounts is_deduction input.line_items)
  after ← Money.add gross (negate deductions)
  net ← Money.add after (negate input.tax_computation.computed_tax)
  throw_if (ltb_ℤ gross.minor_units net.minor_units) (net_pay_exceeds_gross_pay input.employee_id)
  ok (record {
    id = new_id;
    employee_id = input.employee_id;
    salary_structure_snapshot = input.salary_structure_snapshot;
    line_items = input.line_items;
    tax_computation = input.tax_computation;
    gross_pay = gross;
    net_pay = net;
    created_at = now;
  })
