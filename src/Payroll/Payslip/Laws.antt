-- ===== src/Payroll/Payslip/Laws.antt =====
-- What the totals of a payslip are, and when one can be generated.
use mathlib.Core.Path.{subst}
use ratel_financial_platform.Prelude.{
  ℕ, String, ◌≡◌, sym, ap, ◌∙◌, false, some, List, [], ◌∷◌, arith, All,
}
use ratel_financial_platform.Prelude.Int.{
  ℤ, pos, ◌+ℤ◌, neg, ◌≤ℤ◌, ltb_ℤ, int_laws, pos_part, neg_part,
}
use ratel_financial_platform.Errors.{ok, throw_if, >>=-eq-ok, throw_if-eq-ok, ok-injective}
use ratel_financial_platform.Money
use ratel_financial_platform.Money.{Money, CurrencyCode, currency_name, negate}
use ratel_financial_platform.Money.Laws.{add-same_currency, add-eq-ok, of-eq-ok}
use ratel_financial_platform.Payroll.Payslip.{
  SalaryLineItem, is_allowance, is_deduction, add_amounts, Payslip, GenerateInput, amounts,
  generate,
}

pub sum : List Money → ℤ
sum [] = pos 0
sum (m ∷ ms) = m.minor_units +ℤ sum ms

abbrev pub InCurrency : CurrencyCode → Money → Type 0
InCurrency c m = m.currency ≡ c

-- Adding up amounts succeeds exactly if all are in the currency of the start, and gives their sum.
add_amounts_lem :
    (s : Money) (ms : List Money)
    → All (InCurrency s.currency) ms
    → add_amounts s ms
      ≡ ok (record { minor_units = s.minor_units +ℤ sum ms; currency = s.currency })
unfolding add_amounts sum
add_amounts_lem s [] h =
    ap (λ (n : ℤ). ok (record { minor_units = n; currency = s.currency })) (omega int_laws)
add_amounts_lem s (m ∷ ms) h = rw (add-same_currency s m (sym h.0)) (
    add_amounts_lem (record { minor_units = s.minor_units +ℤ m.minor_units; currency = s.currency })
      ms h.1
    ∙ ap (λ (n : ℤ). ok (record { minor_units = n; currency = s.currency })) (omega int_laws))

add_amounts-eq-ok :
    (s : Money) (ms : List Money) {t : Money}
    → add_amounts s ms ≡ ok t
    → All (InCurrency s.currency) ms
      × (t.minor_units ≡ s.minor_units +ℤ sum ms)
      × (t.currency ≡ s.currency)
unfolding add_amounts sum
add_amounts-eq-ok s [] {t} h =
    let same : t.minor_units ≡ s.minor_units = ground arith in
    (tt, same ∙ omega int_laws, ground arith)
add_amounts-eq-ok s (m ∷ ms) {t} h =
    let (u, e, k) = >>=-eq-ok (Money.add s m) (λ s. add_amounts s ms) h in
    let (here, n, c) = add-eq-ok s m e in
    let (later, n', c') = add_amounts-eq-ok u ms k in
    ((here, rw c at later), n' ∙ (ap (λ x. x +ℤ sum ms) n ∙ omega int_laws), c' ∙ c)

-- The line items in their two groups.
abbrev pub allowances : List SalaryLineItem → ℤ
allowances items = sum (amounts is_allowance items)

abbrev pub deductions : List SalaryLineItem → ℤ
deductions items = sum (amounts is_deduction items)

-- The steps from gross to net pay, on the numbers alone.
net_total :
    {net after gross ded start : ℤ} (taken tax : ℤ)
    → net ≡ after +ℤ neg tax
    → after ≡ gross +ℤ neg ded
    → ded ≡ start +ℤ taken
    → start ≡ pos 0
    → net +ℤ taken +ℤ tax ≡ gross
net_total taken tax e4 e3 e2 zero = omega (
  int_laws,
  ap pos_part e4,
  ap neg_part e4,
  ap pos_part e3,
  ap neg_part e3,
  ap pos_part e2,
  ap neg_part e2,
  ap pos_part zero,
  ap neg_part zero,
)

module _ {J : Type 0} (input : GenerateInput J) (new_id : String) (now : ℕ) where
  -- A payslip's gross pay is the sum of its allowances; gross pay is net pay, the deductions and
  -- loan repayments, and the tax together; net pay is not above gross pay; and all of it, each line
  -- item included, is in the one supported currency that was asked for.
  pub record IsBalanced (p : Payslip J) : Type 0 where
    pub gross : p.gross_pay.minor_units ≡ allowances input.line_items
    pub net :
        p.net_pay.minor_units
          +ℤ deductions input.line_items
          +ℤ input.tax_computation.computed_tax.minor_units
        ≡ p.gross_pay.minor_units
    pub below : p.net_pay.minor_units ≤ℤ p.gross_pay.minor_units
    pub supported : Money.supported_currency input.currency ≡ some p.gross_pay.currency
    pub one_currency : p.net_pay.currency ≡ p.gross_pay.currency
    pub tax_currency : InCurrency p.gross_pay.currency input.tax_computation.computed_tax
    pub allowance_currency :
        All (InCurrency p.gross_pay.currency) (amounts is_allowance input.line_items)
    pub deduction_currency :
        All (InCurrency p.gross_pay.currency) (amounts is_deduction input.line_items)

  abbrev payslip : Money → Money → Payslip J
  payslip gross net = record {
    id = new_id;
    employee_id = input.employee_id;
    salary_structure_snapshot = input.salary_structure_snapshot;
    line_items = input.line_items;
    tax_computation = input.tax_computation;
    gross_pay = gross;
    net_pay = net;
    created_at = now;
  }

  payslip-IsBalanced :
      (start gross ded after net : Money)
      → Money.of (pos 0) input.currency ≡ ok start
      → add_amounts start (amounts is_allowance input.line_items) ≡ ok gross
      → add_amounts start (amounts is_deduction input.line_items) ≡ ok ded
      → Money.add gross (negate ded) ≡ ok after
      → Money.add after (negate input.tax_computation.computed_tax) ≡ ok net
      → ltb_ℤ gross.minor_units net.minor_units ≡ false
      → IsBalanced (payslip gross net)
  unfolding negate
  payslip-IsBalanced start gross ded after net e0 e1 e2 e3 e4 test =
      let (sup, zero) = of-eq-ok (pos 0) input.currency e0 in
      let (all1, n1, c1) = add_amounts-eq-ok start _ e1 in
      let (all2, n2, c2) = add_amounts-eq-ok start _ e2 in
      let (k3, n3, c3) = add-eq-ok gross _ e3 in
      let (k4, n4, c4) = add-eq-ok after _ e4 in
      let start_is : start.currency ≡ gross.currency = sym c1 in
      record {
        gross = n1 ∙ (ap (λ z. z +ℤ allowances input.line_items) zero ∙ omega int_laws);
        net = net_total _ _ n4 n3 n2 zero;
        below = ground arith;
        supported = sup ∙ ap some start_is;
        one_currency = c4 ∙ c3;
        tax_currency = k4 ∙ c3;
        allowance_currency = rw start_is at all1;
        deduction_currency = rw start_is at all2;
      }

  -- In every payslip that is generated the gross pay is the sum of the allowances, and is the net pay
  -- plus deductions, loan repayments and tax; the net pay is not above it; and every amount is in
  -- the one supported currency that was asked for.
  pub generate-IsBalanced : (p : Payslip J) → generate input new_id now ≡ ok p → IsBalanced p
  unfolding generate
  generate-IsBalanced p h =
      let (start, e0, h0) = >>=-eq-ok (Money.of (pos 0) input.currency) _ h in
      let (gross, e1, h1) =
        >>=-eq-ok (add_amounts start (amounts is_allowance input.line_items)) _ h0 in
      let (ded, e2, h2) =
        >>=-eq-ok (add_amounts start (amounts is_deduction input.line_items)) _ h1 in
      let (after, e3, h3) = >>=-eq-ok (Money.add gross (negate ded)) _ h2 in
      let (net, e4, h4) =
        >>=-eq-ok (Money.add after (negate input.tax_computation.computed_tax)) _ h3 in
      let (u, e5, h5) = >>=-eq-ok (throw_if (ltb_ℤ gross.minor_units net.minor_units) _) _ h4 in
      let test = throw_if-eq-ok (ltb_ℤ gross.minor_units net.minor_units) _ e5 in
      subst IsBalanced (ok-injective h5)
        (payslip-IsBalanced start gross ded after net e0 e1 e2 e3 e4 test)
