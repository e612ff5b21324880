-- ===== src/Workflow/Policies.antt =====
-- The approval policies: contexts/expense/infrastructure/policies and
-- contexts/payroll/infrastructure/policies.
pub mod Laws
use ratel_financial_platform.Prelude.{ℕ, String, Bool, List, [], ◌∷◌, ◌++◌, if◌then◌else◌}
use ratel_financial_platform.Prelude.Int.{ℤ, pos, neg, ltb_ℤ, leb_ℤ}
use ratel_financial_platform.Workflow.Chain
use ratel_financial_platform.Workflow.Chain.{
  ApprovalChain, ApprovalStep, StepScope, department, organization,
}
use ratel_financial_platform.Workflow.Engine.{Approvable}

abbrev pub step : ℕ → String → StepScope → ApprovalStep
step order role scope = record { order = order; required_role = role; required_scope = scope }

abbrev pub department_head_sole_threshold : ℤ
department_head_sole_threshold = pos 10_000_000

abbrev pub finance_director_threshold : ℤ
finance_director_threshold = pos 100_000_000

unfoldable pub absolute_amount : ℤ → ℤ
absolute_amount n = if ltb_ℤ n (pos 0) then neg n else n

abbrev pub department_head_panel : List ApprovalStep
department_head_panel =
    step 1 "department_head" organization
    ∷ step 2 "department_head" organization
    ∷ step 3 "department_head" organization
    ∷ []

-- `ExpenseApprovalPolicy.resolveChain`
unfoldable pub resolve_expense_chain : Approvable → ApprovalChain
resolve_expense_chain item =
    let amount = absolute_amount item.amount_minor_units in
    if leb_ℤ amount department_head_sole_threshold
    then Chain.of (step 1 "department_head" department ∷ [])
    else if ltb_ℤ amount finance_director_threshold
    then Chain.of department_head_panel
    else Chain.of (department_head_panel ++ step 4 "finance_director" organization ∷ [])

-- `PayrollApprovalPolicy.resolveChain`
unfoldable pub resolve_payroll_chain : Approvable → ApprovalChain
resolve_payroll_chain item = Chain.of (step 1 "finance_director" organization ∷ [])

-- `ExpenseAdjustmentApprovalPolicy.requiresApproval`
unfoldable pub requires_approval : ℤ → ℤ → String → Bool
requires_approval new_amount original_amount reason = ltb_ℤ original_amount new_amount
