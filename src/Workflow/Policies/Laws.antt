-- ===== src/Workflow/Policies/Laws.antt =====
-- What chains the policies ask for.
use ratel_financial_platform.Prelude.{
  ℕ, ◌<◌, ◌≡◌, List, String, [], ◌∷◌, arith, length, leb, ◌+◌, str_eq, if◌then◌else◌,
}
use ratel_financial_platform.Prelude.Int.{ℤ, pos, neg}
use ratel_financial_platform.Workflow.Chain.{ApprovalStep, of}
use ratel_financial_platform.Workflow.Chain.Laws.{IsContiguous}
use ratel_financial_platform.Workflow.Engine.{Approvable}
use ratel_financial_platform.Workflow.Policies.{
  absolute_amount, resolve_expense_chain, resolve_payroll_chain,
}

-- The size of an amount, as a number.
abbrev pub magnitude : ℤ → ℕ
magnitude (pos n) = n
magnitude (ℤ.negsuc n) = ℕ.suc n

pub absolute_amount-magnitude : (n : ℤ) → absolute_amount n ≡ pos (magnitude n)
unfolding absolute_amount neg
absolute_amount-magnitude n = ground arith

-- An expense's chain is never empty and its step orders run from 1 without a gap.
pub resolve_expense_chain-IsContiguous :
    (item : Approvable)
    → IsContiguous 1 (resolve_expense_chain item) × (0 < length (resolve_expense_chain item))
unfolding resolve_expense_chain of
resolve_expense_chain-IsContiguous item =
    rw (absolute_amount-magnitude item.amount_minor_units) (ground arith)

-- Amounts of the same size, whatever their signs, get the same chain.
pub resolve_expense_chain_by_magnitude :
    (a b : Approvable)
    → magnitude a.amount_minor_units ≡ magnitude b.amount_minor_units
    → resolve_expense_chain a ≡ resolve_expense_chain b
unfolding resolve_expense_chain
resolve_expense_chain_by_magnitude a b h =
    rw
      (
        absolute_amount-magnitude a.amount_minor_units,
        absolute_amount-magnitude b.amount_minor_units,
      )
      (rw h)

-- How many steps of a chain require a role.
pub count_role : String → List ApprovalStep → ℕ
count_role role [] = 0
count_role role (s ∷ ss) = (if str_eq s.required_role role then 1 else 0) + count_role role ss

-- The published tiers: one department head up to NGN 100,000 and three above it; a finance director
-- from NGN 1,000,000 on; and nobody else.
pub resolve_expense_chain_tiers :
    (item : Approvable)
    → let n = magnitude item.amount_minor_units in
      let chain = resolve_expense_chain item in
      (count_role "department_head" chain ≡ (if leb n 10_000_000 then 1 else 3))
      × (count_role "finance_director" chain ≡ (if leb 100_000_000 n then 1 else 0))
      × (length chain ≡ count_role "department_head" chain + count_role "finance_director" chain)
unfolding resolve_expense_chain of count_role
resolve_expense_chain_tiers item =
    rw (absolute_amount-magnitude item.amount_minor_units) (ground arith)

pub resolve_payroll_chain-IsContiguous :
    (item : Approvable)
    → IsContiguous 1 (resolve_payroll_chain item) × (length (resolve_payroll_chain item) ≡ 1)
unfolding resolve_payroll_chain of
resolve_payroll_chain-IsContiguous item = ground arith
