-- ===== src/Tests/Approval.antt =====
-- The approval framework on a panel of department heads.
use ratel_financial_platform.Prelude.{
  ◌+◌, ◌≡◌, refl, true, some, [], ◌∷◌, length, leb, if◌then◌else◌,
}
use ratel_financial_platform.Prelude.Int.{ℤ, pos, negsuc}
use ratel_financial_platform.Errors.{ok}
use ratel_financial_platform.Workflow.Chain
use ratel_financial_platform.Workflow.Chain.{
  ApprovalChain, ApprovalStep, StepScope, department, organization, is_last_step,
}
use ratel_financial_platform.Workflow.Progress
use ratel_financial_platform.Workflow.Progress.{ApprovalProgress, ApprovalRecord, start, approval}
use ratel_financial_platform.Workflow.Roles.{RoleTables, get_roles_for_user}
use ratel_financial_platform.Workflow.Engine
use ratel_financial_platform.Workflow.Engine.{Approvable, record_approval}
use ratel_financial_platform.Workflow.Policies
use ratel_financial_platform.Workflow.Policies.{step, resolve_expense_chain}
use ratel_financial_platform.Workflow.Policies.Laws.{
  magnitude, resolve_expense_chain_tiers, count_role,
}
use ratel_financial_platform.Workflow.Reach.{
  Reached, started, approved_by, IsSound, Reached-IsSound,
}
use ratel_financial_platform.Workflow.Reach.Unanimous.{
  IsUnanimous, SignedBy, panel, final_approval-IsUnanimous, expense_final_approval,
}

-- An expense of NGN 500 by an employee of the sales department, and one of NGN -500,000.
abbrev item_of : ℤ → Approvable
item_of amount = record {
  id = "e1";
  organization_id = "org";
  department_id = some "sales";
  requester_id = "ann";
  amount_minor_units = amount;
}

abbrev small : Approvable
small = item_of (pos 50_000)

abbrev large : Approvable
large = item_of (negsuc 49_999_999)

abbrev tables : RoleTables
tables = record {
  department_rows =
      record {
        user_id = "bob";
        role = "department_head";
        department_id = "sales";
        organization_id = "org";
      }
      ∷ record {
        user_id = "eve";
        role = "department_head";
        department_id = "legal";
        organization_id = "org";
      }
      ∷ [];
  organization_rows = [];
}

abbrev sole_chain : ApprovalChain
sole_chain = step 1 "department_head" department ∷ []

small-chain : resolve_expense_chain small ≡ sole_chain
unfolding resolve_expense_chain Policies.absolute_amount Chain.of
small-chain = refl

abbrev fresh : ApprovalProgress
fresh = record { item_id = "e1"; chain = sole_chain; records = [] }

abbrev signed : ApprovalProgress
signed = record { item_id = "e1"; chain = sole_chain; records = approval 1 "bob" 7 ∷ [] }

bob_signs : record_approval tables small fresh "bob" 7 ≡ ok (signed, true)
unfolding record_approval Engine.assert_holds_current_step_role Engine.holds_required_role
    Engine.already_approved Progress.record_approval Progress.current_step_requirement
    get_roles_for_user Chain.step_at Chain.is_last_step Chain.max_order
bob_signs = refl

at_start : Reached (λ _. tables) small sole_chain fresh
unfolding start
at_start = started "e1"

resolve_expense_chain_tiers_example :
    let n = magnitude large.amount_minor_units in
    let chain = resolve_expense_chain large in
    (count_role "department_head" chain ≡ (if leb n 10_000_000 then 1 else 3))
    × (count_role "finance_director" chain ≡ (if leb 100_000_000 n then 1 else 0))
    × (length chain ≡ count_role "department_head" chain + count_role "finance_director" chain)
resolve_expense_chain_tiers_example = resolve_expense_chain_tiers large

Reached-IsSound_example : IsSound (λ _. tables) small sole_chain signed
Reached-IsSound_example =
    Reached-IsSound (λ _. tables) small sole_chain (approved_by at_start "bob" 7 true bob_signs)

final_approval-IsUnanimous_example : IsUnanimous (λ _. tables) small sole_chain signed
final_approval-IsUnanimous_example =
    final_approval-IsUnanimous (λ _. tables) small sole_chain "bob" 7 (refl, tt) at_start tt
      bob_signs

at_policy_start : Reached (λ _. tables) small (resolve_expense_chain small) fresh
at_policy_start = rw small-chain at_start

expense_final_approval_example :
    IsUnanimous (λ _. tables) small (resolve_expense_chain small) signed
    × SignedBy (λ _. tables) small (panel 50_000) signed.records
expense_final_approval_example =
    expense_final_approval (λ _. tables) small "bob" 7 at_policy_start tt bob_signs
