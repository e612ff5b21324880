-- ===== src/Workflow/Engine.antt =====
-- shared-kernel/workflow/workflow-engine.ts and approvable.ts.
pub mod Laws
use ratel_financial_platform.Prelude.{
  ℕ, String, Bool, true, false, not, ◌&&◌, ◌||◌, Option, none, some, str_eq, if◌then◌else◌, any,
}
use ratel_financial_platform.Prelude.Int.{ℤ}
use ratel_financial_platform.Errors.{
  Result, ok, err, ◌>>=◌, ◌>>◌, throw_if, self_approval_not_allowed, self_rejection_not_allowed,
  duplicate_approver_in_chain, approver_role_mismatch,
}
use ratel_financial_platform.Workflow.Chain.{ApprovalStep, StepScope, department, organization}
use ratel_financial_platform.Workflow.Progress
use ratel_financial_platform.Workflow.Progress.{
  ApprovalProgress, ApprovalRecord, is_approved, current_step_requirement,
}
use ratel_financial_platform.Workflow.Roles.{RoleTables, RoleAssignment, get_roles_for_user}

pub record Approvable : Type 0 where
  pub id : String
  pub organization_id : String
  pub department_id : Option String
  pub requester_id : String
  pub amount_minor_units : ℤ

-- `r.departmentId === item.departmentId`: null of a row is not the undefined of an item.
abbrev pub same_department : Option String → Option String → Bool
same_department (some a) (some b) = str_eq a b
same_department _ _ = false

abbrev pub is_department : StepScope → Bool
is_department department = true
is_department organization = false

unfoldable pub satisfies : Approvable → ApprovalStep → RoleAssignment → Bool
satisfies item step r =
    str_eq r.role step.required_role
    && (not (is_department step.required_scope)
        || same_department r.department_id item.department_id)

-- `approverRoles.some(…)`
unfoldable pub holds_required_role : RoleTables → Approvable → ApprovalStep → String → Bool
unfolding satisfies
holds_required_role roles item step approver =
    any (satisfies item step) (get_roles_for_user roles approver)

unfoldable pub assert_holds_current_step_role :
    RoleTables → Approvable → ApprovalProgress → String → Result (Unit {0})
assert_holds_current_step_role roles item p approver = elim (current_step_requirement p) [
  | none ↦ ok tt
  | some step ↦
      if holds_required_role roles item step approver
      then ok tt
      else err (approver_role_mismatch approver step.required_role)
]

-- `alreadyApprovedByThisPerson`
unfoldable pub already_approved : ApprovalProgress → String → Bool
already_approved p approver =
    any (λ (r : ApprovalRecord). is_approved r.decision && str_eq r.approver_id approver) p.records

unfoldable pub record_approval :
    RoleTables → Approvable → ApprovalProgress → String → ℕ → Result (ApprovalProgress × Bool)
record_approval roles item p approver now = do
  throw_if (str_eq item.requester_id approver) (self_approval_not_allowed item.id approver)
  throw_if (already_approved p approver) (duplicate_approver_in_chain item.id approver)
  assert_holds_current_step_role roles item p approver
  Progress.record_approval p approver now

unfoldable pub record_rejection :
    RoleTables → Approvable → ApprovalProgress → String → String → ℕ → Result ApprovalProgress
record_rejection roles item p approver why now = do
  throw_if (str_eq item.requester_id approver) (self_rejection_not_allowed item.id approver)
  assert_holds_current_step_role roles item p approver
  ok (Progress.record_rejection p approver why now)
