-- ===== src/Tests/Permissions.antt =====
-- A department head who looks at an expense of the department.
use ratel_financial_platform.Prelude.{
  ◌↔◌, ◌≡◌, refl, String, true, Option, none, some, List, [], ◌∷◌, str_eq, if◌then◌else◌,
}
use ratel_financial_platform.Prelude.Texts.{is_empty_text}
use ratel_financial_platform.Authorization.Guard.{
  RolePermission, UserPrincipal, PermissionRequirement, ResourceScopeInfo, allowed, can_activate,
  own, check_permission, grants_of, has_scope, truthy, within, in_department, allow,
  is_step_up_fresh, department,
}
use ratel_financial_platform.Authorization.Permitted.{SteppedUp, InScope, can_activate_iff}

abbrev head : UserPrincipal
head = record {
  id = "bob";
  email = "bob@example.org";
  organization_id = "org";
  roles =
      record { role = "department_head"; department_id = some "sales" }
      ∷ record { role = "employee"; department_id = some "sales" }
      ∷ [];
  step_up_at = some 1_000;
  mfa_verified_at = none;
}

abbrev approval_grants : List RolePermission
approval_grants =
    record { role = "employee"; permission = "expense:view"; scope = own }
    ∷ record { role = "department_head"; permission = "expense:view"; scope = department }
    ∷ []

abbrev viewing : PermissionRequirement
viewing = record {
  permission = "expense:view";
  resource_type = some "Expense";
  requires_step_up = true;
}

abbrev scope_at : String → String → Option (Option ResourceScopeInfo)
scope_at type id =
    if str_eq id "e1"
    then some (some (record { department_id = some "sales"; requester_id = "ann" }))
    else some none

can_activate_iff_example :
    (can_activate 600_000 301_000 scope_at approval_grants (some viewing) (some head) (some "e1")
      ≡ allowed)
    ↔ (SteppedUp 600_000 301_000 viewing head scope_at approval_grants (some "e1")
        × InScope 600_000 301_000 viewing head scope_at approval_grants (some "e1"))
can_activate_iff_example =
    can_activate_iff 600_000 301_000 viewing head scope_at approval_grants (some "e1")

head_is_let_in :
    can_activate 600_000 301_000 scope_at approval_grants (some viewing) (some head) (some "e1")
    ≡ allowed
unfolding can_activate check_permission grants_of has_scope truthy is_empty_text within
    in_department allow is_step_up_fresh
head_is_let_in = refl
