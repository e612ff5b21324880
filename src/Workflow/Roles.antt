-- ===== src/Workflow/Roles.antt =====
-- auth/authorization/prisma-user-role.service.ts over the two tables of role assignments, and the
-- `RoleAssignment` of shared-kernel/auth/user-role.port.ts. Role names are compared as texts.
use ratel_financial_platform.Prelude.{String, Option, none, some, List, map, ◌++◌, str_eq, keep}

pub record RoleAssignment : Type 0 where
  pub role : String
  pub department_id : Option String
  pub organization_id : String

pub record DepartmentRoleRow : Type 0 where
  pub user_id : String
  pub role : String
  pub department_id : String
  pub organization_id : String

pub record OrganizationRoleRow : Type 0 where
  pub user_id : String
  pub role : String
  pub organization_id : String

pub record RoleTables : Type 0 where
  pub department_rows : List DepartmentRoleRow
  pub organization_rows : List OrganizationRoleRow

abbrev pub from_department_row : DepartmentRoleRow → RoleAssignment
from_department_row r = record {
  role = r.role;
  department_id = some r.department_id;
  organization_id = r.organization_id;
}

abbrev pub from_organization_row : OrganizationRoleRow → RoleAssignment
from_organization_row r = record {
  role = r.role;
  department_id = none;
  organization_id = r.organization_id;
}

unfoldable pub get_roles_for_user : RoleTables → String → List RoleAssignment
get_roles_for_user t user =
    map from_department_row (keep (λ r. str_eq r.user_id user) t.department_rows)
    ++ map from_organization_row (keep (λ r. str_eq r.user_id user) t.organization_rows)
