-- ===== src/Authorization/Guard.antt =====
-- auth/authorization/permission.guard.ts and prisma-effective-scope.resolver.ts over the table
-- `role_permissions`, with step-up.ts, user-principal.ts, permission.decorator.ts and
-- resource-scope-registry.ts of shared-kernel/auth. The registry and its providers are a parameter:
-- `scope_of type id` is `none` when no provider is registered for the type. Of a refusal the text is
-- left out, but not which one it is. `now` is `Date.now()`, and `window` the configured one.
use ratel_financial_platform.Prelude.{
  ℕ, ◌-◌, String, Bool, true, false, not, ◌&&◌, Option, none, some, List, [], ◌∷◌, str_eq, leb, any,
  keep, if◌then◌else◌,
}
use ratel_financial_platform.Prelude.Texts.{is_empty_text}

pub data PermissionScope : Type 0 where
  own department organization : PermissionScope

pub record RolePermission : Type 0 where
  pub role : String
  pub permission : String
  pub scope : PermissionScope

pub record RoleAssignment : Type 0 where
  pub role : String
  pub department_id : Option String

pub record UserPrincipal : Type 0 where
  pub id : String
  pub email : String
  pub organization_id : String
  pub roles : List RoleAssignment
  pub step_up_at : Option ℕ
  pub mfa_verified_at : Option ℕ

pub record PermissionRequirement : Type 0 where
  pub permission : String
  pub resource_type : Option String
  pub requires_step_up : Bool

pub record ResourceScopeInfo : Type 0 where
  pub department_id : Option String
  pub requester_id : String

-- The errors that the guard throws, in its order.
pub data Denial : Type 0 where
  not_authenticated no_roles not_granted : Denial
  no_provider : String → Denial
  not_found : String → String → Denial
  not_own not_in_department step_up_required : Denial
  out_of_scope : Denial

pub data Activation : Type 0 where
  allowed : Activation
  denied : Denial → Activation

-- `now - stepUpAt <= windowMs`, which a time to come satisfies as well.
unfoldable pub is_step_up_fresh : Option ℕ → ℕ → ℕ → Bool
is_step_up_fresh none window now = false
is_step_up_fresh (some at) window now = leb (now - at) window

abbrev pub is_scope : PermissionScope → PermissionScope → Bool
is_scope own own = true
is_scope department department = true
is_scope organization organization = true
is_scope own department = false
is_scope own organization = false
is_scope department own = false
is_scope department organization = false
is_scope organization own = false
is_scope organization department = false

abbrev pub grants_to : List RoleAssignment → String → RolePermission → Bool
grants_to roles permission g =
    any (λ (r : RoleAssignment). str_eq r.role g.role) roles && str_eq g.permission permission

-- `findMany({ where: { role: { in: roles }, permission } })`
unfoldable pub grants_of : List RoleAssignment → String → List RolePermission → List RolePermission
grants_of roles permission table = keep (grants_to roles permission) table

unfoldable pub has_scope : PermissionScope → List RolePermission → Bool
has_scope scope grants = any (λ (g : RolePermission). is_scope scope g.scope) grants

abbrev pub is_empty {ℓ} : {A : Type ℓ} → List A → Bool
is_empty [] = true
is_empty (x ∷ xs) = false

-- What JavaScript takes for true: a text that is there and is not empty.
unfoldable pub truthy : Option String → Option String
truthy none = none
truthy (some s) = if is_empty_text s then none else some s

abbrev pub is_in : Option String → String → Bool
is_in none d = false
is_in (some d') d = str_eq d' d

unfoldable pub in_department : Option String → List RoleAssignment → Bool
in_department none roles = false
in_department (some d) roles = any (λ (r : RoleAssignment). is_in r.department_id d) roles

unfoldable pub resolve_widest_scope :
    List RoleAssignment → String → List RolePermission → Option PermissionScope
resolve_widest_scope roles permission table =
    let grants = grants_of roles permission table in
    if is_empty roles
    then none
    else if is_empty grants
    then none
    else if has_scope organization grants
    then some organization
    else if has_scope department grants
    then some department
    else if has_scope own grants
    then some own
    else none

module _ (window now : ℕ) (requirement : PermissionRequirement) (user : UserPrincipal) where
  unfoldable pub allow : Activation
  allow =
      if requirement.requires_step_up && not (is_step_up_fresh user.step_up_at window now)
      then denied step_up_required
      else allowed

  unfoldable pub within : List RolePermission → ResourceScopeInfo → Activation
  within grants info =
      if has_scope own grants && str_eq info.requester_id user.id
      then allow
      else if has_scope department grants && in_department (truthy info.department_id) user.roles
      then allow
      else if has_scope own grants
      then denied not_own
      else if has_scope department grants
      then denied not_in_department
      else denied out_of_scope

  abbrev pub found :
      String → String → List RolePermission → Option (Option ResourceScopeInfo) → Activation
  found type id grants none = denied (no_provider type)
  found type id grants (some none) = denied (not_found type id)
  found type id grants (some (some info)) = within grants info

  abbrev pub on_resource :
      (String → String → Option (Option ResourceScopeInfo))
      → List RolePermission
      → Option String
      → Option String
      → Activation
  on_resource scope_of grants none id = allow
  on_resource scope_of grants (some type) none = allow
  on_resource scope_of grants (some type) (some id) = found type id grants (scope_of type id)

  unfoldable pub check_permission :
      (String → String → Option (Option ResourceScopeInfo))
      → List RolePermission
      → Option String
      → Activation
  check_permission scope_of table resource_id =
      let grants = grants_of user.roles requirement.permission table in
      if is_empty user.roles
      then denied no_roles
      else if is_empty grants
      then denied not_granted
      else if has_scope organization grants
      then allow
      else on_resource scope_of grants (truthy requirement.resource_type) (truthy resource_id)

unfoldable pub can_activate :
    ℕ
    → ℕ
    → (String → String → Option (Option ResourceScopeInfo))
    → List RolePermission
    → Option PermissionRequirement
    → Option UserPrincipal
    → Option String
    → Activation
can_activate window now scope_of table none user resource_id = allowed
can_activate window now scope_of table (some requirement) none resource_id =
    denied not_authenticated
can_activate window now scope_of table (some requirement) (some user) resource_id =
    check_permission window now requirement user scope_of table resource_id
