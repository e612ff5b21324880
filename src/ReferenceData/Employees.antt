-- ===== src/ReferenceData/Employees.antt =====
-- contexts/payroll/application/employee/employee.handlers.ts over the rows of `employees` and `users`.
-- `id` is what the database gives a new row.
use ratel_financial_platform.Prelude.{
  String, Bool, true, false, not, ◌&&◌, ◌||◌, Option, none, some, List, [], ◌∷◌, ◌++◌, str_eq, find,
  keep, any, if◌then◌else◌,
}
use ratel_financial_platform.Serialization.Json.{key_before}
use ratel_financial_platform.Errors.{
  Result, ok, ◌>>=◌, ◌>>◌, throw_if, or_throw, user_already_linked, entity_not_found,
}
use ratel_financial_platform.Events.{DomainEvent}
use ratel_financial_platform.ReferenceData.Named.{
  is_some, reference_data_created, reference_data_updated, reference_data_deactivated,
}

pub record EmployeeRow : Type 0 where
  pub id : String
  pub organization_id : String
  pub full_name : String
  pub user_id : Option String
  pub is_active : Bool

pub record EmployeeStore : Type 0 where
  pub employees : List EmployeeRow
  pub users : List String
  pub outbox : List DomainEvent

abbrev pub is_employee : String → String → EmployeeRow → Bool
is_employee id org row = str_eq row.id id && str_eq row.organization_id org

abbrev pub is_user : String → Option String → Bool
is_user user none = false
is_user user (some u) = str_eq u user

unfoldable pub update_employee :
    String → (EmployeeRow → EmployeeRow) → List EmployeeRow → List EmployeeRow
update_employee id change [] = []
update_employee id change (row ∷ rows) =
    let rest = update_employee id change rows in
    if str_eq row.id id then change row ∷ rows else row ∷ rest

unfoldable pub create_employee : String → String → String → EmployeeStore → EmployeeStore
create_employee id organization_id full_name store = record store {
  employees =
      store.employees
      ++ record {
        id = id;
        organization_id = organization_id;
        full_name = full_name;
        user_id = none;
        is_active = true;
      }
        ∷ [];
  outbox = store.outbox ++ reference_data_created "Employee" id organization_id full_name ∷ [];
}

unfoldable pub link_employee_to_user :
    String → String → String → EmployeeStore → Result EmployeeStore
link_employee_to_user id organization_id user_id store = do
  employee ←
      or_throw (find (is_employee id organization_id) store.employees)
        (entity_not_found "Employee" id)
  throw_if
      (is_some (
        find (λ (r : EmployeeRow). is_user user_id r.user_id && not (str_eq r.id id))
          store.employees))
      (user_already_linked user_id)
  throw_if (not (any (λ u. str_eq u user_id) store.users)) (entity_not_found "User" user_id)
  ok (record store {
    employees =
        update_employee id (λ (r : EmployeeRow). record r { user_id = some user_id })
          store.employees;
    outbox =
        store.outbox
        ++ reference_data_updated "Employee" id organization_id employee.full_name ∷ [];
  })

unfoldable pub unlink_employee_from_user : String → String → EmployeeStore → Result EmployeeStore
unlink_employee_from_user id organization_id store = do
  employee ←
      or_throw (find (is_employee id organization_id) store.employees)
        (entity_not_found "Employee" id)
  ok (record store {
    employees =
        update_employee id (λ (r : EmployeeRow). record r { user_id = none }) store.employees;
    outbox =
        store.outbox
        ++ reference_data_updated "Employee" id organization_id employee.full_name ∷ [];
  })

unfoldable pub deactivate_employee : String → String → String → EmployeeStore → Result EmployeeStore
deactivate_employee id organization_id actor_id store = do
  employee ←
      or_throw (find (is_employee id organization_id) store.employees)
        (entity_not_found "Employee" id)
  ok (record store {
    employees =
        update_employee id (λ (r : EmployeeRow). record r { is_active = false }) store.employees;
    outbox = store.outbox ++ reference_data_deactivated "Employee" id organization_id actor_id ∷ [];
  })

unfoldable pub get_employee : String → String → EmployeeStore → Result EmployeeRow
get_employee id organization_id store =
    or_throw (find (is_employee id organization_id) store.employees)
      (entity_not_found "Employee" id)

insert_by_full_name : EmployeeRow → List EmployeeRow → List EmployeeRow
insert_by_full_name r [] = r ∷ []
insert_by_full_name r (s ∷ ss) =
    let rest = insert_by_full_name r ss in
    if key_before s.full_name r.full_name then s ∷ rest else r ∷ s ∷ ss

unfoldable pub by_full_name : List EmployeeRow → List EmployeeRow
unfolding insert_by_full_name
by_full_name [] = []
by_full_name (r ∷ rs) = insert_by_full_name r (by_full_name rs)

unfoldable pub list_employees : String → Bool → EmployeeStore → List EmployeeRow
list_employees organization_id include_inactive store = by_full_name (
    keep
      (λ (r : EmployeeRow).
        str_eq r.organization_id organization_id && (include_inactive || r.is_active))
      store.employees)
