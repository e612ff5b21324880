-- ===== src/ReferenceData/Tables.antt =====
-- The handlers of reference-data/application for each type.
use ratel_financial_platform.Prelude.{String, Bool, List}
use ratel_financial_platform.Errors.{Result}
use ratel_financial_platform.ReferenceData.Named.{
  NamedRow, NamedStore, create_named, update_named, deactivate_named, get_named, list_named,
}

-- department.handlers.ts
unfoldable pub create_department : String → String → String → NamedStore → Result NamedStore
create_department = create_named "Department"

unfoldable pub update_department : String → String → String → NamedStore → Result NamedStore
update_department = update_named "Department"

unfoldable pub deactivate_department : String → String → String → NamedStore → Result NamedStore
deactivate_department = deactivate_named "Department"

unfoldable pub get_department : String → String → NamedStore → Result NamedRow
get_department = get_named "Department"

unfoldable pub list_departments : String → Bool → NamedStore → List NamedRow
list_departments = list_named

-- vendor.handlers.ts
unfoldable pub create_vendor : String → String → String → NamedStore → Result NamedStore
create_vendor = create_named "Vendor"

unfoldable pub update_vendor : String → String → String → NamedStore → Result NamedStore
update_vendor = update_named "Vendor"

unfoldable pub deactivate_vendor : String → String → String → NamedStore → Result NamedStore
deactivate_vendor = deactivate_named "Vendor"

unfoldable pub get_vendor : String → String → NamedStore → Result NamedRow
get_vendor = get_named "Vendor"

unfoldable pub list_vendors : String → Bool → NamedStore → List NamedRow
list_vendors = list_named

-- project.handlers.ts
unfoldable pub create_project : String → String → String → NamedStore → Result NamedStore
create_project = create_named "Project"

unfoldable pub update_project : String → String → String → NamedStore → Result NamedStore
update_project = update_named "Project"

unfoldable pub deactivate_project : String → String → String → NamedStore → Result NamedStore
deactivate_project = deactivate_named "Project"

unfoldable pub get_project : String → String → NamedStore → Result NamedRow
get_project = get_named "Project"

unfoldable pub list_projects : String → Bool → NamedStore → List NamedRow
list_projects = list_named

-- category.handlers.ts
unfoldable pub create_category : String → String → String → NamedStore → Result NamedStore
create_category = create_named "ExpenseCategory"

unfoldable pub update_category : String → String → String → NamedStore → Result NamedStore
update_category = update_named "ExpenseCategory"

unfoldable pub deactivate_category : String → String → String → NamedStore → Result NamedStore
deactivate_category = deactivate_named "ExpenseCategory"

unfoldable pub get_category : String → String → NamedStore → Result NamedRow
get_category = get_named "ExpenseCategory"

unfoldable pub list_categories : String → Bool → NamedStore → List NamedRow
list_categories = list_named
