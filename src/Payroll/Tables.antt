-- ===== src/Payroll/Tables.antt =====
-- contexts/payroll/infrastructure/persistence: the tables of payroll runs and salary structures beside
-- those of `Database`. An encrypted column is represented by what decrypts from it.
use ratel_financial_platform.Prelude.{
  ℕ, String, Bool, true, false, not, ◌&&◌, Option, none, some, List, [], ◌∷◌, ◌++◌, str_eq, ◌==◌,
  ltb, find, any, keep, if◌then◌else◌,
}
use ratel_financial_platform.Errors.{Result, ok, ◌>>◌, throw_if, unique_violation}
use ratel_financial_platform.Database.{Database, to_date}
use ratel_financial_platform.Payroll.Payslip.{Payslip}
use ratel_financial_platform.Payroll.Run
use ratel_financial_platform.Payroll.Run.{PayrollRunProps, PayrollRun, has_payslip_for}
use ratel_financial_platform.Payroll.SalaryStructure
use ratel_financial_platform.Payroll.SalaryStructure.{SalaryStructureProps, Detail}

-- A row of `payroll_runs` with its rows of `payslips`.
pub record PayrollRunRow : Type 0 where
  pub props : PayrollRunProps
  pub payslips : List (Payslip Detail)

pub record PayrollDatabase : Type 0 where
  pub core : Database
  pub runs : List PayrollRunRow
  pub structures : List SalaryStructureProps

unfoldable pub find_run_row : String → List PayrollRunRow → Option PayrollRunRow
find_run_row id rows = find (λ (r : PayrollRunRow). str_eq r.props.id id) rows

unfoldable pub find_run : String → PayrollDatabase → Option (PayrollRun Detail)
find_run id db = elim (find_run_row id db.runs) [
  | none ↦ none
  | some row ↦ some (Run.reconstitute row.props row.payslips)
]

-- `findByOrgAndMonth`, as whether there is one
unfoldable pub has_run_for : String → ℕ → List PayrollRunRow → Bool
has_run_for org month rows =
    any
      (λ (r : PayrollRunRow).
        str_eq r.props.organization_id org && r.props.run_month == to_date month)
      rows

-- The payslips of employees who have none stored.
abbrev pub new_payslips : List (Payslip Detail) → List (Payslip Detail) → List (Payslip Detail)
new_payslips stored slips =
    keep (λ (p : Payslip Detail). not (has_payslip_for stored p.employee_id)) slips

abbrev pub updated_run : PayrollRun Detail → PayrollRunRow → PayrollRunRow
updated_run r row = record {
  props = record (row.props) {
    status = r.props.status;
    approved_by_id = r.props.approved_by_id;
    approved_at = r.props.approved_at;
  };
  payslips = row.payslips ++ new_payslips row.payslips r.payslips;
}

unfoldable pub upsert_run : PayrollRun Detail → List PayrollRunRow → List PayrollRunRow
upsert_run r [] =
    record {
      props = record (r.props) { run_month = to_date r.props.run_month };
      payslips = new_payslips [] r.payslips;
    }
    ∷ []
upsert_run r (row ∷ rows) = elim (str_eq row.props.id r.props.id) [
  | true ↦ updated_run r row ∷ rows
  | false ↦ row ∷ upsert_run r rows
]

abbrev pub is_run_stored : String → List PayrollRunRow → Bool
is_run_stored id rows = any (λ (r : PayrollRunRow). str_eq r.props.id id) rows

-- Only a `create` can violate the unique index on the organization and month.
unfoldable pub save_run : PayrollRun Detail → PayrollDatabase → Result PayrollDatabase
save_run r db = do
  throw_if
      (not (is_run_stored r.props.id db.runs)
        && has_run_for r.props.organization_id r.props.run_month db.runs)
      (unique_violation "payroll_runs_organization_id_run_month_key")
  ok (record db { runs = upsert_run r db.runs })

-- The open version of an employee's structure with the highest number.
unfoldable pub active_row : String → List SalaryStructureProps → Option SalaryStructureProps
active_row employee [] = none
active_row employee (r ∷ rs) =
    let rest = active_row employee rs in
    if str_eq r.employee_id employee
    then (elim r.effective_to [
      | some _ ↦ rest
      | none ↦ elim rest [
        | none ↦ some r
        | some s ↦ some (if ltb r.version s.version then s else r)
      ]
    ])
    else rest

unfoldable pub find_active_for_employee :
    String → PayrollDatabase → Option SalaryStructure.SalaryStructure
find_active_for_employee employee db = elim (active_row employee db.structures) [
  | none ↦ none
  | some row ↦ some (SalaryStructure.reconstitute row)
]

-- The row that a `create` inserts.
abbrev pub structure_row : SalaryStructureProps → SalaryStructureProps
structure_row p = record p {
  effective_from = to_date p.effective_from;
  effective_to = elim p.effective_to [ none ↦ none | some t ↦ some (to_date t) ];
}

abbrev pub is_version_taken : SalaryStructureProps → List SalaryStructureProps → Bool
is_version_taken p rows =
    any (λ (r : SalaryStructureProps). str_eq r.employee_id p.employee_id && r.version == p.version)
      rows

-- `save` inserts; `employee_id` and `version` are unique together.
unfoldable pub save_structure :
    SalaryStructure.SalaryStructure → PayrollDatabase → Result PayrollDatabase
save_structure s db = do
  throw_if (is_version_taken s.props db.structures)
      (unique_violation "salary_structures_employee_id_version_key")
  ok (record db { structures = db.structures ++ structure_row s.props ∷ [] })

-- `update({ where: { id }, data: { effectiveTo } })`
unfoldable pub set_effective_to :
    SalaryStructureProps → List SalaryStructureProps → List SalaryStructureProps
set_effective_to p [] = []
set_effective_to p (r ∷ rs) = elim (str_eq r.id p.id) [
  | true ↦ record r { effective_to = (structure_row p).effective_to } ∷ rs
  | false ↦ r ∷ set_effective_to p rs
]

unfoldable pub save_next_version :
    SalaryStructure.SalaryStructure
    → SalaryStructure.SalaryStructure
    → PayrollDatabase
    → Result PayrollDatabase
save_next_version previous next db =
    save_structure next (record db { structures = set_effective_to previous.props db.structures })
