-- ===== src/Payroll/SalaryStructure.antt =====
-- contexts/payroll/domain/aggregates/salary-structure.aggregate.ts and its events: the versions of an
-- employee's recurring pay.
use ratel_financial_platform.Prelude.{ℕ, ◌+◌, String, Option, none, some, List, [], ◌∷◌, ◌++◌}
use ratel_financial_platform.Prelude.Int.{pos}
use ratel_financial_platform.Events.{DomainEvent, Value, text, date, amount}
use ratel_financial_platform.Payroll.Payslip.{SalaryLineItem}

pub record SalaryStructureProps : Type 0 where
  pub id : String
  pub organization_id : String
  pub employee_id : String
  pub version : ℕ
  pub effective_from : ℕ
  pub effective_to : Option ℕ
  pub base_salary_line_items : List SalaryLineItem
  pub created_at : ℕ

pub record SalaryStructure : Type 0 where
  pub props : SalaryStructureProps
  pub events : List DomainEvent

abbrev structure_event : String → SalaryStructureProps → List (String × Value) → DomainEvent
structure_event type p more = record {
  type = type;
  aggregate_type = "SalaryStructure";
  aggregate_id = p.id;
  payload =
      ("organizationId", text p.organization_id)
      ∷ ("employeeId", text p.employee_id)
      ∷ ("version", amount (pos p.version))
      ∷ more;
}

unfoldable pub create_initial_version :
    String → String → ℕ → List SalaryLineItem → String → ℕ → SalaryStructure
create_initial_version org employee from items new_id now =
    let props : SalaryStructureProps = record {
      id = new_id;
      organization_id = org;
      employee_id = employee;
      version = 1;
      effective_from = from;
      effective_to = none;
      base_salary_line_items = items;
      created_at = now;
    } in
    record {
      props = props;
      events =
          structure_event "SalaryStructureCreated" props (("effectiveFrom", date from) ∷ []) ∷ [];
    }

unfoldable pub create_next_version :
    SalaryStructure → ℕ → List SalaryLineItem → String → ℕ → SalaryStructure
create_next_version previous from items new_id now =
    let props : SalaryStructureProps = record {
      id = new_id;
      organization_id = previous.props.organization_id;
      employee_id = previous.props.employee_id;
      version = previous.props.version + 1;
      effective_from = from;
      effective_to = none;
      base_salary_line_items = items;
      created_at = now;
    } in
    record {
      props = props;
      events =
          structure_event "SalaryStructureVersionCreated" props (
            ("effectiveFrom", date from)
            ∷ ("previousVersionId", text previous.props.id)
            ∷ ("previousVersion", amount (pos previous.props.version))
            ∷ [])
          ∷ [];
    }

unfoldable pub close : ℕ → SalaryStructure → SalaryStructure
close to s = record {
  props = record (s.props) { effective_to = some to };
  events =
      s.events
      ++ structure_event "SalaryStructureClosed" s.props (("effectiveTo", date to) ∷ []) ∷ [];
}

unfoldable pub reconstitute : SalaryStructureProps → SalaryStructure
reconstitute props = record { props = props; events = [] }

-- The JSON that a payslip holds: what `toSnapshot` gives (the id, version, effective date and line
-- items of the structure), or the object with no field.
pub data Detail : Type 0 where
  empty_object : Detail
  snapshot : String → ℕ → ℕ → List SalaryLineItem → Detail

unfoldable pub to_snapshot : SalaryStructure → Detail
to_snapshot s =
    snapshot s.props.id s.props.version s.props.effective_from s.props.base_salary_line_items
