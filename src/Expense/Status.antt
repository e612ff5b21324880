-- ===== src/Expense/Status.antt =====
-- contexts/expense/domain/value-objects: expense-status.ts and expense-source.ts.
use ratel_financial_platform.Prelude.{String, Bool, true, false, Option, some, List, [], ◌∷◌, any}

pub data ExpenseStatus : Type 0 where
  draft pending_approval approved rejected cancelled closed : ExpenseStatus

abbrev pub status_name : ExpenseStatus → String
status_name draft = "draft"
status_name pending_approval = "pending_approval"
status_name approved = "approved"
status_name rejected = "rejected"
status_name cancelled = "cancelled"
status_name closed = "closed"

-- `===` on statuses
abbrev pub same_status : ExpenseStatus → ExpenseStatus → Bool
same_status draft draft = true
same_status pending_approval pending_approval = true
same_status approved approved = true
same_status rejected rejected = true
same_status cancelled cancelled = true
same_status closed closed = true
same_status _ _ = false

-- `allowed.includes(status)`
abbrev pub includes : List ExpenseStatus → ExpenseStatus → Bool
includes allowed s = any (λ t. same_status t s) allowed

-- MUTABLE_STATUSES
abbrev pub mutable_statuses : List ExpenseStatus
mutable_statuses = draft ∷ []

pub data ExpenseSourceType : Type 0 where
  manual employee accountant import integration : ExpenseSourceType

abbrev pub source_name : ExpenseSourceType → String
source_name manual = "manual"
source_name employee = "employee"
source_name accountant = "accountant"
source_name import = "import"
source_name integration = "integration"

pub record ExpenseSource : Type 0 where
  pub kind : ExpenseSourceType
  pub actor_id : String
  pub import_job_id : Option String

-- `importedSource`
pub imported_source : String → String → ExpenseSource
imported_source actor job = record { kind = import; actor_id = actor; import_job_id = some job }
