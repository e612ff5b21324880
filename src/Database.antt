-- ===== src/Database.antt =====
-- The tables that the handlers read and write (prisma/schema.prisma). A handler runs in one
-- transaction: it reads a database and, unless it throws, leaves another one.
pub mod Expenses
pub mod Periods
pub mod Approvals
use Prim.Native.Nat.{◌/◌}
use ratel_financial_platform.Prelude.{
  ℕ, ◌*◌, String, Bool, ◌&&◌, Option, List, [], ◌∷◌, ◌++◌, str_eq, any,
}
use ratel_financial_platform.Errors.{
  Result, ok, err, throw_if, Failure, inactive_or_missing_reference_data,
}
use ratel_financial_platform.Events.{DomainEvent}
use ratel_financial_platform.Expense.Aggregate.{ExpenseProps}
use ratel_financial_platform.Period.{PeriodProps}
use ratel_financial_platform.Workflow.Chain.{ApprovalChain}
use ratel_financial_platform.Workflow.Progress.{ApprovalRecord}
use ratel_financial_platform.Workflow.Roles.{RoleTables}

-- A `@db.Date` column keeps the day of a time in milliseconds.
abbrev pub to_date : ℕ → ℕ
to_date time = time / 86400000 * 86400000

pub record ReferenceRow : Type 0 where
  pub id : String
  pub organization_id : String
  pub is_active : Bool

-- A row of `approval_progress` with its rows of `approval_records` in step order.
pub record ApprovalRow : Type 0 where
  pub item_id : String
  pub item_type : String
  pub chain : ApprovalChain
  pub records : List ApprovalRecord

pub record SequenceRow : Type 0 where
  pub organization_id : String
  pub next_value : ℕ

pub record Database : Type 0 where
  pub expenses : List ExpenseProps
  pub sequences : List SequenceRow
  pub periods : List PeriodProps
  pub approvals : List ApprovalRow
  pub outbox : List DomainEvent
  pub departments : List ReferenceRow
  pub categories : List ReferenceRow
  pub vendors : List ReferenceRow
  pub projects : List ReferenceRow
  pub roles : RoleTables

-- `findFirst({ where: { id, organizationId, isActive: true } })`, as whether there is one.
unfoldable pub has_active : List ReferenceRow → String → String → Bool
has_active rows id org =
    any (λ (r : ReferenceRow). str_eq r.id id && str_eq r.organization_id org && r.is_active) rows

-- `OutboxService.enqueue`; an outbox row is represented by its event.
unfoldable pub enqueue : List DomainEvent → Database → Database
enqueue events db = record db { outbox = db.outbox ++ events }
