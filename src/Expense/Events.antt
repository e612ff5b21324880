-- ===== src/Expense/Events.antt =====
-- contexts/expense/domain/events/expense.events.ts: one factory for each event.
use ratel_financial_platform.Prelude.{String, List, [], ◌∷◌}
use ratel_financial_platform.Events.{DomainEvent, Value, text}
use ratel_financial_platform.Expense.Status.{ExpenseSource, source_name}

abbrev expense_event : String → String → List (String × Value) → DomainEvent
expense_event type id payload = record {
  type = type;
  aggregate_type = "Expense";
  aggregate_id = id;
  payload = payload;
}

abbrev pub expense_drafted : String → String → ExpenseSource → DomainEvent
expense_drafted id org src = expense_event "ExpenseDrafted" id (
    ("organizationId", text org)
    ∷ ("source", Value.source (source_name src.kind) src.actor_id src.import_job_id)
    ∷ [])

abbrev pub expense_submitted_for_approval : String → String → DomainEvent
expense_submitted_for_approval id org =
    expense_event "ExpenseSubmittedForApproval" id (("organizationId", text org) ∷ [])

abbrev pub expense_approved : String → String → String → DomainEvent
expense_approved id org approver =
    expense_event "ExpenseApproved" id
      (("organizationId", text org) ∷ ("approverId", text approver) ∷ [])

abbrev pub expense_rejected : String → String → String → String → DomainEvent
expense_rejected id org approver reason =
    expense_event "ExpenseRejected" id
      (("organizationId", text org) ∷ ("approverId", text approver) ∷ ("reason", text reason) ∷ [])

abbrev pub expense_cancelled : String → String → String → DomainEvent
expense_cancelled id org actor =
    expense_event "ExpenseCancelled" id
      (("organizationId", text org) ∷ ("actorId", text actor) ∷ [])

abbrev pub expense_adjustment_created : String → String → String → String → DomainEvent
expense_adjustment_created id org parent reason =
    expense_event "ExpenseAdjustmentCreated" id (
      ("organizationId", text org)
      ∷ ("parentExpenseId", text parent)
      ∷ ("reason", text reason)
      ∷ [])
