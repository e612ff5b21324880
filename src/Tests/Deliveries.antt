-- ===== src/Tests/Deliveries.antt =====
-- Delivery of events on two subscribers, one of which fails, and the diff of an aggregate.
use ratel_financial_platform.Prelude.{
  ℕ, String, Bool, true, false, Option, none, some, List, [], ◌∷◌, ◌++◌, ◌≡◌, refl, arith, map,
  str_eq, if◌then◌else◌,
}
use ratel_financial_platform.Prelude.Int.{pos}
use ratel_financial_platform.Errors.{ok}
use ratel_financial_platform.Money.{ngn}
use ratel_financial_platform.Serialization.Json.{JsonValue, JsonFields, Unknown, UnknownFields}
use ratel_financial_platform.Serialization.KeyFree.{SameValue}
use ratel_financial_platform.Serialization.Lookup.{lookup}
use ratel_financial_platform.Audit.Subscriber.{StoredEvent, extract_old_value}
use ratel_financial_platform.Events.Diff.{
  RecordedEvent, AggregateRoot, normalized_state, record_event, value_at,
}
use ratel_financial_platform.Events.Audited.{fields_of, record_event_audited}
use ratel_financial_platform.Payroll.Payslip.{SalaryLineItem, allowance, TaxComputation}
use ratel_financial_platform.Payroll.LineItems.{
  serialize_line_items, deserialize_line_items, serialize_tax_computation,
  deserialize_tax_computation, deserialize-serialize,
}
use ratel_financial_platform.Delivery.Dispatcher.{
  Registration, Registry, handlers_of, register, subscribers_for,
}
use ratel_financial_platform.Delivery.Deliveries.{FailedDelivery, pending_retry, find_delivery}
use ratel_financial_platform.Delivery.Outbox.{
  OutboxEvent, pending, DeliveryState, Fault, at_update, oldest_first, to_domain_event,
  pending_batch, dispatch_pending_batch,
}
use ratel_financial_platform.Delivery.Redelivery.{run_job}
use ratel_financial_platform.Delivery.Settles.{Settled, run_job_settles}
use ratel_financial_platform.Delivery.Recorded.{
  IsOwed, is_waiting, Threw, names_for, dispatch_pending_batch_loses_nothing,
}
use ratel_financial_platform.Delivery.Names.{IsDistinct, register_keeps-IsDistinct}

-- The audit subscriber writes, and the mail subscriber throws.
abbrev run : String → StoredEvent → List String → List String × Option String
run name event world =
    if str_eq name "Audit" then (event.type ∷ world, none) else (world, some "smtp down")

abbrev add_job : String → List String → Option (List String)
add_job id jobs = some (id ∷ jobs)

abbrev uuid : ℕ → String
uuid n = "f1"

abbrev registry : Registry
registry = record {
  handlers = record { event_type = "ExpenseApproved"; name = "Mail" } ∷ [];
  global_subscribers = "Audit" ∷ [];
}

abbrev stored : OutboxEvent
stored = record {
  id = "o1";
  aggregate_type = "Expense";
  aggregate_id = "e1";
  event_type = "ExpenseApproved";
  payload = JsonFields.field "organizationId" (JsonValue.text "org") JsonFields.no_fields;
  status = pending;
  correlation_id = "c1";
  request_id = none;
  ip_address = none;
  user_agent = none;
  source = "http";
  created_at = 5;
  dispatched_at = none;
}

abbrev waiting : FailedDelivery
waiting = record {
  id = "f1";
  outbox_event_id = "o1";
  event_type = "ExpenseApproved";
  subscriber_name = "Mail";
  attempts = 1;
  last_error = "smtp down";
  status = pending_retry;
  created_at = 6;
  organization_id = "org";
}

abbrev before : DeliveryState (List String) (List String)
before = record { outbox = stored ∷ []; deliveries = []; jobs = []; world = [] }

abbrev after : DeliveryState (List String) (List String)
after = record { outbox = stored ∷ []; deliveries = waiting ∷ []; jobs = "f1" ∷ []; world = [] }

-- The database throws at the update of another row.
abbrev fault : String → Option Fault
fault id = if str_eq id "o2" then some at_update else none

batch_taken : pending_batch 100 before.outbox ≡ [] ++ stored ∷ []
unfolding pending_batch oldest_first
batch_taken = refl

dispatch_pending_batch_loses_nothing_example :
    (is_waiting "o1" (dispatch_pending_batch run add_job uuid registry fault 100 6 before).outbox
      ≡ false)
    × ((name : String)
        → Threw run
            (names_for run add_job uuid registry fault "ExpenseApproved")
            (to_domain_event stored)
            []
            name
        → IsOwed
            (dispatch_pending_batch run add_job uuid registry fault 100 6 before).deliveries
            ("o1", name))
dispatch_pending_batch_loses_nothing_example =
    dispatch_pending_batch_loses_nothing run add_job uuid registry fault 100 6 before [] stored []
      batch_taken refl

waiting_found : find_delivery "f1" after.deliveries ≡ some waiting
unfolding find_delivery
waiting_found = refl

run_job_settles_example :
    (q : FailedDelivery) × (find_delivery "f1" (run_job run registry 5 0 5 "f1" after).deliveries
      ≡ some q)
    × Settled waiting 5 q
run_job_settles_example =
    run_job_settles run registry 5 "f1" after waiting (omega arith) waiting_found (λ e. cc)

abbrev registered : Registry
registered = record registry {
  handlers = registry.handlers ++ record { event_type = "ExpenseApproved"; name = "Report" } ∷ [];
}

register_succeeds : register "ExpenseApproved" "Report" registry ≡ ok registered
unfolding register handlers_of
register_succeeds = refl

mail_or_not :
    (b : Bool)
    → IsDistinct (
        map
          (λ (r : Registration). r.name)
          (elim b [
            | true ↦ record { event_type = "ExpenseApproved"; name = "Mail" } ∷ []
            | false ↦ []
          ])
        ++ "Audit" ∷ [])
mail_or_not true = (refl, (refl, tt))
mail_or_not false = (refl, tt)

names_distinct : (event : StoredEvent) → IsDistinct (subscribers_for event registry)
unfolding subscribers_for handlers_of
names_distinct event = mail_or_not (str_eq "ExpenseApproved" event.type)

abbrev any_event : StoredEvent
any_event = record {
  type = "ExpenseApproved";
  aggregate_type = "Expense";
  aggregate_id = "e1";
  occurred_at = 5;
  payload = JsonFields.no_fields;
  correlation_id = none;
  request_id = none;
  ip_address = none;
  user_agent = none;
  source = none;
}

register_keeps-IsDistinct_example : IsDistinct (subscribers_for any_event registered)
register_keeps-IsDistinct_example =
    register_keeps-IsDistinct "ExpenseApproved" "Report" registry registered register_succeeds
      names_distinct any_event

abbrev new_state : Unknown
new_state = Unknown.object (
    UnknownFields.field "status" (Unknown.text "approved")
      (UnknownFields.field "id" (Unknown.text "e1") UnknownFields.no_fields))

abbrev old_state : JsonFields
old_state =
    JsonFields.field "id" (JsonValue.text "e1")
      (JsonFields.field "status" (JsonValue.text "pending_approval") JsonFields.no_fields)

abbrev root : AggregateRoot
root = record { domain_events = []; baseline_state = some old_state }

abbrev approval : RecordedEvent
approval = record {
  type = "ExpenseApproved";
  aggregate_type = "Expense";
  aggregate_id = "e1";
  payload = JsonFields.field "approverId" (JsonValue.text "bob") JsonFields.no_fields;
}

record_event_audited_example :
    (recorded : RecordedEvent) × ((record_event new_state approval root).domain_events
      ≡ [] ++ recorded ∷ [])
    × ((record_event new_state approval root).baseline_state ≡ some (normalized_state new_state))
    × ((key : String)
        → (SameValue (value_at key old_state) (value_at key (normalized_state new_state))
            → lookup key (fields_of (extract_old_value recorded.payload)) ≡ none)
          × ((SameValue (value_at key old_state) (value_at key (normalized_state new_state)) → ⊥)
              → lookup key (fields_of (extract_old_value recorded.payload))
                ≡ some (value_at key old_state)))
record_event_audited_example = record_event_audited new_state approval root old_state refl refl

abbrev line_items : List SalaryLineItem
line_items =
    record {
      kind = allowance;
      label = "base";
      amount = record { minor_units = pos 100050; currency = ngn };
    }
    ∷ []

abbrev tax : TaxComputation String
tax = record {
  strategy = "noop";
  computed_tax = record { minor_units = pos 0; currency = ngn };
  breakdown = "{}";
}

deserialize-serialize_example :
    (deserialize_line_items (serialize_line_items line_items) ≡ ok line_items)
    × (deserialize_tax_computation (serialize_tax_computation tax) ≡ ok tax)
deserialize-serialize_example = deserialize-serialize line_items tax
