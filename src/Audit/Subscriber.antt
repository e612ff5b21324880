-- ===== src/Audit/Subscriber.antt =====
-- shared-kernel/audit/audit.subscriber.ts: what an event that was stored in the outbox records in the
-- audit trail. The event is one that the outbox rebuilt (outbox-event.mapper.ts).
use ratel_financial_platform.Prelude.{ℕ, String, Option, none, some, List, [], ◌∷◌}
use ratel_financial_platform.Serialization.Json.{
  JsonValue, JsonFields, text, object, no_fields, field,
}
use ratel_financial_platform.Serialization.Lookup.{lookup}
use ratel_financial_platform.Audit.Log.{AuditLogEntry, RecordAuditEntryInput, record_entry}

-- A `DomainEvent` as `toDomainEvent` rebuilds it.
pub record StoredEvent : Type 0 where
  pub type : String
  pub aggregate_type : String
  pub aggregate_id : String
  pub occurred_at : ℕ
  pub payload : JsonFields
  pub correlation_id : Option String
  pub request_id : Option String
  pub ip_address : Option String
  pub user_agent : Option String
  pub source : Option String

abbrev actor_keys : List String
actor_keys = "approverId" ∷ "actorId" ∷ "closedById" ∷ "reopenedById" ∷ "createdById" ∷ []

abbrev as_text : Option JsonValue → Option String
as_text (some (text s)) = some s
as_text _ = none

abbrev pub or_else : Option String → Option String → Option String
or_else none next = next
or_else (some s) next = some s

abbrev first_text : List String → JsonFields → Option String
first_text [] payload = none
first_text (key ∷ keys) payload = or_else (as_text (lookup key payload)) (first_text keys payload)

unfoldable pub extract_actor_id : JsonFields → Option String
extract_actor_id payload = first_text actor_keys payload

-- `'from' in change`, and the value there.
abbrev from_of : JsonValue → Option JsonValue
from_of (object fs) = lookup "from" fs
from_of _ = none

abbrev with_from : String → Option JsonValue → JsonFields → JsonFields
with_from key none rest = rest
with_from key (some v) rest = field key v rest

unfoldable pub before_images : JsonFields → JsonFields
before_images no_fields = no_fields
before_images (field key change changes) = with_from key (from_of change) (before_images changes)

-- `Object.keys(oldValue).length > 0 ? oldValue : undefined`
abbrev pub unless_empty : JsonFields → Option JsonValue
unless_empty no_fields = none
unless_empty fs = some (object fs)

abbrev pub old_value_of : Option JsonValue → Option JsonValue
old_value_of (some (object changes)) = unless_empty (before_images changes)
old_value_of _ = none

unfoldable pub extract_old_value : JsonFields → Option JsonValue
extract_old_value payload = old_value_of (lookup "changes" payload)

abbrev or_default : String → Option String → String
or_default fallback none = fallback
or_default fallback (some s) = s

-- The payload's `organizationId` and `reason` are texts, as every event factory makes them.
unfoldable pub audit_input : StoredEvent → RecordAuditEntryInput
audit_input event = record {
  organization_id = or_default "unknown" (as_text (lookup "organizationId" event.payload));
  entity_type = event.aggregate_type;
  entity_id = event.aggregate_id;
  action = event.type;
  actor_user_id = extract_actor_id event.payload;
  old_value = extract_old_value event.payload;
  new_value = object event.payload;
  reason = as_text (lookup "reason" event.payload);
  correlation_id = or_default "unknown" event.correlation_id;
  request_id = event.request_id;
  ip_address = event.ip_address;
  user_agent = event.user_agent;
  source = or_default "background_worker" event.source;
}

module _ (sha256 : String → String) (jsonb : JsonValue → JsonValue) where
  unfoldable pub handle_event : StoredEvent → String → ℕ → List AuditLogEntry → List AuditLogEntry
  handle_event event id now rows = record_entry sha256 jsonb (audit_input event) id now rows
