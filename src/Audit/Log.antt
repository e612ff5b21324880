-- ===== src/Audit/Log.antt =====
-- shared-kernel/audit/audit-log.service.ts: `record` over the rows of `audit_log_entries`. The lock on
-- the organization's chain is held to the end of the transaction, so the calls for one organization
-- come one after another. `sha256` is node's digest, and `jsonb` is what Postgres gives back for a
-- stored JSON value. `now` is what `new Date()` returns, and `id` the column's default.
use ratel_financial_platform.Prelude.{
  ℕ, String, Option, none, some, List, [], ◌∷◌, ◌++◌, str_eq, ltb, keep, if◌then◌else◌,
}
use ratel_financial_platform.Serialization.Json.{
  JsonValue, JsonItems, JsonFields, Unknown, UnknownItems, UnknownFields,
}
use ratel_financial_platform.Audit.HashChain.{
  genesis_hash, current_hash_version, compute_entry_hash_v2,
}

pub record AuditLogEntry : Type 0 where
  pub id : String
  pub organization_id : String
  pub entity_type : String
  pub entity_id : String
  pub action : String
  pub actor_user_id : Option String
  pub old_value : Option JsonValue
  pub new_value : Option JsonValue
  pub reason : Option String
  pub correlation_id : String
  pub request_id : Option String
  pub ip_address : Option String
  pub user_agent : Option String
  pub source : String
  pub prev_hash : String
  pub entry_hash : String
  pub hash_version : ℕ
  pub created_at : ℕ

-- The values come from a stored event, so they are JSON; `none` is `undefined`.
pub record RecordAuditEntryInput : Type 0 where
  pub organization_id : String
  pub entity_type : String
  pub entity_id : String
  pub action : String
  pub actor_user_id : Option String
  pub old_value : Option JsonValue
  pub new_value : JsonValue
  pub reason : Option String
  pub correlation_id : String
  pub request_id : Option String
  pub ip_address : Option String
  pub user_agent : Option String
  pub source : String

-- A JSON value as code holds it.
unfoldable mutual
  pub of_json : JsonValue → Unknown
  of_json JsonValue.null = Unknown.null
  of_json (JsonValue.text s) = Unknown.text s
  of_json (JsonValue.number n) = Unknown.number n
  of_json (JsonValue.boolean b) = Unknown.boolean b
  of_json (JsonValue.array xs) = Unknown.array (of_items xs)
  of_json (JsonValue.object fs) = Unknown.object (of_fields fs)

  pub of_items : JsonItems → UnknownItems
  of_items JsonItems.no_items = UnknownItems.no_items
  of_items (JsonItems.item x xs) = UnknownItems.item (of_json x) (of_items xs)

  pub of_fields : JsonFields → UnknownFields
  of_fields JsonFields.no_fields = UnknownFields.no_fields
  of_fields (JsonFields.field key x fs) = UnknownFields.field key (of_json x) (of_fields fs)

abbrev pub of_optional : Unknown → Option JsonValue → Unknown
of_optional absent none = absent
of_optional absent (some v) = of_json v

abbrev pub stored : (JsonValue → JsonValue) → Option JsonValue → Option JsonValue
stored jsonb none = none
stored jsonb (some v) = some (jsonb v)

unfoldable pub of_organization : String → List AuditLogEntry → List AuditLogEntry
of_organization org rows = keep (λ (r : AuditLogEntry). str_eq r.organization_id org) rows

abbrev pub later : AuditLogEntry → Option AuditLogEntry → Option AuditLogEntry
later row none = some row
later row (some best) = if ltb best.created_at row.created_at then some row else some best

-- `findFirst({ orderBy: { createdAt: 'desc' } })`; of rows of one time, which SQL leaves open, the one
-- that was stored last.
unfoldable pub latest : List AuditLogEntry → Option AuditLogEntry
latest [] = none
latest (row ∷ rows) = later row (latest rows)

abbrev pub hash_or_genesis : Option AuditLogEntry → String
hash_or_genesis none = genesis_hash
hash_or_genesis (some row) = row.entry_hash

module _ (sha256 : String → String) where
  unfoldable pub hash_input : RecordAuditEntryInput → String → ℕ → String
  hash_input input prev_hash now =
      compute_entry_hash_v2 sha256 prev_hash
        (record {
          organization_id = input.organization_id;
          entity_type = input.entity_type;
          entity_id = input.entity_id;
          action = input.action;
          actor_user_id = input.actor_user_id;
          correlation_id = input.correlation_id;
          created_at = now;
        })
        (record {
          old_value = of_optional Unknown.undefined input.old_value;
          new_value = of_json input.new_value;
          reason = input.reason;
        })

module _ (sha256 : String → String) (jsonb : JsonValue → JsonValue) where
  unfoldable pub new_entry : RecordAuditEntryInput → String → String → ℕ → AuditLogEntry
  new_entry input id prev_hash now = record {
    id = id;
    organization_id = input.organization_id;
    entity_type = input.entity_type;
    entity_id = input.entity_id;
    action = input.action;
    actor_user_id = input.actor_user_id;
    old_value = stored jsonb input.old_value;
    new_value = some (jsonb input.new_value);
    reason = input.reason;
    correlation_id = input.correlation_id;
    request_id = input.request_id;
    ip_address = input.ip_address;
    user_agent = input.user_agent;
    source = input.source;
    prev_hash = prev_hash;
    entry_hash = hash_input sha256 input prev_hash now;
    hash_version = current_hash_version;
    created_at = now;
  }

  unfoldable pub record_entry :
      RecordAuditEntryInput → String → ℕ → List AuditLogEntry → List AuditLogEntry
  record_entry input id now rows =
      let prev_hash = hash_or_genesis (latest (of_organization input.organization_id rows)) in
      rows ++ new_entry input id prev_hash now ∷ []
