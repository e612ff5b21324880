-- ===== src/Audit/HashChain.antt =====
-- shared-kernel/audit/hash-chain.util.ts. `sha256` is node's digest of a text, in hexadecimal; times
-- are milliseconds since 1970.
use ratel_financial_platform.Prelude.{ℕ, String, Option, none, some}
use ratel_financial_platform.Serialization.Dates.{iso_text}
use ratel_financial_platform.Serialization.Json.{JsonValue, JsonFields, Unknown, UnknownFields}
use ratel_financial_platform.Serialization.Canonical.{stringify, canonical_stringify}

abbrev pub genesis_hash : String
genesis_hash = "0000000000000000000000000000000000000000000000000000000000000000"

abbrev pub current_hash_version : ℕ
current_hash_version = 2

pub record HashableEntry : Type 0 where
  pub organization_id : String
  pub entity_type : String
  pub entity_id : String
  pub action : String
  pub actor_user_id : Option String
  pub correlation_id : String
  pub created_at : ℕ

pub record HashablePayload : Type 0 where
  pub old_value : Unknown
  pub new_value : Unknown
  pub reason : Option String

abbrev pub text_or_null : Option String → JsonValue
text_or_null none = JsonValue.null
text_or_null (some s) = JsonValue.text s

abbrev pub unknown_or_null : Option String → Unknown
unknown_or_null none = Unknown.null
unknown_or_null (some s) = Unknown.text s

-- `value ?? null`
abbrev pub nullish : Unknown → Unknown
nullish Unknown.undefined = Unknown.null
nullish value = value

-- The object that `computeEntryHash` prints; `JSON.stringify` keeps the keys as they are written.
unfoldable pub entry_fields : String → HashableEntry → JsonFields
entry_fields prev_hash entry = JsonFields.field "prevHash" (JsonValue.text prev_hash) (
    JsonFields.field "organizationId" (JsonValue.text entry.organization_id) (
      JsonFields.field "entityType" (JsonValue.text entry.entity_type) (
        JsonFields.field "entityId" (JsonValue.text entry.entity_id) (
          JsonFields.field "action" (JsonValue.text entry.action) (
            JsonFields.field "actorUserId" (text_or_null entry.actor_user_id) (
              JsonFields.field "correlationId" (JsonValue.text entry.correlation_id) (
                JsonFields.field "createdAt" (JsonValue.text (iso_text entry.created_at))
                  JsonFields.no_fields)))))))

-- The text that `computeEntryHash` takes the digest of.
unfoldable pub entry_text : String → HashableEntry → String
entry_text prev_hash entry = stringify (JsonValue.object (entry_fields prev_hash entry))

unfoldable pub payload_v2 : String → HashableEntry → HashablePayload → Unknown
payload_v2 prev_hash entry payload = Unknown.object (
    UnknownFields.field "prevHash" (Unknown.text prev_hash) (
      UnknownFields.field "organizationId" (Unknown.text entry.organization_id) (
        UnknownFields.field "entityType" (Unknown.text entry.entity_type) (
          UnknownFields.field "entityId" (Unknown.text entry.entity_id) (
            UnknownFields.field "action" (Unknown.text entry.action) (
              UnknownFields.field "actorUserId" (unknown_or_null entry.actor_user_id) (
                UnknownFields.field "correlationId" (Unknown.text entry.correlation_id) (
                  UnknownFields.field "createdAt" (Unknown.text (iso_text entry.created_at)) (
                    UnknownFields.field "oldValue" (nullish payload.old_value) (
                      UnknownFields.field "newValue" (nullish payload.new_value) (
                        UnknownFields.field "reason" (unknown_or_null payload.reason)
                          UnknownFields.no_fields)))))))))))

-- The text that `computeEntryHashV2` takes the digest of.
unfoldable pub entry_text_v2 : String → HashableEntry → HashablePayload → String
entry_text_v2 prev_hash entry payload = canonical_stringify (payload_v2 prev_hash entry payload)

module _ (sha256 : String → String) where
  unfoldable pub compute_entry_hash : String → HashableEntry → String
  compute_entry_hash prev_hash entry = sha256 (entry_text prev_hash entry)

  unfoldable pub compute_entry_hash_v2 : String → HashableEntry → HashablePayload → String
  compute_entry_hash_v2 prev_hash entry payload = sha256 (entry_text_v2 prev_hash entry payload)
