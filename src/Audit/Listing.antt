-- ===== src/Audit/Listing.antt =====
-- audit-log/application/list-audit-entries.handler.ts: the filtered, newest-first pages of an
-- organization's entries.
use ratel_financial_platform.Prelude.{
  ℕ, String, Bool, true, ◌&&◌, Option, none, some, List, [], ◌∷◌, map, str_eq, leb, keep, ◌||◌,
  take, drop, if◌then◌else◌,
}
use ratel_financial_platform.Prelude.Texts.{is_empty_text}
use ratel_financial_platform.Serialization.Json.{JsonValue}
use ratel_financial_platform.Audit.Log.{AuditLogEntry}

pub record AuditEntryView : Type 0 where
  pub id : String
  pub entity_type : String
  pub entity_id : String
  pub action : String
  pub actor_user_id : Option String
  pub old_value : Option JsonValue
  pub new_value : Option JsonValue
  pub reason : Option String
  pub hash_version : ℕ
  pub entry_hash : String
  pub prev_hash : String
  pub correlation_id : String
  pub created_at : ℕ

unfoldable pub to_view : AuditLogEntry → AuditEntryView
to_view row = record {
  id = row.id;
  entity_type = row.entity_type;
  entity_id = row.entity_id;
  action = row.action;
  actor_user_id = row.actor_user_id;
  old_value = row.old_value;
  new_value = row.new_value;
  reason = row.reason;
  hash_version = row.hash_version;
  entry_hash = row.entry_hash;
  prev_hash = row.prev_hash;
  correlation_id = row.correlation_id;
  created_at = row.created_at;
}

pub record AuditFilter : Type 0 where
  pub entity_type : Option String
  pub entity_id : Option String
  pub actor_user_id : Option String
  pub action : Option String
  pub from : Option ℕ
  pub to : Option ℕ

pub record ListAuditEntriesQuery : Type 0 where
  pub organization_id : String
  pub filter : AuditFilter
  pub skip : ℕ
  pub take : ℕ

-- `...(filter.x ? { x: filter.x } : {})`: an absent or empty text does not filter.
abbrev pub matches : Option String → String → Bool
matches none value = true
matches (some wanted) value = is_empty_text wanted || str_eq value wanted

abbrev pub matches_optional : Option String → Option String → Bool
matches_optional none value = true
matches_optional (some wanted) none = is_empty_text wanted
matches_optional (some wanted) (some value) = is_empty_text wanted || str_eq value wanted

abbrev pub at_least : Option ℕ → ℕ → Bool
at_least none time = true
at_least (some t) time = leb t time

abbrev pub at_most : Option ℕ → ℕ → Bool
at_most none time = true
at_most (some t) time = leb time t

unfoldable pub in_query : ListAuditEntriesQuery → AuditLogEntry → Bool
in_query query row =
    str_eq row.organization_id query.organization_id
    && matches query.filter.entity_type row.entity_type
    && matches query.filter.entity_id row.entity_id
    && matches_optional query.filter.actor_user_id row.actor_user_id
    && matches query.filter.action row.action
    && at_least query.filter.from row.created_at
    && at_most query.filter.to row.created_at

insert_newest : AuditLogEntry → List AuditLogEntry → List AuditLogEntry
insert_newest r [] = r ∷ []
insert_newest r (s ∷ ss) =
    let rest = insert_newest r ss in if leb s.created_at r.created_at then r ∷ s ∷ ss else s ∷ rest

unfoldable pub newest_first : List AuditLogEntry → List AuditLogEntry
unfolding insert_newest
newest_first [] = []
newest_first (r ∷ rs) = insert_newest r (newest_first rs)

unfoldable pub list_audit_entries : ListAuditEntriesQuery → List AuditLogEntry → List AuditEntryView
list_audit_entries query table =
    map to_view (take query.take (drop query.skip (newest_first (keep (in_query query) table))))
