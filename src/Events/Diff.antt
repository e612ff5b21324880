-- ===== src/Events/Diff.antt =====
-- shared-kernel/events/domain-event.ts: the before/after diff that `AggregateRoot` adds to the payload
-- of an event. `snapshotState()` is a parameter: what the aggregate gives at that time.
use ratel_financial_platform.Prelude.{
  String, Bool, Option, none, some, List, [], ◌∷◌, ◌++◌, str_eq, any, if◌then◌else◌,
}
use ratel_financial_platform.Serialization.Json.{
  JsonValue, JsonFields, Unknown, null, object, no_fields, field, to_json_safe,
}
use ratel_financial_platform.Serialization.Canonical.{canonical_stringify}
use ratel_financial_platform.Serialization.Lookup.{lookup}
use ratel_financial_platform.Audit.Log.{of_json}

-- An event in memory, its payload as JSON.
pub record RecordedEvent : Type 0 where
  pub type : String
  pub aggregate_type : String
  pub aggregate_id : String
  pub payload : JsonFields

pub record AggregateRoot : Type 0 where
  pub domain_events : List RecordedEvent
  pub baseline_state : Option JsonFields

unfoldable pub normalized_state : Unknown → JsonFields
normalized_state snapshot = elim (to_json_safe snapshot) [ object fs ↦ fs | _ ↦ no_fields ]

unfoldable pub capture_baseline : Unknown → AggregateRoot → AggregateRoot
capture_baseline snapshot root = record root { baseline_state = some (normalized_state snapshot) }

abbrev pub keys : JsonFields → List String
keys no_fields = []
keys (field key v fs) = key ∷ keys fs

-- `new Set([...])`: the first of each key.
unfoldable pub distinct : List String → List String → List String
distinct seen [] = []
distinct seen (key ∷ rest) =
    let fresh = distinct (key ∷ seen) rest in
    let known = distinct seen rest in if any (λ s. str_eq s key) seen then known else key ∷ fresh

-- `state[key] ?? null`
abbrev pub value_at : String → JsonFields → JsonValue
value_at key fs = elim (lookup key fs) [ none ↦ null | some v ↦ v ]

abbrev pub same_canonical : JsonValue → JsonValue → Bool
same_canonical from to =
    str_eq (canonical_stringify (of_json from)) (canonical_stringify (of_json to))

abbrev pub field_change : JsonValue → JsonValue → JsonValue
field_change from to = object (field "from" from (field "to" to no_fields))

unfoldable pub changes_at : List String → JsonFields → JsonFields → JsonFields
changes_at [] before after = no_fields
changes_at (key ∷ rest) before after =
    let others = changes_at rest before after in
    if same_canonical (value_at key before) (value_at key after)
    then others
    else field key (field_change (value_at key before) (value_at key after)) others

unfoldable pub all_changes : JsonFields → JsonFields → JsonFields
all_changes before after = changes_at (distinct [] (keys before ++ keys after)) before after

abbrev pub non_empty : JsonFields → Option JsonFields
non_empty no_fields = none
non_empty fs = some fs

-- The changes, and the root with its baseline advanced.
unfoldable pub diff_against_baseline : Unknown → AggregateRoot → Option JsonFields × AggregateRoot
diff_against_baseline snapshot root =
    let current = normalized_state snapshot in
    elim root.baseline_state [
      | none ↦ (none, root)
      | some before ↦
          (non_empty (all_changes before current), record root { baseline_state = some current })
    ]

-- `{ ...payload, changes }`
unfoldable pub set_field : String → JsonValue → JsonFields → JsonFields
set_field key v no_fields = field key v no_fields
set_field key v (field key' w fs) =
    let rest = set_field key v fs in if str_eq key' key then field key' v fs else field key' w rest

abbrev pub with_changes : Option JsonFields → RecordedEvent → RecordedEvent
with_changes none event = event
with_changes (some changes) event = record event {
  payload = set_field "changes" (object changes) event.payload;
}

unfoldable pub record_event : Unknown → RecordedEvent → AggregateRoot → AggregateRoot
record_event snapshot event root =
    let (changes, advanced) = diff_against_baseline snapshot root in
    record advanced { domain_events = advanced.domain_events ++ with_changes changes event ∷ [] }

unfoldable pub pull_domain_events : AggregateRoot → List RecordedEvent × AggregateRoot
pull_domain_events root = (root.domain_events, record root { domain_events = [] })
