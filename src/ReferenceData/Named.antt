-- ===== src/ReferenceData/Named.antt =====
-- The handlers of a kind of reference data with a name, over the rows of its table, with the events of
-- reference-data/domain/reference-data.events.ts. `id` is what the database gives a new row.
use ratel_financial_platform.Prelude.{
  String, Bool, true, false, not, ◌&&◌, ◌||◌, Option, none, some, List, [], ◌∷◌, ◌++◌, str_eq, find,
  keep, if◌then◌else◌,
}
use ratel_financial_platform.Prelude.Texts.{concat}
use ratel_financial_platform.Serialization.Json.{key_before}
use ratel_financial_platform.Errors.{
  Result, ok, ◌>>=◌, ◌>>◌, throw_if, or_throw, duplicate_name, entity_not_found,
}
use ratel_financial_platform.Events.{DomainEvent, text}

pub record NamedRow : Type 0 where
  pub id : String
  pub organization_id : String
  pub name : String
  pub is_active : Bool

-- A table and the outbox.
pub record NamedStore : Type 0 where
  pub rows : List NamedRow
  pub outbox : List DomainEvent

unfoldable pub reference_data_created : String → String → String → String → DomainEvent
reference_data_created type id organization_id name = record {
  type = concat (type ∷ "Created" ∷ []);
  aggregate_type = type;
  aggregate_id = id;
  payload = ("organizationId", text organization_id) ∷ ("name", text name) ∷ [];
}

unfoldable pub reference_data_updated : String → String → String → String → DomainEvent
reference_data_updated type id organization_id name = record {
  type = concat (type ∷ "Updated" ∷ []);
  aggregate_type = type;
  aggregate_id = id;
  payload = ("organizationId", text organization_id) ∷ ("name", text name) ∷ [];
}

unfoldable pub reference_data_deactivated : String → String → String → String → DomainEvent
reference_data_deactivated type id organization_id deactivated_by_id = record {
  type = concat (type ∷ "Deactivated" ∷ []);
  aggregate_type = type;
  aggregate_id = id;
  payload = ("organizationId", text organization_id) ∷ ("actorId", text deactivated_by_id) ∷ [];
}

abbrev pub has_name : String → String → NamedRow → Bool
has_name org name row = str_eq row.organization_id org && str_eq row.name name

abbrev pub has_id : String → String → NamedRow → Bool
has_id id org row = str_eq row.id id && str_eq row.organization_id org

abbrev pub is_some {ℓ} : {A : Type ℓ} → Option A → Bool
is_some none = false
is_some (some a) = true

-- `update({ where: { id } })` on a row that is there.
unfoldable pub update_row : String → (NamedRow → NamedRow) → List NamedRow → List NamedRow
update_row id change [] = []
update_row id change (row ∷ rows) =
    let rest = update_row id change rows in
    if str_eq row.id id then change row ∷ rows else row ∷ rest

abbrev pub renamed : String → NamedRow → NamedRow
renamed name row = record row { name = name }

abbrev pub deactivated : NamedRow → NamedRow
deactivated row = record row { is_active = false }

unfoldable pub create_named : String → String → String → String → NamedStore → Result NamedStore
create_named type id organization_id name store = do
  throw_if (is_some (find (has_name organization_id name) store.rows)) (duplicate_name name)
  ok (record {
    rows =
        store.rows
        ++ record { id = id; organization_id = organization_id; name = name; is_active = true }
          ∷ [];
    outbox = store.outbox ++ reference_data_created type id organization_id name ∷ [];
  })

unfoldable pub update_named : String → String → String → String → NamedStore → Result NamedStore
update_named type id organization_id name store = do
  found ← or_throw (find (has_id id organization_id) store.rows) (entity_not_found type id)
  throw_if
      (is_some (
        find (λ (r : NamedRow). has_name organization_id name r && not (str_eq r.id id))
          store.rows))
      (duplicate_name name)
  ok (record {
    rows = update_row id (renamed name) store.rows;
    outbox = store.outbox ++ reference_data_updated type id organization_id name ∷ [];
  })

unfoldable pub deactivate_named : String → String → String → String → NamedStore → Result NamedStore
deactivate_named type id organization_id actor_id store = do
  found ← or_throw (find (has_id id organization_id) store.rows) (entity_not_found type id)
  ok (record {
    rows = update_row id deactivated store.rows;
    outbox = store.outbox ++ reference_data_deactivated type id organization_id actor_id ∷ [];
  })

unfoldable pub get_named : String → String → String → NamedStore → Result NamedRow
get_named type id organization_id store =
    or_throw (find (has_id id organization_id) store.rows) (entity_not_found type id)

insert_by_name : NamedRow → List NamedRow → List NamedRow
insert_by_name r [] = r ∷ []
insert_by_name r (s ∷ ss) =
    let rest = insert_by_name r ss in if key_before s.name r.name then s ∷ rest else r ∷ s ∷ ss

unfoldable pub by_name : List NamedRow → List NamedRow
unfolding insert_by_name
by_name [] = []
by_name (r ∷ rs) = insert_by_name r (by_name rs)

-- `orderBy: { name: 'asc' }`, in the order of the code units.
unfoldable pub list_named : String → Bool → NamedStore → List NamedRow
list_named organization_id include_inactive store = by_name (
    keep
      (λ (r : NamedRow).
        str_eq r.organization_id organization_id && (include_inactive || r.is_active))
      store.rows)
