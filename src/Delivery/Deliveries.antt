-- ===== src/Delivery/Deliveries.antt =====
-- shared-kernel/events/failed-event-delivery.service.ts over the rows of `failed_event_deliveries`.
-- `uuid n` is the id that the database gives the row created when there are `n`; `now` is the time of
-- the write. The column `updated_at` is left out.
use ratel_financial_platform.Prelude.{
  ℕ, ◌+◌, String, Bool, ◌&&◌, Option, none, some, List, [], ◌∷◌, ◌++◌, str_eq, find, length,
  if◌then◌else◌,
}
use ratel_financial_platform.Prelude.Texts.{is_empty_text}
use ratel_financial_platform.Serialization.Json.{JsonValue, JsonFields, text}
use ratel_financial_platform.Serialization.Lookup.{lookup}
use ratel_financial_platform.Delivery.Dispatcher.{SubscriberFailure}

pub data DeliveryStatus : Type 0 where
  pending_retry recovered permanently_failed : DeliveryStatus

pub record FailedDelivery : Type 0 where
  pub id : String
  pub outbox_event_id : String
  pub event_type : String
  pub subscriber_name : String
  pub attempts : ℕ
  pub last_error : String
  pub status : DeliveryStatus
  pub created_at : ℕ
  pub organization_id : String

abbrev text_or_unknown : Option JsonValue → String
text_or_unknown (some (text s)) = if is_empty_text s then "unknown" else s
text_or_unknown _ = "unknown"

unfoldable pub organization_id_from_payload : JsonFields → String
organization_id_from_payload payload = text_or_unknown (lookup "organizationId" payload)

-- The unique pair of a row.
abbrev pub is_pair : String → String → FailedDelivery → Bool
is_pair event_id name row = str_eq row.outbox_event_id event_id && str_eq row.subscriber_name name

-- `updateMany` on the pair; it is unique, so at most one row changes.
unfoldable pub update_pair :
    String → String → (FailedDelivery → FailedDelivery) → List FailedDelivery → List FailedDelivery
update_pair event_id name change [] = []
update_pair event_id name change (row ∷ rows) =
    let rest = update_pair event_id name change rows in
    if is_pair event_id name row then change row ∷ rows else row ∷ rest

unfoldable pub find_pair : String → String → List FailedDelivery → Option FailedDelivery
find_pair event_id name rows = find (is_pair event_id name) rows

abbrev pub failed_again : SubscriberFailure → String → FailedDelivery → FailedDelivery
failed_again failure org row = record row {
  status = pending_retry;
  attempts = row.attempts + 1;
  last_error = failure.error;
  organization_id = org;
}

module _ (uuid : ℕ → String) (now : ℕ) where
  abbrev pub created_failure :
      String → String → String → SubscriberFailure → List FailedDelivery → FailedDelivery
  created_failure event_id event_type org failure rows = record {
    id = uuid (length rows);
    outbox_event_id = event_id;
    event_type = event_type;
    subscriber_name = failure.subscriber_name;
    attempts = 1;
    last_error = failure.error;
    status = pending_retry;
    created_at = now;
    organization_id = org;
  }

  -- `upsert`, given the row of the pair, if there is one.
  abbrev pub upsert_at :
      Option FailedDelivery
      → String
      → String
      → String
      → SubscriberFailure
      → List FailedDelivery
      → List FailedDelivery
  upsert_at (some row) event_id event_type org failure rows =
      update_pair event_id failure.subscriber_name (failed_again failure org) rows
  upsert_at none event_id event_type org failure rows =
      rows ++ created_failure event_id event_type org failure rows ∷ []

  unfoldable pub upsert_failure :
      String → String → String → SubscriberFailure → List FailedDelivery → List FailedDelivery
  upsert_failure event_id event_type org failure rows =
      upsert_at (find_pair event_id failure.subscriber_name rows) event_id event_type org failure
        rows

  unfoldable pub record_failures :
      String → String → List SubscriberFailure → String → List FailedDelivery → List FailedDelivery
  record_failures event_id event_type [] org rows = rows
  record_failures event_id event_type (failure ∷ failures) org rows =
      record_failures event_id event_type failures org
        (upsert_failure event_id event_type org failure rows)

unfoldable pub find_delivery : String → List FailedDelivery → Option FailedDelivery
find_delivery id rows = find (λ (r : FailedDelivery). str_eq r.id id) rows

-- `update({ where: { id } })` on a row that is there.
unfoldable pub update_delivery :
    String → (FailedDelivery → FailedDelivery) → List FailedDelivery → List FailedDelivery
update_delivery id change [] = []
update_delivery id change (row ∷ rows) =
    let rest = update_delivery id change rows in
    if str_eq row.id id then change row ∷ rows else row ∷ rest

unfoldable pub mark_recovered : String → List FailedDelivery → List FailedDelivery
mark_recovered id rows =
    update_delivery id
      (λ (row : FailedDelivery). record row { status = recovered; attempts = row.attempts + 1 })
      rows

unfoldable pub mark_permanently_failed :
    String → String → Bool → List FailedDelivery → List FailedDelivery
mark_permanently_failed id error counts_as_attempt rows =
    update_delivery id
      (λ (row : FailedDelivery). record row {
        status = permanently_failed;
        last_error = error;
        attempts = if counts_as_attempt then row.attempts + 1 else row.attempts;
      })
      rows

unfoldable pub record_attempt : String → String → List FailedDelivery → List FailedDelivery
record_attempt id error rows =
    update_delivery id
      (λ (row : FailedDelivery). record row { attempts = row.attempts + 1; last_error = error })
      rows
