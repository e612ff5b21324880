-- ===== src/Delivery/Operator.antt =====
-- event-deliveries/application: the operator's views of failed deliveries, and the retry by hand.
use ratel_financial_platform.Prelude.{
  ℕ, String, Bool, true, false, not, ◌&&◌, Option, none, some, List, [], ◌∷◌, map, str_eq, leb,
  find, keep, take, if◌then◌else◌,
}
use ratel_financial_platform.Errors.{
  Result, ok, ◌>>=◌, ◌>>◌, throw_if, or_throw, entity_not_found, event_delivery_not_retryable,
}
use ratel_financial_platform.Delivery.Deliveries.{
  DeliveryStatus, FailedDelivery, pending_retry, recovered, permanently_failed, update_delivery,
}
use ratel_financial_platform.Delivery.Outbox.{DeliveryState}

pub record EventDeliveryView : Type 0 where
  pub id : String
  pub outbox_event_id : String
  pub event_type : String
  pub subscriber_name : String
  pub status : DeliveryStatus
  pub attempts : ℕ
  pub last_error : String
  pub created_at : ℕ

abbrev pub delivery_view : FailedDelivery → EventDeliveryView
delivery_view row = record {
  id = row.id;
  outbox_event_id = row.outbox_event_id;
  event_type = row.event_type;
  subscriber_name = row.subscriber_name;
  status = row.status;
  attempts = row.attempts;
  last_error = row.last_error;
  created_at = row.created_at;
}

abbrev pub status_name : DeliveryStatus → String
status_name pending_retry = "pending_retry"
status_name recovered = "recovered"
status_name permanently_failed = "permanently_failed"

abbrev pub same_status : DeliveryStatus → DeliveryStatus → Bool
same_status pending_retry pending_retry = true
same_status recovered recovered = true
same_status permanently_failed permanently_failed = true
same_status _ _ = false

abbrev pub has_status : Option DeliveryStatus → DeliveryStatus → Bool
has_status none status = true
has_status (some wanted) status = same_status status wanted

insert_recent : FailedDelivery → List FailedDelivery → List FailedDelivery
insert_recent r [] = r ∷ []
insert_recent r (s ∷ ss) =
    let rest = insert_recent r ss in if leb s.created_at r.created_at then r ∷ s ∷ ss else s ∷ rest

unfoldable pub most_recent_first : List FailedDelivery → List FailedDelivery
unfolding insert_recent
most_recent_first [] = []
most_recent_first (r ∷ rs) = insert_recent r (most_recent_first rs)

unfoldable pub list_event_deliveries :
    String → Option DeliveryStatus → List FailedDelivery → List EventDeliveryView
list_event_deliveries org status rows = map delivery_view (
    take 100 (
      most_recent_first (
        keep (λ (r : FailedDelivery). str_eq r.organization_id org && has_status status r.status)
          rows)))

unfoldable pub find_of_organization : String → String → List FailedDelivery → Option FailedDelivery
find_of_organization id org rows =
    find (λ (r : FailedDelivery). str_eq r.id id && str_eq r.organization_id org) rows

unfoldable pub get_event_delivery : String → String → List FailedDelivery → Result EventDeliveryView
get_event_delivery id org rows = do
  row ← or_throw (find_of_organization id org rows) (entity_not_found "FailedEventDelivery" id)
  ok (delivery_view row)

-- The retry by hand ends with an error of the program, or with the error of the queue.
pub data Requeued (W J : Type 0) : Type 0 where
  requeued : DeliveryState W J → Requeued W J
  queue_failed : Requeued W J

module _ {W J : Type 0} (add_job : String → J → Option J) where
  -- The job is added before the status changes.
  unfoldable pub requeue : FailedDelivery → DeliveryState W J → Requeued W J
  requeue row state = elim (add_job row.id state.jobs) [
    | none ↦ queue_failed
    | some jobs ↦ requeued (record state {
      jobs = jobs;
      deliveries =
          update_delivery row.id (λ (r : FailedDelivery). record r { status = pending_retry })
            state.deliveries;
    })
  ]

  unfoldable pub retry_event_delivery : String → String → DeliveryState W J → Result (Requeued W J)
  retry_event_delivery id org state = do
    row ←
        or_throw (find_of_organization id org state.deliveries)
          (entity_not_found "FailedEventDelivery" id)
    throw_if (not (same_status row.status permanently_failed))
        (event_delivery_not_retryable (status_name row.status))
    ok (requeue row state)
