-- ===== src/Delivery/Outbox.antt =====
-- shared-kernel/outbox: outbox-event.mapper.ts and the poll of outbox-dispatch.service.ts. `add_job` is
-- the queue library's `add` under the job id of a row; it gives nothing when it throws. `fault` says for
-- which rows the database throws in the poll, and where.
use ratel_financial_platform.Prelude.{
  ℕ, String, Bool, true, false, ◌&&◌, Option, none, some, List, [], ◌∷◌, str_eq, leb, keep, take,
  if◌then◌else◌,
}
use ratel_financial_platform.Serialization.Json.{JsonFields}
use ratel_financial_platform.Audit.Subscriber.{StoredEvent}
use ratel_financial_platform.Delivery.Dispatcher.{Registry, SubscriberFailure, dispatch}
use ratel_financial_platform.Delivery.Deliveries.{
  FailedDelivery, organization_id_from_payload, find_pair, record_failures,
}

pub data OutboxStatus : Type 0 where
  pending dispatched failed : OutboxStatus

pub record OutboxEvent : Type 0 where
  pub id : String
  pub aggregate_type : String
  pub aggregate_id : String
  pub event_type : String
  pub payload : JsonFields
  pub status : OutboxStatus
  pub correlation_id : String
  pub request_id : Option String
  pub ip_address : Option String
  pub user_agent : Option String
  pub source : String
  pub created_at : ℕ
  pub dispatched_at : Option ℕ

unfoldable pub to_domain_event : OutboxEvent → StoredEvent
to_domain_event row = record {
  type = row.event_type;
  aggregate_type = row.aggregate_type;
  aggregate_id = row.aggregate_id;
  occurred_at = row.created_at;
  payload = row.payload;
  correlation_id = some row.correlation_id;
  request_id = row.request_id;
  ip_address = row.ip_address;
  user_agent = row.user_agent;
  source = some row.source;
}

abbrev pub is_pending : OutboxEvent → Bool
is_pending row = elim row.status [ pending ↦ true | _ ↦ false ]

insert_by_age : OutboxEvent → List OutboxEvent → List OutboxEvent
insert_by_age r [] = r ∷ []
insert_by_age r (s ∷ ss) =
    let rest = insert_by_age r ss in if leb r.created_at s.created_at then r ∷ s ∷ ss else s ∷ rest

unfoldable pub oldest_first : List OutboxEvent → List OutboxEvent
unfolding insert_by_age
oldest_first [] = []
oldest_first (r ∷ rs) = insert_by_age r (oldest_first rs)

-- `findMany({ where: { status: 'pending' }, orderBy: { createdAt: 'asc' }, take })`
unfoldable pub pending_batch : ℕ → List OutboxEvent → List OutboxEvent
pending_batch size rows = take size (oldest_first (keep is_pending rows))

-- `updateMany({ where: { id, status: 'pending' } })`; the counts that are only logged are left out.
unfoldable pub mark_dispatched : String → ℕ → List OutboxEvent → List OutboxEvent
mark_dispatched id now [] = []
mark_dispatched id now (row ∷ rows) =
    let rest = mark_dispatched id now rows in
    if str_eq row.id id && is_pending row
    then record row { status = dispatched; dispatched_at = some now } ∷ rest
    else row ∷ rest

pub record DeliveryState (W J : Type 0) : Type 0 where
  pub outbox : List OutboxEvent
  pub deliveries : List FailedDelivery
  pub jobs : J
  pub world : W

-- Where the database throws while a row is handled: at the update of the row, or when failures are
-- recorded, after so many of them.
pub data Fault : Type 0 where
  at_update : Fault
  at_record : ℕ → Fault

module _ {W J : Type 0} (run : String → StoredEvent → W → W × Option String)
    (add_job : String → J → Option J) (uuid : ℕ → String) (registry : Registry)
    (fault : String → Option Fault) where
  -- A queue that throws is logged, and the row stays.
  abbrev pub schedule : Option FailedDelivery → J → J
  schedule none jobs = jobs
  schedule (some row) jobs = elim (add_job row.id jobs) [ none ↦ jobs | some jobs' ↦ jobs' ]

  unfoldable pub enqueue_retries : String → List SubscriberFailure → List FailedDelivery → J → J
  enqueue_retries event_id [] rows jobs = jobs
  enqueue_retries event_id (failure ∷ failures) rows jobs =
      enqueue_retries event_id failures rows
        (schedule (find_pair event_id failure.subscriber_name rows) jobs)

  -- All failures are recorded before the first retry is enqueued.
  unfoldable pub schedule_retries :
      OutboxEvent → List SubscriberFailure → ℕ → DeliveryState W J → DeliveryState W J
  schedule_retries row failures now state =
      let rows =
        record_failures uuid now row.id row.event_type failures
          (organization_id_from_payload row.payload) state.deliveries in
      record state { deliveries = rows; jobs = enqueue_retries row.id failures rows state.jobs }

  -- What follows the dispatch of a row: the update, then the failures. What is thrown is caught and
  -- logged: the row stays pending, or its failures are recorded in part, and none is retried.
  abbrev pub after_dispatch :
      Option Fault
      → ℕ
      → OutboxEvent
      → List SubscriberFailure
      → DeliveryState W J
      → DeliveryState W J
  after_dispatch (some at_update) now row failures state = state
  after_dispatch (some (at_record count)) now row failures state = record state {
    outbox = mark_dispatched row.id now state.outbox;
    deliveries =
        record_failures uuid now row.id row.event_type (take count failures)
          (organization_id_from_payload row.payload) state.deliveries;
  }
  after_dispatch none now row failures state =
      schedule_retries row failures now
        (record state { outbox = mark_dispatched row.id now state.outbox })

  -- The body of the loop for one row.
  unfoldable pub dispatch_row : ℕ → OutboxEvent → DeliveryState W J → DeliveryState W J
  dispatch_row now row state =
      let (world, result) = dispatch run registry (to_domain_event row) state.world in
      after_dispatch (fault row.id) now row result.failures (record state { world = world })

  unfoldable pub dispatch_rows : ℕ → List OutboxEvent → DeliveryState W J → DeliveryState W J
  dispatch_rows now [] state = state
  dispatch_rows now (row ∷ rows) state = dispatch_rows now rows (dispatch_row now row state)

  unfoldable pub dispatch_pending_batch : ℕ → ℕ → DeliveryState W J → DeliveryState W J
  dispatch_pending_batch size now state = dispatch_rows now (pending_batch size state.outbox) state
