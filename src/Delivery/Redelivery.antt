-- ===== src/Delivery/Redelivery.antt =====
-- shared-kernel/events/event-redelivery.service.ts and jobs/processors/event-redelivery.processor.ts, with
-- the options of jobs/queues/event-redelivery.queue.ts. BullMQ runs a job again after a throw until it has
-- been run `attempts` times, which is what it documents; the delays are left out.
use ratel_financial_platform.Prelude.{
  ℕ, zero, suc, ◌+◌, String, Bool, true, false, Option, none, some, List, str_eq, leb, find,
  if◌then◌else◌,
}
use ratel_financial_platform.Audit.Subscriber.{StoredEvent}
use ratel_financial_platform.Delivery.Dispatcher.{Registry, dispatch_to}
use ratel_financial_platform.Delivery.Deliveries.{
  DeliveryStatus, FailedDelivery, pending_retry, recovered, permanently_failed, find_delivery,
  mark_recovered, mark_permanently_failed, record_attempt,
}
use ratel_financial_platform.Delivery.Outbox.{OutboxEvent, DeliveryState, to_domain_event}

abbrev pub max_attempts : ℕ
max_attempts = 5

-- What `redeliver` returns, or the error that it throws.
pub data Redelivered : Type 0 where
  already_recovered delivered : Redelivered
  abandoned : String → Redelivered
  threw : String → Redelivered

unfoldable pub find_outbox : String → List OutboxEvent → Option OutboxEvent
find_outbox id rows = find (λ (r : OutboxEvent). str_eq r.id id) rows

module _ {W J : Type 0} (run : String → StoredEvent → W → W × Option String)
    (registry : Registry) where
  -- What the subscriber's outcome leaves.
  abbrev pub after_delivery :
      FailedDelivery → W × Option String → DeliveryState W J → DeliveryState W J × Redelivered
  after_delivery delivery (world, some error) state = (record state { world = world }, threw error)
  after_delivery delivery (world, none) state = (
    record state { world = world; deliveries = mark_recovered delivery.id state.deliveries },
    delivered,
  )

  abbrev pub deliver_again :
      FailedDelivery → Option OutboxEvent → DeliveryState W J → DeliveryState W J × Redelivered
  deliver_again delivery none state = (
    record state {
      deliveries =
          mark_permanently_failed delivery.id "payload unrecoverable" false state.deliveries;
    },
    abandoned "payload unrecoverable",
  )
  deliver_again delivery (some row) state =
      after_delivery delivery
        (dispatch_to run registry delivery.subscriber_name (to_domain_event row) state.world) state

  abbrev pub unless_recovered :
      DeliveryStatus
      → DeliveryState W J
      → DeliveryState W J × Redelivered
      → DeliveryState W J × Redelivered
  unless_recovered recovered state retried = (state, already_recovered)
  unless_recovered pending_retry state retried = retried
  unless_recovered permanently_failed state retried = retried

  abbrev pub redeliver_found :
      Option FailedDelivery → DeliveryState W J → DeliveryState W J × Redelivered
  redeliver_found none state = (state, abandoned "failure record no longer exists")
  redeliver_found (some delivery) state =
      unless_recovered delivery.status state
        (deliver_again delivery (find_outbox delivery.outbox_event_id state.outbox) state)

  unfoldable pub redeliver : String → DeliveryState W J → DeliveryState W J × Redelivered
  redeliver id state = redeliver_found (find_delivery id state.deliveries) state

  -- The error of a run is counted, and the last one is final.
  abbrev pub after_run : Bool → String → DeliveryState W J × Redelivered → DeliveryState W J × Bool
  after_run true id (state, threw error) =
      (record state { deliveries = mark_permanently_failed id error true state.deliveries }, true)
  after_run false id (state, threw error) =
      (record state { deliveries = record_attempt id error state.deliveries }, true)
  after_run last id (state, already_recovered) = (state, false)
  after_run last id (state, delivered) = (state, false)
  after_run last id (state, abandoned reason) = (state, false)

  -- One run of a job that has been run `attempts_made` times, and whether it threw.
  unfoldable pub process : ℕ → ℕ → String → DeliveryState W J → DeliveryState W J × Bool
  process attempts_made attempts id state =
      after_run (leb attempts (attempts_made + 1)) id (redeliver id state)

  -- The runs of a job that are left.
  unfoldable pub run_job : ℕ → ℕ → ℕ → String → DeliveryState W J → DeliveryState W J
  run_job zero attempts_made attempts id state = state
  run_job (suc left) attempts_made attempts id state =
      let (after, thrown) = process attempts_made attempts id state in
      let again = run_job left (attempts_made + 1) attempts id after in
      if thrown then again else after
