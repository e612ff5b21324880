-- ===== src/Delivery/Dispatcher.antt =====
-- shared-kernel/events/domain-event-dispatcher.ts: registration, dispatch and redelivery to one
-- subscriber. A handler is known by the event type and the name it was registered with.
use ratel_financial_platform.Prelude.{
  ℕ, String, Bool, Option, none, some, List, [], ◌∷◌, ◌++◌, map, str_eq, any, keep, length,
  if◌then◌else◌,
}
use ratel_financial_platform.Errors.{Result, ok, ◌>>◌, throw_if, duplicate_subscriber_name}
use ratel_financial_platform.Audit.Subscriber.{StoredEvent}

pub record Registration : Type 0 where
  pub event_type : String
  pub name : String

pub record Registry : Type 0 where
  pub handlers : List Registration
  pub global_subscribers : List String

pub record SubscriberFailure : Type 0 where
  pub subscriber_name : String
  pub error : String

pub record DispatchResult : Type 0 where
  pub invoked : ℕ
  pub failures : List SubscriberFailure

abbrev pub is_among : String → List String → Bool
is_among name names = any (λ n. str_eq n name) names

unfoldable pub handlers_of : String → Registry → List String
handlers_of event_type registry =
    map (λ (r : Registration). r.name)
      (keep (λ (r : Registration). str_eq r.event_type event_type) registry.handlers)

unfoldable pub register : String → String → Registry → Result Registry
register event_type name registry = do
  throw_if (is_among name (handlers_of event_type registry))
      (duplicate_subscriber_name name event_type)
  throw_if (is_among name registry.global_subscribers) (duplicate_subscriber_name name event_type)
  ok (record registry {
    handlers = registry.handlers ++ record { event_type = event_type; name = name } ∷ [];
  })

unfoldable pub register_global : String → Registry → Result Registry
register_global name registry = do
  throw_if (is_among name registry.global_subscribers) (duplicate_subscriber_name name "*")
  ok (record registry { global_subscribers = registry.global_subscribers ++ name ∷ [] })

unfoldable pub subscribers_for : StoredEvent → Registry → List String
subscribers_for event registry = handlers_of event.type registry ++ registry.global_subscribers

-- The error of `dispatchTo` for a name that is not registered.
abbrev pub unknown_subscriber : String → String → String
unknown_subscriber name event_type = "UnknownSubscriberError"

module _ {W : Type 0} (run : String → StoredEvent → W → W × Option String) where
  abbrev pub failure_of : String → Option String → List SubscriberFailure
  failure_of name none = []
  failure_of name (some error) = record { subscriber_name = name; error = error } ∷ []

  -- `Promise.allSettled` over the subscribers: each one runs, whatever the others do.
  unfoldable pub settle : List String → StoredEvent → W → W × List SubscriberFailure
  settle [] event world = (world, [])
  settle (name ∷ names) event world =
      let (world', outcome) = run name event world in
      let (final, failures) = settle names event world' in
      (final, failure_of name outcome ++ failures)

  unfoldable pub dispatch : Registry → StoredEvent → W → W × DispatchResult
  dispatch registry event world =
      let names = subscribers_for event registry in
      let (final, failures) = settle names event world in
      (final, record { invoked = length names; failures = failures })

  unfoldable pub dispatch_to : Registry → String → StoredEvent → W → W × Option String
  dispatch_to registry name event world =
      if is_among name (subscribers_for event registry)
      then run name event world
      else (world, some (unknown_subscriber name event.type))
