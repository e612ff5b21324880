-- ===== src/Delivery.antt =====
-- From the outbox to the subscribers: shared-kernel/events and shared-kernel/outbox,
-- event-deliveries/application and the redelivery processor of jobs/processors. A subscriber's work is a
-- parameter: given its name, an event and the world, it leaves a world and the error it threw, if
-- any. The subscribers of one event run one after another here.
pub mod Dispatcher
pub mod Deliveries
pub mod Outbox
pub mod Redelivery
pub mod Operator
pub mod Settles
pub mod Recorded
pub mod Names
