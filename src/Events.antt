-- ===== src/Events.antt =====
-- shared-kernel/events/domain-event.ts: a recorded event. `occurredAt` is left out, since the outbox
-- does not store it; the `changes` that an aggregate adds to a payload are the child module Diff.
pub mod Diff
pub mod Audited
use ratel_financial_platform.Prelude.{ℕ, String, Option, List}
use ratel_financial_platform.Prelude.Int.{ℤ}

-- The values that the payloads of the event factories hold.
pub data Value : Type 0 where
  text : String → Value
  date : ℕ → Value
  amount : ℤ → Value
  source : String → String → Option String → Value

pub record DomainEvent : Type 0 where
  pub type : String
  pub aggregate_type : String
  pub aggregate_id : String
  pub payload : List (String × Value)
