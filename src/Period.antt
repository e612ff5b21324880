-- ===== src/Period.antt =====
-- The financial-period context's aggregate:
-- contexts/financial-period/domain/aggregates/financial-period.aggregate.ts, its events and
-- value-objects/period-status.ts. Dates are numbers of milliseconds. The
-- events are as the aggregate gives them to `recordEvent`, without the `changes` that this adds
-- (Events.Diff).
pub mod Lifecycle
use ratel_financial_platform.Prelude.{
  ℕ, String, Bool, true, false, not, Option, none, some, List, [], ◌∷◌, ◌++◌, leb, any,
}
use ratel_financial_platform.Prelude.Texts.{trim, is_empty_text}
use ratel_financial_platform.Errors.{
  Result, ok, err, ◌>>=◌, ◌>>◌, throw_if, invalid_period_dates, period_reopen_reason_required,
  invalid_state_transition,
}
use ratel_financial_platform.Events.{DomainEvent, Value, text}

pub data PeriodStatus : Type 0 where
  open_status closing closed reopened : PeriodStatus

abbrev pub period_status_name : PeriodStatus → String
period_status_name open_status = "open"
period_status_name closing = "closing"
period_status_name closed = "closed"
period_status_name reopened = "reopened"

abbrev pub same_period_status : PeriodStatus → PeriodStatus → Bool
same_period_status open_status open_status = true
same_period_status closing closing = true
same_period_status closed closed = true
same_period_status reopened reopened = true
same_period_status _ _ = false

abbrev pub includes : List PeriodStatus → PeriodStatus → Bool
includes allowed s = any (λ t. same_period_status t s) allowed

-- OPEN_STATUSES
abbrev pub open_statuses : List PeriodStatus
open_statuses = open_status ∷ reopened ∷ []

pub record PeriodProps : Type 0 where
  pub id : String
  pub organization_id : String
  pub start_date : ℕ
  pub end_date : ℕ
  pub status : PeriodStatus
  pub closed_by_id : Option String
  pub closed_at : Option ℕ
  pub created_at : ℕ

pub record FinancialPeriod : Type 0 where
  pub props : PeriodProps
  pub events : List DomainEvent

abbrev pub period_event : String → PeriodProps → List (String × Value) → DomainEvent
period_event type p more = record {
  type = type;
  aggregate_type = "FinancialPeriod";
  aggregate_id = p.id;
  payload = ("organizationId", text p.organization_id) ∷ more;
}

unfoldable pub create : String → ℕ → ℕ → String → ℕ → Result FinancialPeriod
create organization_id start_date end_date new_id now = do
  throw_if (leb end_date start_date) invalid_period_dates
  let props : PeriodProps = record {
    id = new_id;
    organization_id = organization_id;
    start_date = start_date;
    end_date = end_date;
    status = open_status;
    closed_by_id = none;
    closed_at = none;
    created_at = now;
  }
  ok (record { props = props; events = period_event "PeriodOpened" props [] ∷ [] })

unfoldable pub reconstitute : PeriodProps → FinancialPeriod
reconstitute props = record { props = props; events = [] }

unfoldable pub assert_transition :
    PeriodStatus → List PeriodStatus → FinancialPeriod → Result (Unit {0})
assert_transition to allowed_from p = throw_if (not (includes allowed_from p.props.status)) (
    invalid_state_transition "FinancialPeriod" (period_status_name p.props.status)
      (period_status_name to))

unfoldable pub start_closing : FinancialPeriod → Result FinancialPeriod
unfolding assert_transition
start_closing p = do
  assert_transition closing (open_status ∷ []) p
  ok (record {
    props = record (p.props) { status = closing };
    events = p.events ++ period_event "PeriodClosing" p.props [] ∷ [];
  })

unfoldable pub close : String → ℕ → FinancialPeriod → Result FinancialPeriod
unfolding assert_transition
close closed_by now p = do
  assert_transition closed (open_status ∷ closing ∷ []) p
  ok (record {
    props = record (p.props) {
      status = closed;
      closed_by_id = some closed_by;
      closed_at = some now;
    };
    events =
        p.events ++ period_event "PeriodClosed" p.props (("closedById", text closed_by) ∷ []) ∷ [];
  })

unfoldable pub reopen : String → String → FinancialPeriod → Result FinancialPeriod
unfolding assert_transition
reopen reopened_by reason p = do
  assert_transition reopened (closed ∷ []) p
  throw_if (is_empty_text (trim reason)) period_reopen_reason_required
  ok (record {
    props = record (p.props) { status = reopened; closed_by_id = none; closed_at = none };
    events =
        p.events
        ++ period_event "PeriodReopened" p.props
            (("reopenedById", text reopened_by) ∷ ("reason", text (trim reason)) ∷ [])
          ∷ [];
  })

unfoldable pub is_open : FinancialPeriod → Bool
is_open p = includes open_statuses p.props.status
