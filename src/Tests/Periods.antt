-- ===== src/Tests/Periods.antt =====
-- A period that is opened, closed and reopened.
use ratel_financial_platform.Prelude.{
  ℕ, ◌≡◌, refl, true, Option, none, some, String, [], ◌∷◌, ◌++◌, arith,
}
use ratel_financial_platform.Errors.{ok}
use ratel_financial_platform.Events.{Value}
use ratel_financial_platform.Period.{
  FinancialPeriod, PeriodProps, PeriodStatus, open_status, closed, reopened, period_event, create,
  close, is_open,
}
use ratel_financial_platform.Period.Lifecycle.{
  start_closing_call, close_call, perform, perform_all, Edge, IsConsistent, perform_keeps,
  reopened_never_closes,
}

abbrev props_as : PeriodStatus → Option String → Option ℕ → PeriodProps
props_as s by at = record {
  id = "p1";
  organization_id = "org";
  start_date = 86400000;
  end_date = 172800000;
  status = s;
  closed_by_id = by;
  closed_at = at;
  created_at = 5;
}

abbrev opened : FinancialPeriod
opened = record {
  props = props_as open_status none none;
  events = period_event "PeriodOpened" (props_as open_status none none) [] ∷ [];
}

abbrev shut : FinancialPeriod
shut = record { props = props_as closed (some "fin") (some 9); events = [] }

abbrev again : FinancialPeriod
again = record { props = props_as reopened none none; events = [] }

opens : create "org" 86400000 172800000 "p1" 5 ≡ ok opened
unfolding create
opens = refl

abbrev close_of : FinancialPeriod → FinancialPeriod
close_of p = record {
  props = props_as closed (some "fin") (some 9);
  events =
      p.events ++ period_event "PeriodClosed" p.props (("closedById", Value.text "fin") ∷ []) ∷ [];
}

closes : perform (close_call "fin" 9) opened ≡ ok (close_of opened)
unfolding perform close
closes = refl

opened-IsConsistent : IsConsistent opened.props
opened-IsConsistent = record {
  ordered = omega arith;
  closer = ground arith;
  closing_time = ground arith;
}

perform_keeps_example :
    Edge open_status closed
    × IsConsistent (close_of opened).props
    × (((close_of opened).props.id ≡ opened.props.id)
        × ((close_of opened).props.organization_id ≡ opened.props.organization_id))
perform_keeps_example =
    perform_keeps (close_call "fin" 9) opened (close_of opened) opened-IsConsistent closes

reopened_never_closes_example :
    (perform_all (close_call "fin" 11 ∷ start_closing_call ∷ []) again ≡ again)
    × (is_open (perform_all (close_call "fin" 11 ∷ start_closing_call ∷ []) again) ≡ true)
reopened_never_closes_example =
    reopened_never_closes (close_call "fin" 11 ∷ start_closing_call ∷ []) again refl
