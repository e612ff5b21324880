-- ===== src/Period/Lifecycle.antt =====
-- The state machine of a financial period, its closing fields, and where a reopened one can go.
use ratel_financial_platform.Prelude.{
  ℕ, ◌<◌, String, ◌≡◌, refl, ◌≢◌, ◌↔◌, ◌⊎◌, inl, inr, true, false, none, List, [], ◌∷◌, arith,
}
use ratel_financial_platform.Prelude.Texts.{trim, is_empty_text}
use ratel_financial_platform.Errors.{Failure, Result, ok, err, Result-cases}
use ratel_financial_platform.Period.{
  PeriodStatus, open_status, closing, closed, reopened, PeriodProps, FinancialPeriod, create,
  start_closing, close, reopen, is_open,
}

pub data Call : Type 0 where
  start_closing_call : Call
  close_call : String → ℕ → Call
  reopen_call : String → String → Call

unfoldable pub perform : Call → FinancialPeriod → Result FinancialPeriod
perform start_closing_call p = start_closing p
perform (close_call by now) p = close by now p
perform (reopen_call by why) p = reopen by why p

pub data Edge : PeriodStatus → PeriodStatus → Type 0 where
  start : Edge open_status closing
  close_open : Edge open_status closed
  close_closing : Edge closing closed
  reopen_closed : Edge closed reopened

-- What holds of a period from its creation on: it ends after it starts, and it names who closed it
-- and when exactly while it is closed.
pub record IsConsistent (p : PeriodProps) : Type 0 where
  pub ordered : p.start_date < p.end_date
  pub closer : (p.status ≡ closed) ↔ (p.closed_by_id ≢ none)
  pub closing_time : (p.status ≡ closed) ↔ (p.closed_at ≢ none)

-- A period that is created is open, ends after it starts and names nobody who closed it.
pub create-IsConsistent :
    (org : String) (from to : ℕ) (id : String) (now : ℕ) (p : FinancialPeriod)
    → create org from to id now ≡ ok p
    → IsConsistent p.props × (is_open p ≡ true)
unfolding create is_open
create-IsConsistent org from to id now p h = ground arith

perform-IsConsistent :
    (c : Call) (p p' : FinancialPeriod)
    → IsConsistent p.props
    → perform c p ≡ ok p'
    → IsConsistent p'.props
unfolding perform start_closing close reopen
perform-IsConsistent start_closing_call p p' v h = ground arith
perform-IsConsistent (close_call by now) p p' v h = ground arith
perform-IsConsistent (reopen_call by why) p p' v h = ground arith

perform-Edge :
    (c : Call) (p p' : FinancialPeriod) → perform c p ≡ ok p' → Edge p.props.status p'.props.status
unfolding perform start_closing close reopen
perform-Edge start_closing_call p p' h =
    let from : p.props.status ≡ open_status = ground arith in
    let to : p'.props.status ≡ closing = ground arith in rw (from, to) start
perform-Edge (close_call by now) p p' h =
    let to : p'.props.status ≡ closed = ground arith in
    let from : (p.props.status ≡ open_status) ⊎ (p.props.status ≡ closing) = ground arith in
    rw to (elim from [ inl e ↦ rw e close_open | inr e ↦ rw e close_closing ])
perform-Edge (reopen_call by why) p p' h =
    let from : p.props.status ≡ closed = ground arith in
    let to : p'.props.status ≡ reopened = ground arith in rw (from, to) reopen_closed

perform-ids :
    (c : Call) (p p' : FinancialPeriod)
    → perform c p ≡ ok p'
    → (p'.props.id ≡ p.props.id) × (p'.props.organization_id ≡ p.props.organization_id)
unfolding perform start_closing close reopen
perform-ids start_closing_call p p' h = ground arith
perform-ids (close_call by now) p p' h = ground arith
perform-ids (reopen_call by why) p p' h = ground arith

-- A call that succeeds follows the diagram and keeps the period consistent; its id and organization
-- stay.
pub perform_keeps :
    (c : Call) (p p' : FinancialPeriod)
    → IsConsistent p.props
    → perform c p ≡ ok p'
    → Edge p.props.status p'.props.status
      × IsConsistent p'.props
      × ((p'.props.id ≡ p.props.id) × (p'.props.organization_id ≡ p.props.organization_id))
perform_keeps c p p' v h =
    (perform-Edge c p p' h, perform-IsConsistent c p p' v h, perform-ids c p p' h)

-- A closed period is reopened exactly if a reason is given that is not blank; otherwise nothing
-- changes.
pub reopen_iff :
    (by why : String) (p : FinancialPeriod)
    → p.props.status ≡ closed
    → ((p' : FinancialPeriod) × (reopen by why p ≡ ok p')
        × (is_open p' ≡ true)
        × (is_empty_text (trim why) ≡ false))
      ⊎ ((reopen by why p ≡ err Failure.period_reopen_reason_required)
          × (is_empty_text (trim why) ≡ true))
unfolding reopen is_open
reopen_iff by why p h = elim (Result-cases (reopen by why p)) [
  | inl (p', e) ↦ inl (p', e, ground arith, ground arith)
  | inr (f, e) ↦ inr (ground arith, ground arith)
]

-- Calls one after another, each of which may be refused and then changes nothing.
pub settle : FinancialPeriod → Result FinancialPeriod → FinancialPeriod
settle p (ok p') = p'
settle p (err _) = p

pub perform_all : List Call → FinancialPeriod → FinancialPeriod
perform_all [] p = p
perform_all (c ∷ cs) p = perform_all cs (settle p (perform c p))

reopened_stays :
    (c : Call) (p : FinancialPeriod) → p.props.status ≡ reopened → settle p (perform c p) ≡ p
unfolding settle perform start_closing close reopen
reopened_stays start_closing_call p h = ground arith
reopened_stays (close_call by now) p h = ground arith
reopened_stays (reopen_call by why) p h = ground arith

perform_all_reopened :
    (cs : List Call) (p : FinancialPeriod) → p.props.status ≡ reopened → perform_all cs p ≡ p
unfolding perform_all
perform_all_reopened [] p h = refl
perform_all_reopened (c ∷ cs) p h = rw (reopened_stays c p h) (perform_all_reopened cs p h)

-- A reopened period accepts no call any more: whatever is called, it stays as it is and open, so it
-- is never closed again.
pub reopened_never_closes :
    (cs : List Call) (p : FinancialPeriod)
    → p.props.status ≡ reopened
    → (perform_all cs p ≡ p) × (is_open (perform_all cs p) ≡ true)
unfolding is_open
reopened_never_closes cs p h =
    (perform_all_reopened cs p h, rw (perform_all_reopened cs p h) (ground arith))
