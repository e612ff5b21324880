-- ===== src/Payroll/Run/Lifecycle.antt =====
-- The state machine of a payroll run, and what holds of every run on its way.
use ratel_financial_platform.Prelude.{ℕ, String, ◌≡◌, refl, ◌≢◌, ◌⊎◌, inl, inr, some, arith}
use ratel_financial_platform.Errors.{Failure, Result, ok, err, http_status}
use ratel_financial_platform.Payroll.Payslip.{Payslip}
use ratel_financial_platform.Payroll.Run.{
  PayrollRunStatus, draft, pending_approval, approved, processing, completed, cancelled, PayrollRun,
  add_payslip, submit_for_approval, approve, reject, start_processing, complete, cancel,
}

-- A call of a method that changes a payroll run whose payslips hold JSON of type `J`.
pub data Call (J : Type 0) : Type 0 where
  add_call : Payslip J → Call J
  submit_call : Call J
  approve_call : String → Call J
  reject_call : String → String → Call J
  start_call : Call J
  complete_call : Call J
  cancel_call : String → Call J

-- The transition diagram.
pub data Edge {J : Type 0} : Call J → PayrollRunStatus → PayrollRunStatus → Type 0 where
  collect : {p : Payslip J} → Edge (add_call p) draft draft
  send : Edge submit_call draft pending_approval
  grant : {a : String} → Edge (approve_call a) pending_approval approved
  send_back : {a why : String} → Edge (reject_call a why) pending_approval draft
  begin : Edge start_call approved processing
  finish : Edge complete_call processing completed
  drop_draft : {a : String} → Edge (cancel_call a) draft cancelled
  drop_pending : {a : String} → Edge (cancel_call a) pending_approval cancelled

status-cases :
    (s : PayrollRunStatus)
    → (s ≡ draft) ⊎ ((s ≡ pending_approval) ⊎ ((s ≢ draft) × (s ≢ pending_approval)))
status-cases draft = inl refl
status-cases pending_approval = inr (inl refl)
status-cases _ = inr (inr ((λ e. cc), (λ e. cc)))

module _ {J : Type 0} where
  unfoldable pub perform : Call J → ℕ → PayrollRun J → Result (PayrollRun J)
  perform (add_call p) now r = add_payslip p r
  perform submit_call now r = submit_for_approval r
  perform (approve_call a) now r = approve a now r
  perform (reject_call a why) now r = reject a why r
  perform start_call now r = start_processing r
  perform complete_call now r = complete r
  perform (cancel_call a) now r = cancel a r

  -- A call that succeeds follows the diagram.
  pub perform-Edge :
      (c : Call J) (now : ℕ) (r r' : PayrollRun J)
      → perform c now r ≡ ok r'
      → Edge c r.props.status r'.props.status
  unfolding perform add_payslip submit_for_approval approve reject start_processing complete cancel
  perform-Edge (add_call p) now r r' h =
      let from : r.props.status ≡ draft = ground arith in
      let to : r'.props.status ≡ draft = ground arith in rw (from, to) collect
  perform-Edge submit_call now r r' h =
      let from : r.props.status ≡ draft = ground arith in
      let to : r'.props.status ≡ pending_approval = ground arith in rw (from, to) send
  perform-Edge (approve_call a) now r r' h =
      let from : r.props.status ≡ pending_approval = ground arith in
      let to : r'.props.status ≡ approved = ground arith in rw (from, to) grant
  perform-Edge (reject_call a why) now r r' h =
      let from : r.props.status ≡ pending_approval = ground arith in
      let to : r'.props.status ≡ draft = ground arith in rw (from, to) send_back
  perform-Edge start_call now r r' h =
      let from : r.props.status ≡ approved = ground arith in
      let to : r'.props.status ≡ processing = ground arith in rw (from, to) begin
  perform-Edge complete_call now r r' h =
      let from : r.props.status ≡ processing = ground arith in
      let to : r'.props.status ≡ completed = ground arith in rw (from, to) finish
  perform-Edge (cancel_call a) now r r' h =
      let to : r'.props.status ≡ cancelled = ground arith in
      rw to (elim (status-cases r.props.status) [
        | inl d ↦ rw d drop_draft
        | inr (inl p) ↦ rw p drop_pending
        | inr (inr other) ↦ absurd (ground arith)
      ])

  -- A run that has left draft changes its payslips only once it is rejected: a call that succeeds
  -- on it leaves the payslips as they are.
  pub submitted_frozen :
      (c : Call J) (now : ℕ) (r r' : PayrollRun J)
      → r.props.status ≢ draft
      → perform c now r ≡ ok r'
      → r'.payslips ≡ r.payslips
  unfolding perform add_payslip submit_for_approval approve reject start_processing complete cancel
  submitted_frozen (add_call p) now r r' out h = ground arith
  submitted_frozen submit_call now r r' out h = ground arith
  submitted_frozen (approve_call a) now r r' out h = ground arith
  submitted_frozen (reject_call a why) now r r' out h = ground arith
  submitted_frozen start_call now r r' out h = ground arith
  submitted_frozen complete_call now r r' out h = ground arith
  submitted_frozen (cancel_call a) now r r' out h = ground arith

  refusal-http_status :
      (c : Call J) (now : ℕ) (r : PayrollRun J) (f : Failure)
      → perform c now r ≡ err f
      → http_status f ≡ some 409
  unfolding perform add_payslip submit_for_approval approve reject start_processing complete cancel
      http_status
  refusal-http_status (add_call p) now r f h = ground arith
  refusal-http_status submit_call now r f h = ground arith
  refusal-http_status (approve_call a) now r f h = ground arith
  refusal-http_status (reject_call a why) now r f h = ground arith
  refusal-http_status start_call now r f h = ground arith
  refusal-http_status complete_call now r f h = ground arith
  refusal-http_status (cancel_call a) now r f h = ground arith
