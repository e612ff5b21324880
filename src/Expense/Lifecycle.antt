-- ===== src/Expense/Lifecycle.antt =====
-- The state machine of an expense, and what never changes once it has left draft.
use ratel_financial_platform.Prelude.{
  ℕ, String, ◌≡◌, refl, ◌≢◌, ◌⊎◌, inl, inr, some, List, [], ◌∷◌, arith,
}
use ratel_financial_platform.Errors.{Failure, Result, ok, err, http_status, Result-cases}
use ratel_financial_platform.Expense.Status.{
  ExpenseStatus, draft, pending_approval, approved, rejected, cancelled,
}
use ratel_financial_platform.Expense.Aggregate.{
  ExpenseProps, Expense, Changes, update, submit_for_approval, approve, reject, cancel,
}

-- A call of a method that changes an expense.
pub data Call : Type 0 where
  update_call : Changes → Call
  submit_call : Call
  approve_call : String → Call
  reject_call : String → String → Call
  cancel_call : String → Call

unfoldable pub perform : Call → ℕ → Expense → Result Expense
perform (update_call c) now e = update c now e
perform submit_call now e = submit_for_approval now e
perform (approve_call a) now e = approve a now e
perform (reject_call a why) now e = reject a why now e
perform (cancel_call a) now e = cancel a now e

-- The transition diagram.
pub data Edge : Call → ExpenseStatus → ExpenseStatus → Type 0 where
  edit : {c : Changes} → Edge (update_call c) draft draft
  send : Edge submit_call draft pending_approval
  grant : {a : String} → Edge (approve_call a) pending_approval approved
  refuse : {a why : String} → Edge (reject_call a why) pending_approval rejected
  drop_draft : {a : String} → Edge (cancel_call a) draft cancelled
  drop_pending : {a : String} → Edge (cancel_call a) pending_approval cancelled

-- What identifies an expense and says where its money is counted.
pub record SameIdentity (p q : ExpenseProps) : Type 0 where
  pub id : q.id ≡ p.id
  pub organization : q.organization_id ≡ p.organization_id
  pub number : q.expense_number ≡ p.expense_number
  pub source : q.source ≡ p.source
  pub department : q.department_id ≡ p.department_id
  pub period : q.period_id ≡ p.period_id
  pub parent : q.parent_expense_id ≡ p.parent_expense_id
  pub date : q.expense_date ≡ p.expense_date
  pub created : q.created_at ≡ p.created_at

-- The amount and what it was spent on.
pub record SameContent (p q : ExpenseProps) : Type 0 where
  pub amount : q.amount ≡ p.amount
  pub category : q.category_id ≡ p.category_id
  pub vendor : q.vendor_id ≡ p.vendor_id
  pub project : q.project_id ≡ p.project_id
  pub description : q.description ≡ p.description

abbrev SameIdentityOf : Expense → Expense → Type 0
SameIdentityOf e e' = SameIdentity e.props e'.props

status-cases :
    (s : ExpenseStatus)
    → (s ≡ draft) ⊎ ((s ≡ pending_approval) ⊎ ((s ≢ draft) × (s ≢ pending_approval)))
status-cases draft = inl refl
status-cases pending_approval = inr (inl refl)
status-cases _ = inr (inr ((λ e. cc), (λ e. cc)))

edge_from_draft :
    {c : Call} {s t : ExpenseStatus} → Edge c s t → (s ≡ draft) ⊎ (s ≡ pending_approval)
edge_from_draft edit = inl refl
edge_from_draft send = inl refl
edge_from_draft grant = inr refl
edge_from_draft refuse = inr refl
edge_from_draft drop_draft = inl refl
edge_from_draft drop_pending = inr refl

-- A call that succeeds follows the diagram and keeps the identity of the expense.
pub perform-Edge :
    (c : Call) (now : ℕ) (e e' : Expense)
    → perform c now e ≡ ok e'
    → Edge c e.props.status e'.props.status × SameIdentity e.props e'.props
unfolding perform update submit_for_approval approve reject cancel
perform-Edge (update_call c) now e e' h =
    let from : e.props.status ≡ draft = ground arith in
    let to : e'.props.status ≡ draft = ground arith in (rw (from, to) edit, ground arith)
perform-Edge submit_call now e e' h =
    let from : e.props.status ≡ draft = ground arith in
    let to : e'.props.status ≡ pending_approval = ground arith in (rw (from, to) send, ground arith)
perform-Edge (approve_call a) now e e' h =
    let from : e.props.status ≡ pending_approval = ground arith in
    let to : e'.props.status ≡ approved = ground arith in (rw (from, to) grant, ground arith)
perform-Edge (reject_call a why) now e e' h =
    let from : e.props.status ≡ pending_approval = ground arith in
    let to : e'.props.status ≡ rejected = ground arith in (rw (from, to) refuse, ground arith)
perform-Edge (cancel_call a) now e e' h =
    let to : e'.props.status ≡ cancelled = ground arith in
    (
      rw to (elim (status-cases e.props.status) [
        | inl d ↦ rw d drop_draft
        | inr (inl p) ↦ rw p drop_pending
        | inr (inr other) ↦ absurd (ground arith)
      ]),
      ground arith,
    )

-- The outcome of a call: it follows an edge, or it is refused as a conflict (409) and the diagram
-- has no edge for it.
pub data Outcome (c : Call) (now : ℕ) (e : Expense) : Type 0 where
  moves :
      (e' : Expense)
      → perform c now e ≡ ok e'
      → Edge c e.props.status e'.props.status
      → Outcome c now e
  conflicts :
      (f : Failure)
      → perform c now e ≡ err f
      → http_status f ≡ some 409
      → ((s : ExpenseStatus) → ¬ Edge c e.props.status s)
      → Outcome c now e

edge-succeeds :
    (now : ℕ) (e : Expense) (f : Failure) {c : Call} {s t : ExpenseStatus}
    → Edge c s t
    → s ≡ e.props.status
    → perform c now e ≢ err f
unfolding perform update submit_for_approval approve reject cancel
edge-succeeds now e f edit from h = ground arith
edge-succeeds now e f send from h = ground arith
edge-succeeds now e f grant from h = ground arith
edge-succeeds now e f refuse from h = ground arith
edge-succeeds now e f drop_draft from h = ground arith
edge-succeeds now e f drop_pending from h = ground arith

refusal-http_status :
    (c : Call) (now : ℕ) (e : Expense) (f : Failure)
    → perform c now e ≡ err f
    → http_status f ≡ some 409
unfolding perform update submit_for_approval approve reject cancel http_status
refusal-http_status (update_call c) now e f h = ground arith
refusal-http_status submit_call now e f h = ground arith
refusal-http_status (approve_call a) now e f h = ground arith
refusal-http_status (reject_call a why) now e f h = ground arith
refusal-http_status (cancel_call a) now e f h = ground arith

-- Every call that the diagram allows succeeds along an edge of it, and every other call is refused
-- as a conflict.
pub perform-Outcome : (c : Call) (now : ℕ) (e : Expense) → Outcome c now e
perform-Outcome c now e = elim (Result-cases (perform c now e)) [
  | inl (e', h) ↦ moves e' h (perform-Edge c now e e' h).0
  | inr (f, h) ↦
      conflicts f h (refusal-http_status c now e f h) (λ s x. edge-succeeds now e f x refl h)
]

-- The expense after a call, refused or not.
abbrev pub settle : Expense → Result Expense → Expense
settle e (ok e') = e'
settle e (err _) = e

-- Calls one after another, each of which may be refused and then changes nothing.
pub perform_all : List (Call × ℕ) → Expense → Expense
perform_all [] e = e
perform_all ((c, now) ∷ cs) e = perform_all cs (settle e (perform c now e))

left_draft_step :
    (c : Call) (now : ℕ) (e : Expense)
    → e.props.status ≢ draft
    → let e' = settle e (perform c now e) in
      (e'.props.status ≢ draft) × SameContent e.props e'.props
unfolding perform update submit_for_approval approve reject cancel
left_draft_step (update_call c) now e h = ground arith
left_draft_step submit_call now e h = ground arith
left_draft_step (approve_call a) now e h = ground arith
left_draft_step (reject_call a why) now e h = ground arith
left_draft_step (cancel_call a) now e h = ground arith

SameContent-trans : {p q r : ExpenseProps} → SameContent p q → SameContent q r → SameContent p r
SameContent-trans h k = ground arith

-- Once an expense has left draft, no sequence of calls changes its amount, category, vendor, project
-- or description, or brings it back to draft.
pub left_draft_frozen :
    (cs : List (Call × ℕ)) (e : Expense)
    → e.props.status ≢ draft
    → ((perform_all cs e).props.status ≢ draft) × SameContent e.props (perform_all cs e).props
unfolding perform_all
left_draft_frozen [] e h = (h, ground arith)
left_draft_frozen ((c, now) ∷ cs) e h =
    let (still, same) = left_draft_step c now e h in
    let (later, rest) = left_draft_frozen cs _ still in (later, SameContent-trans same rest)
