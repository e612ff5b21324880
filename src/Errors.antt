-- ===== src/Errors.antt =====
-- The errors that the modelled code throws (shared-kernel/errors/domain-error.ts and the error
-- classes declared beside each component), as values, and the result monad that carries them.
-- A constructor's arguments are those of the source's constructor; the message text is left out.
use ratel_financial_platform.Prelude.{
  ℕ, String, Bool, true, false, Option, none, some, ◌≡◌, refl, ◌⊎◌, inl, inr,
}

pub data Failure : Type 0 where
  -- domain-error.ts
  period_closed : String → Failure
  entity_not_found : String → String → Failure
  invalid_state_transition : String → String → String → Failure
  no_open_period : String → Failure
  approver_role_mismatch : String → String → Failure
  inactive_or_missing_reference_data : String → String → Failure
  -- money.vo.ts
  invalid_currency : String → Failure
  currency_mismatch : String → String → Failure
  -- approval-progress.ts, workflow-engine.ts
  no_such_approval_step : String → ℕ → Failure
  self_approval_not_allowed : String → String → Failure
  self_rejection_not_allowed : String → String → Failure
  duplicate_approver_in_chain : String → String → Failure
  -- expense.aggregate.ts
  adjustment_reason_required : Failure
  expense_not_mutable : String → String → Failure
  invalid_adjustment_amount : Failure
  no_op_adjustment : String → Failure
  -- payroll-run.aggregate.ts, payslip.entity.ts, create-payroll-run.handler.ts
  duplicate_payslip : String → String → Failure
  empty_payroll_run : String → Failure
  payroll_run_not_mutable : String → String → Failure
  net_pay_exceeds_gross_pay : String → Failure
  payroll_run_already_exists : String → ℕ → Failure
  -- event-delivery.handlers.ts
  event_delivery_not_retryable : String → Failure
  -- department.handlers.ts
  duplicate_name : String → Failure
  -- employee.handlers.ts
  user_already_linked : String → Failure
  -- domain-error.ts, thrown by the idempotency interceptor
  idempotency_key_in_progress : Failure
  invalid_idempotency_key : String → Failure
  -- salary-structure.aggregate.ts
  salary_structure_already_exists : String → Failure
  -- financial-period.aggregate.ts
  invalid_period_dates : Failure
  period_reopen_reason_required : Failure
  -- a bare `RangeError`, the `DuplicateSubscriberNameError` of the event dispatcher, the `SyntaxError`
  -- of `BigInt`, a unique index or a CHECK constraint of the database that an insert violates, and
  -- the row that `findUniqueOrThrow` misses
  range_error : Failure
  duplicate_subscriber_name : String → String → Failure
  syntax_error : String → Failure
  unique_violation : String → Failure
  check_violation : String → Failure
  missing_row : String → Failure

-- The `httpStatus` of each error class; what is no `DomainError` has none of its own.
unfoldable pub http_status : Failure → Option ℕ
http_status (period_closed _) = some 409
http_status (entity_not_found _ _) = some 404
http_status (invalid_state_transition _ _ _) = some 409
http_status (no_open_period _) = some 409
http_status (approver_role_mismatch _ _) = some 403
http_status (inactive_or_missing_reference_data _ _) = some 400
http_status (invalid_currency _) = some 400
http_status (currency_mismatch _ _) = some 500
http_status (no_such_approval_step _ _) = some 409
http_status (self_approval_not_allowed _ _) = some 403
http_status (self_rejection_not_allowed _ _) = some 403
http_status (duplicate_approver_in_chain _ _) = some 403
http_status adjustment_reason_required = some 400
http_status (expense_not_mutable _ _) = some 409
http_status invalid_adjustment_amount = some 400
http_status (no_op_adjustment _) = some 400
http_status (duplicate_payslip _ _) = some 409
http_status (empty_payroll_run _) = some 409
http_status (payroll_run_not_mutable _ _) = some 409
http_status (net_pay_exceeds_gross_pay _) = some 400
http_status (payroll_run_already_exists _ _) = some 409
http_status (salary_structure_already_exists _) = some 409
http_status invalid_period_dates = some 400
http_status period_reopen_reason_required = some 400
http_status (event_delivery_not_retryable _) = some 409
http_status (duplicate_name _) = some 409
http_status (user_already_linked _) = some 409
http_status idempotency_key_in_progress = some 409
http_status (invalid_idempotency_key _) = some 400
http_status range_error = none
http_status (duplicate_subscriber_name _ _) = none
http_status (syntax_error _) = none
http_status (unique_violation _) = none
http_status (check_violation _) = none
http_status (missing_row _) = none

pub data Result {ℓ} (A : Type ℓ) : Type ℓ where
  ok : A → Result A
  err : Failure → Result A

module _ {ℓ κ} {A : Type ℓ} {B : Type κ} where
  infixl 5 ◌>>=◌ ◌>>◌
  -- A call that throws ends the rest.
  abbrev pub ◌>>=◌ : Result A → (A → Result B) → Result B
  err failure >>= rest = err failure
  ok value >>= rest = rest value

  abbrev pub ◌>>◌ : Result A → Result B → Result B
  first >> second = first >>= λ _. second

-- `if (c) throw e;`
abbrev pub throw_if : Bool → Failure → Result (Unit {0})
throw_if true e = err e
throw_if false e = ok tt

-- `if (!o) throw e;` and the value from there on
abbrev pub or_throw {ℓ} : {A : Type ℓ} → Option A → Failure → Result A
or_throw none e = err e
or_throw (some a) e = ok a

pub Result-cases {ℓ} :
    {A : Type ℓ} (r : Result A) → ((a : A) × (r ≡ ok a)) ⊎ ((f : Failure) × (r ≡ err f))
Result-cases (ok a) = inl (a, refl)
Result-cases (err f) = inr (f, refl)

-- Inversion of a successful bind, for proofs where the parts stay shut.
pub >>=-eq-ok {ℓ κ} :
    {A : Type ℓ} {B : Type κ} (first : Result A) (rest : A → Result B) {out : B}
    → (first >>= rest) ≡ ok out
    → (mid : A) × (first ≡ ok mid) × (rest mid ≡ ok out)
>>=-eq-ok (err failure) rest same = cc
>>=-eq-ok (ok mid) rest same = (mid, refl, same)

pub throw_if-eq-ok : (c : Bool) (e : Failure) {u : Unit {0}} → throw_if c e ≡ ok u → c ≡ false
throw_if-eq-ok true e h = cc
throw_if-eq-ok false e h = refl

pub or_throw-eq-ok {ℓ} :
    {A : Type ℓ} (o : Option A) (e : Failure) {a : A} → or_throw o e ≡ ok a → o ≡ some a
or_throw-eq-ok none e h = cc
or_throw-eq-ok (some a) e h = cc

pub ok-injective {ℓ} : {A : Type ℓ} {a b : A} → ok a ≡ ok b → a ≡ b
ok-injective h = cc
