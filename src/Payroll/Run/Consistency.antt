-- ===== src/Payroll/Run/Consistency.antt =====
-- What holds of every payroll run on its way.
use mathlib.Core.Path.{subst}
use ratel_financial_platform.Prelude.{
  ℕ, String, ◌≡◌, refl, Bool, true, false, Option, none, some, List, [], ◌∷◌, ◌++◌, arith, str_eq,
  eq_iff,
}
use ratel_financial_platform.Errors.{ok}
use ratel_financial_platform.Payroll.Payslip.{Payslip}
use ratel_financial_platform.Payroll.Run.{
  PayrollRunStatus, draft, approved, processing, completed, cancelled, PayrollRun, create,
  add_payslip, submit_for_approval, approve, reject, start_processing, complete, cancel,
  has_payslip_for,
}
use ratel_financial_platform.Payroll.Run.Lifecycle.{
  Call, add_call, submit_call, approve_call, reject_call, start_call, complete_call, cancel_call,
  perform,
}

-- No two payslips are for the same employee.
unfoldable pub Distinct : {J : Type 0} → List (Payslip J) → Type 0
Distinct [] = Unit
Distinct (p ∷ ps) = (has_payslip_for ps p.employee_id ≡ false) × Distinct ps

-- Submitted, and not cancelled since.
abbrev pub IsUnderway : PayrollRunStatus → Type 0
IsUnderway draft = ⊥
IsUnderway cancelled = ⊥
IsUnderway _ = Unit

abbrev pub was_approved : PayrollRunStatus → Bool
was_approved approved = true
was_approved processing = true
was_approved completed = true
was_approved _ = false

abbrev pub has_value : {A : Type 0} → Option A → Bool
has_value none = false
has_value (some _) = true

module _ {J : Type 0} where
  has_payslip_for-append :
      (ps : List (Payslip J)) (q : Payslip J) (e : String)
      → has_payslip_for ps e ≡ false
      → str_eq q.employee_id e ≡ false
      → has_payslip_for (ps ++ q ∷ []) e ≡ false
  unfolding has_payslip_for
  has_payslip_for-append [] q e h k = ground arith
  has_payslip_for-append (p ∷ ps) q e h k =
      let later = has_payslip_for-append ps q e in ground arith

  -- One more payslip, for an employee who has none yet, leaves them distinct.
  append-Distinct :
      (ps : List (Payslip J)) (q : Payslip J)
      → has_payslip_for ps q.employee_id ≡ false
      → Distinct ps
      → Distinct (ps ++ q ∷ [])
  unfolding has_payslip_for Distinct
  append-Distinct [] q h d = (refl, tt)
  append-Distinct (p ∷ ps) q h (hp, d) =
      let e1 = eq_iff p.employee_id q.employee_id in
      let e2 = eq_iff q.employee_id p.employee_id in
      let other : str_eq q.employee_id p.employee_id ≡ false = ground arith in
      let rest : has_payslip_for ps q.employee_id ≡ false = ground arith in
      (has_payslip_for-append ps q p.employee_id hp other, append-Distinct ps q rest d)

  abbrev pub IsNonempty : List (Payslip J) → Type 0
  IsNonempty [] = ⊥
  IsNonempty (_ ∷ _) = Unit

  -- An employee has at most one payslip in the run; a run that is submitted has payslips; it
  -- names an approver, and when, exactly if it was approved.
  pub record IsConsistent (r : PayrollRun J) : Type 0 where
    pub distinct : Distinct r.payslips
    pub nonempty : IsUnderway r.props.status → IsNonempty r.payslips
    pub approver : has_value r.props.approved_by_id ≡ was_approved r.props.status
    pub approval_time : has_value r.props.approved_at ≡ was_approved r.props.status

  pub create-IsConsistent :
      (o p : String) (m : ℕ) (by id : String) (now : ℕ) → IsConsistent (create o p m by id now)
  unfolding create Distinct
  create-IsConsistent o p m by id now = record {
    distinct = tt;
    nonempty = λ h. absurd h;
    approver = refl;
    approval_time = refl;
  }

  keeps_Distinct :
      (c : Call J) (now : ℕ) (r r' : PayrollRun J)
      → perform c now r ≡ ok r'
      → Distinct r.payslips
      → Distinct r'.payslips
  unfolding perform add_payslip submit_for_approval approve reject start_processing complete cancel
  keeps_Distinct (add_call p) now r r' h d =
      let free : has_payslip_for r.payslips p.employee_id ≡ false = ground arith in
      let same : r.payslips ++ p ∷ [] ≡ r'.payslips = ground arith in
      subst Distinct same (append-Distinct r.payslips p free d)
  keeps_Distinct submit_call now r r' h d = ground arith
  keeps_Distinct (approve_call a) now r r' h d = ground arith
  keeps_Distinct (reject_call a why) now r r' h d = ground arith
  keeps_Distinct start_call now r r' h d = ground arith
  keeps_Distinct complete_call now r r' h d = ground arith
  keeps_Distinct (cancel_call a) now r r' h d = ground arith

  keeps_IsNonempty :
      (c : Call J) (now : ℕ) (r r' : PayrollRun J)
      → perform c now r ≡ ok r'
      → (IsUnderway r.props.status → IsNonempty r.payslips)
      → IsUnderway r'.props.status
      → IsNonempty r'.payslips
  unfolding perform add_payslip submit_for_approval approve reject start_processing complete cancel
  keeps_IsNonempty (add_call p) now r r' h n u = ground arith
  keeps_IsNonempty submit_call now r r' h n u = ground arith
  keeps_IsNonempty (approve_call a) now r r' h n u = ground arith
  keeps_IsNonempty (reject_call a why) now r r' h n u = ground arith
  keeps_IsNonempty start_call now r r' h n u = ground arith
  keeps_IsNonempty complete_call now r r' h n u = ground arith
  keeps_IsNonempty (cancel_call a) now r r' h n u = ground arith

  keeps_approver :
      (c : Call J) (now : ℕ) (r r' : PayrollRun J)
      → perform c now r ≡ ok r'
      → (has_value r.props.approved_by_id ≡ was_approved r.props.status)
        × (has_value r.props.approved_at ≡ was_approved r.props.status)
      → (has_value r'.props.approved_by_id ≡ was_approved r'.props.status)
        × (has_value r'.props.approved_at ≡ was_approved r'.props.status)
  unfolding perform add_payslip submit_for_approval approve reject start_processing complete cancel
  keeps_approver (add_call p) now r r' h k = ground arith
  keeps_approver submit_call now r r' h k = ground arith
  keeps_approver (approve_call a) now r r' h k = ground arith
  keeps_approver (reject_call a why) now r r' h k = ground arith
  keeps_approver start_call now r r' h k = ground arith
  keeps_approver complete_call now r r' h k = ground arith
  keeps_approver (cancel_call a) now r r' h k = ground arith

  -- Every call that succeeds keeps a run consistent.
  pub perform-IsConsistent :
      (c : Call J) (now : ℕ) (r r' : PayrollRun J)
      → perform c now r ≡ ok r'
      → IsConsistent r
      → IsConsistent r'
  perform-IsConsistent c now r r' h k =
      let (by, at) = keeps_approver c now r r' h (k.approver, k.approval_time) in
      record {
        distinct = keeps_Distinct c now r r' h k.distinct;
        nonempty = keeps_IsNonempty c now r r' h k.nonempty;
        approver = by;
        approval_time = at;
      }
