-- ===== src/Workflow/Engine/Laws.antt =====
-- When the engine accepts a decision, and what it then records.
use ratel_financial_platform.Prelude.{
  ℕ, ◌+◌, ◌≡◌, ◌≢◌, Bool, true, false, some, String, List, [], ◌∷◌, ◌++◌, arith, ◌&&◌, str_eq,
  eq_iff, length, any, All, Option-cases, inl, inr,
}
use ratel_financial_platform.Errors.{ok}
use ratel_financial_platform.Workflow.Chain.{ApprovalStep, step_at, is_last_step}
use ratel_financial_platform.Workflow.Progress
use ratel_financial_platform.Workflow.Progress.{
  ApprovalProgress, ApprovalRecord, Decision, approved, rejected, is_approved, approval, rejection,
  current_step_order, current_step_requirement,
}
use ratel_financial_platform.Workflow.Roles.{RoleTables}
use ratel_financial_platform.Workflow.Engine.{
  Approvable, holds_required_role, assert_holds_current_step_role, already_approved,
  record_approval, record_rejection,
}

-- Who approved, in the order of the records.
abbrev pub approvers : List ApprovalRecord → List String
approvers [] = []
approvers (r ∷ rs) = elim r.decision [
  | approved ↦ r.approver_id ∷ approvers rs
  | rejected ↦ approvers rs
]

any-approver_iff :
    (a : String) (rs : List ApprovalRecord)
    → any (λ (r : ApprovalRecord). is_approved r.decision && str_eq r.approver_id a) rs ≡ false
    → All (λ b. b ≢ a) (approvers rs)
any-approver_iff a [] h = tt
any-approver_iff a (r ∷ rs) h = ground (arith, any-approver_iff a rs, eq_iff r.approver_id a)

pub already_approved_sound :
    (p : ApprovalProgress) (a : String)
    → already_approved p a ≡ false
    → All (λ b. b ≢ a) (approvers p.records)
unfolding already_approved
already_approved_sound p a h = any-approver_iff a p.records h

module _ (roles : RoleTables) (item : Approvable) (p : ApprovalProgress) (a : String) where
  -- What has to hold for the approver's decision on the current step to be taken.
  pub record MayDecide (s : ApprovalStep) : Type 0 where
    pub current : step_at p.chain (length p.records + 1) ≡ some s
    pub is_other : item.requester_id ≢ a
    pub holds_role : holds_required_role roles item s a ≡ true

  -- An accepted approval comes from someone else than the requester, who has not approved yet and
  -- holds the role of the current step; it is recorded under that step, and it is final exactly if
  -- that step is the last.
  pub record_approval-eq-ok :
      (now : ℕ) {p' : ApprovalProgress} {final : Bool}
      → record_approval roles item p a now ≡ ok (p', final)
      → (s : ApprovalStep) × MayDecide s
        × (already_approved p a ≡ false)
        × (p' ≡ record p { records = p.records ++ approval (length p.records + 1) a now ∷ [] })
        × (final ≡ is_last_step p.chain (length p.records + 1))
  unfolding record_approval assert_holds_current_step_role Progress.record_approval
      current_step_requirement
  record_approval-eq-ok now h = elim (Option-cases (step_at p.chain (length p.records + 1))) [
    | inl missing ↦ absurd (ground (arith, eq_iff item.requester_id a))
    | inr (s, found) ↦ (
      s,
      record {
        current = found;
        is_other = ground (arith, eq_iff item.requester_id a);
        holds_role = ground (arith, eq_iff item.requester_id a);
      },
      ground arith,
      ground arith,
      ground arith,
    )
  ]

  -- Someone who is not the requester, holds the role of the current step and has not approved yet is
  -- never refused: the approval is recorded under that step, and is final exactly if it is the last.
  pub record_approval_accepts :
      (now : ℕ) (s : ApprovalStep)
      → MayDecide s
      → already_approved p a ≡ false
      → record_approval roles item p a now
        ≡ ok (
          record p { records = p.records ++ approval (length p.records + 1) a now ∷ [] },
          is_last_step p.chain (length p.records + 1),
        )
  unfolding record_approval assert_holds_current_step_role Progress.record_approval
      current_step_requirement
  record_approval_accepts now s m fresh =
      let e1 = m.current in
      let e2 = m.is_other in let e3 = m.holds_role in ground (arith, eq_iff item.requester_id a)

  pub record_rejection-eq-ok :
      (why : String) (now : ℕ) {p' : ApprovalProgress}
      → record_rejection roles item p a why now ≡ ok p'
      → (item.requester_id ≢ a)
        × (p' ≡ record p { records = p.records ++ rejection (length p.records + 1) a why now ∷ [] })
  unfolding record_rejection assert_holds_current_step_role Progress.record_rejection
  record_rejection-eq-ok why now h = (ground (arith, eq_iff item.requester_id a), ground arith)
