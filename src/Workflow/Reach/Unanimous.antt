-- ===== src/Workflow/Reach/Unanimous.antt =====
-- What stands behind a final approval, and the panel of the larger expenses.
use mathlib.Core.Path.{subst}
use mathlib.Core.List.{Memᴰ}
use ratel_financial_platform.Prelude.{
  ℕ, suc, ◌≤◌, ◌+◌, not, ◌||◌, Option, none, some, ◌⊎◌, inl, inr, ap, eq_iff, any-true, All-weaken,
  ◌≡◌, refl, sym, ◌∙◌, ◌≢◌, true, String, List, [], ◌∷◌, map, arith, length, length-append, All,
  All-append, leb, if◌then◌else◌,
}
use ratel_financial_platform.Errors.{ok}
use ratel_financial_platform.Workflow.Chain.{
  ApprovalChain, ApprovalStep, StepScope, department, organization, step_at, of,
}
use ratel_financial_platform.Workflow.Chain.Laws.{IsContiguous, is_last_step_iff}
use ratel_financial_platform.Workflow.Progress.{ApprovalProgress, ApprovalRecord, approved}
use ratel_financial_platform.Workflow.Roles.{RoleTables, RoleAssignment, get_roles_for_user}
use ratel_financial_platform.Workflow.Engine.{
  Approvable, record_approval, same_department, is_department, satisfies, holds_required_role,
}
use ratel_financial_platform.Workflow.Engine.Laws.{approvers, record_approval-eq-ok}
use ratel_financial_platform.Workflow.Policies.{resolve_expense_chain}
use ratel_financial_platform.Workflow.Policies.Laws.{
  magnitude, resolve_expense_chain-IsContiguous, absolute_amount-magnitude,
}
use ratel_financial_platform.Workflow.Reach.{
  IsDistinct, IsNumbered, Reached, approved_by, IsQualified, Reached-IsSound,
}

abbrev pub IsApproval : ApprovalRecord → Type 0
IsApproval r = r.decision ≡ approved

abbrev pub approver_ids : List ApprovalRecord → List String
approver_ids = map (λ (r : ApprovalRecord). r.approver_id)

approvers-eq-approver_ids :
    (rs : List ApprovalRecord) → All IsApproval rs → approvers rs ≡ approver_ids rs
approvers-eq-approver_ids [] h = refl
approvers-eq-approver_ids (r ∷ rs) h = ground (arith, approvers-eq-approver_ids rs h.1)

module _ (roles_at : ℕ → RoleTables) (item : Approvable) (chain : ApprovalChain) where
  -- Every step of the chain has its own record, all of them are approvals by different people, none
  -- of whom is the requester, and each held the role of the step when approving it.
  pub record IsUnanimous (p : ApprovalProgress) : Type 0 where
    pub complete : length p.records ≡ length chain
    pub approvals : All IsApproval p.records
    pub distinct : IsDistinct (approver_ids p.records)
    pub independent : All (λ r. item.requester_id ≢ r.approver_id) p.records
    pub qualified : All (IsQualified roles_at item chain) p.records

  -- On a chain whose step orders run from 1 without a gap, a final approval completes the chain: if
  -- nobody has rejected before it, the approvals are unanimous.
  pub final_approval-IsUnanimous :
      {p : ApprovalProgress} (a : String) (now : ℕ) {p' : ApprovalProgress}
      → IsContiguous 1 chain
      → Reached roles_at item chain p
      → All IsApproval p.records
      → record_approval (roles_at now) item p a now ≡ ok (p', true)
      → IsUnanimous p'
  final_approval-IsUnanimous {p} a now {p'} contiguous r h e =
      let (s, _, _, same, last) = record_approval-eq-ok (roles_at now) item p a now e in
      let sound = Reached-IsSound roles_at item chain r in
      let after = Reached-IsSound roles_at item chain (approved_by r a now true e) in
      let approvals : All IsApproval p'.records =
        rw same (All-append IsApproval p.records _ h (refl, tt)) in
      let final = (is_last_step_iff chain (length p.records + 1) contiguous (omega arith)).0 in
      let grown : length p'.records ≡ length p.records + 1 =
        rw same (rw (length-append p.records _) (omega arith)) in
      record {
        complete = grown ∙ final (rw sound.same_chain at (sym last));
        approvals = approvals;
        distinct = rw (approvers-eq-approver_ids p'.records approvals) at after.distinct;
        independent = after.independent;
        qualified = after.qualified;
      }

-- The record is the approval of someone who held the role at that time: anywhere for an organization
-- step, and in the item's department for a department step.
abbrev pub SignedAs : (ℕ → RoleTables) → Approvable → String × StepScope → ApprovalRecord → Type 0
SignedAs roles_at item (role, scope) r =
    (r.decision ≡ approved)
    × ((a : RoleAssignment) × Memᴰ a (get_roles_for_user (roles_at r.decided_at) r.approver_id)
        × (a.role ≡ role)
        × ((scope ≡ organization)
            ⊎ ((d : String) × (a.department_id ≡ some d) × (item.department_id ≡ some d))))

-- The records, in their order, are signed as the roles ask.
abbrev pub SignedBy :
    (ℕ → RoleTables) → Approvable → List (String × StepScope) → List ApprovalRecord → Type 0
SignedBy roles_at item [] [] = Unit
SignedBy roles_at item (role ∷ roles) (r ∷ rs) =
    SignedAs roles_at item role r × SignedBy roles_at item roles rs
SignedBy roles_at item _ _ = ⊥

abbrev pub asked : ApprovalStep → String × StepScope
asked s = (s.required_role, s.required_scope)

-- The published panel for an amount of this size, in kobo.
abbrev pub panel : ℕ → List (String × StepScope)
panel n =
    if leb n 10_000_000
    then ("department_head", department) ∷ []
    else if leb 100_000_000 n
    then ("department_head", organization)
      ∷ ("department_head", organization)
      ∷ ("department_head", organization)
      ∷ ("finance_director", organization)
      ∷ []
    else ("department_head", organization)
      ∷ ("department_head", organization)
      ∷ ("department_head", organization)
      ∷ []

same_department-some :
    (a b : Option String) → same_department a b ≡ true → (d : String) × (a ≡ some d) × (b ≡ some d)
same_department-some none b h = absurd (ground (arith, h))
same_department-some (some a) none h = absurd (ground (arith, h))
same_department-some (some a) (some b) h = (b, ap some ((eq_iff a b).0 h), refl)

held :
    (roles : RoleTables) (item : Approvable) (s : ApprovalStep) (id : String)
    → holds_required_role roles item s id ≡ true
    → (a : RoleAssignment) × Memᴰ a (get_roles_for_user roles id)
      × (a.role ≡ s.required_role)
      × ((s.required_scope ≡ organization)
          ⊎ ((d : String) × (a.department_id ≡ some d) × (item.department_id ≡ some d)))
unfolding holds_required_role satisfies
held roles item s id h =
    let (a, m, t) = any-true (satisfies item s) (get_roles_for_user roles id) h in
    (
      a,
      m,
      (eq_iff a.role s.required_role).0 (ground arith),
      in_scope s.required_scope a (ground arith),
    )
  where
    in_scope :
        (scope : StepScope) (a : RoleAssignment)
        → (not (is_department scope) || same_department a.department_id item.department_id) ≡ true
        → (scope ≡ organization)
          ⊎ ((d : String) × (a.department_id ≡ some d) × (item.department_id ≡ some d))
    in_scope organization a h = inl refl
    in_scope department a h = inr (same_department-some a.department_id item.department_id h)

-- The step of each order is found in a chain without gaps.
found_steps :
    (k : ℕ) (c : ApprovalChain)
    → IsContiguous k c
    → All (λ (s : ApprovalStep). (k ≤ s.order) × (step_at c s.order ≡ some s)) c
unfolding step_at
found_steps k [] h = tt
found_steps k (s ∷ ss) (e, h) = (
  (omega arith, ground arith),
  All-weaken (λ (t : ApprovalStep) g. let (le, f) = g in (omega arith, ground arith)) ss
      (found_steps (suc k) ss h),
)

signed :
    (roles_at : ℕ → RoleTables) (item : Approvable) (chain : ApprovalChain) (k : ℕ)
    (steps : ApprovalChain) (rs : List ApprovalRecord)
    → IsContiguous k steps
    → All (λ (s : ApprovalStep). (1 ≤ s.order) × (step_at chain s.order ≡ some s)) steps
    → IsNumbered k rs
    → All IsApproval rs
    → All (IsQualified roles_at item chain) rs
    → length rs ≡ length steps
    → SignedBy roles_at item (map asked steps) rs
signed roles_at item chain k [] [] c f n a q len = tt
signed roles_at item chain k [] (r ∷ rs) c f n a q len = absurd (omega (arith, len))
signed roles_at item chain k (s ∷ ss) [] c f n a q len = absurd (omega (arith, len))
signed roles_at item chain k (s ∷ ss) (r ∷ rs) (e, c) ((_, here), f) (o, n) (a, bs) (q, qs) len =
    let (t, at, holds) = rw a at q in
    let same : some t ≡ some s = sym at ∙ ap (step_at chain) (o ∙ sym e) ∙ here in
    let is : t ≡ s = cc in
    (
      (
        a,
        held (roles_at r.decided_at) item s r.approver_id (
            ap (λ z. holds_required_role (roles_at r.decided_at) item z r.approver_id) (sym is)
            ∙ holds),
      ),
      signed roles_at item chain (suc k) ss rs c f n bs qs (omega (arith, len)),
    )

panel-asked :
    (item : Approvable)
    → map asked (resolve_expense_chain item) ≡ panel (magnitude item.amount_minor_units)
unfolding resolve_expense_chain of
panel-asked item = rw (absolute_amount-magnitude item.amount_minor_units) (ground arith)

-- For an expense under its policy: a final approval that no rejection came before is unanimous. The
-- approvals are those of a head of the expense's department up to NGN 100,000, of three department
-- heads above it, and of a finance director after them from NGN 1,000,000 on, who held that role when
-- they approved.
pub expense_final_approval :
    (roles_at : ℕ → RoleTables) (item : Approvable) {p : ApprovalProgress} (a : String) (now : ℕ)
    {p' : ApprovalProgress}
    → Reached roles_at item (resolve_expense_chain item) p
    → All IsApproval p.records
    → record_approval (roles_at now) item p a now ≡ ok (p', true)
    → IsUnanimous roles_at item (resolve_expense_chain item) p'
      × SignedBy roles_at item (panel (magnitude item.amount_minor_units)) p'.records
expense_final_approval roles_at item {p} a now {p'} r h e =
    let chain = resolve_expense_chain item in
    let (contiguous, _) = resolve_expense_chain-IsContiguous item in
    let all = final_approval-IsUnanimous roles_at item chain a now contiguous r h e in
    let after = Reached-IsSound roles_at item chain (approved_by r a now true e) in
    (
      all,
      subst (λ ps. SignedBy roles_at item ps p'.records) (panel-asked item)
          (signed roles_at item chain 1 chain p'.records contiguous (found_steps 1 chain contiguous)
            after.numbered all.approvals all.qualified all.complete),
    )
