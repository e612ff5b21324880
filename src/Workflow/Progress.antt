-- ===== src/Workflow/Progress.antt =====
-- shared-kernel/workflow/approval-progress.ts. The methods that append to `records` return the new
-- progress; `now` is what `new Date()` returns, in milliseconds.
use ratel_financial_platform.Prelude.{
  ℕ, ◌+◌, String, Bool, true, false, Option, none, some, List, [], ◌∷◌, ◌++◌, length,
}
use ratel_financial_platform.Errors.{Result, ok, ◌>>=◌, or_throw, no_such_approval_step}
use ratel_financial_platform.Workflow.Chain.{ApprovalChain, ApprovalStep, step_at, is_last_step}

-- 'approved' | 'rejected'
pub data Decision : Type 0 where
  approved rejected : Decision

abbrev pub is_approved : Decision → Bool
is_approved approved = true
is_approved rejected = false

pub record ApprovalRecord : Type 0 where
  pub step_order : ℕ
  pub approver_id : String
  pub decided_at : ℕ
  pub decision : Decision
  pub reason : Option String

pub record ApprovalProgress : Type 0 where
  pub item_id : String
  pub chain : ApprovalChain
  pub records : List ApprovalRecord

unfoldable pub start : String → ApprovalChain → ApprovalProgress
start item_id chain = record { item_id = item_id; chain = chain; records = [] }

unfoldable pub current_step_order : ApprovalProgress → ℕ
current_step_order p = length p.records + 1

unfoldable pub current_step_requirement : ApprovalProgress → Option ApprovalStep
unfolding current_step_order
current_step_requirement p = step_at p.chain (current_step_order p)

abbrev pub approval : ℕ → String → ℕ → ApprovalRecord
approval order approver now = record {
  step_order = order;
  approver_id = approver;
  decided_at = now;
  decision = approved;
  reason = none;
}

abbrev pub rejection : ℕ → String → String → ℕ → ApprovalRecord
rejection order approver why now = record {
  step_order = order;
  approver_id = approver;
  decided_at = now;
  decision = rejected;
  reason = some why;
}

-- The new progress, and `isFinalApproval`.
unfoldable pub record_approval : ApprovalProgress → String → ℕ → Result (ApprovalProgress × Bool)
unfolding current_step_order
record_approval p approver now = do
  step ←
      or_throw (step_at p.chain (current_step_order p))
        (no_such_approval_step p.item_id (current_step_order p))
  ok (
    record p { records = p.records ++ approval (current_step_order p) approver now ∷ [] },
    is_last_step p.chain (current_step_order p),
  )

unfoldable pub record_rejection : ApprovalProgress → String → String → ℕ → ApprovalProgress
unfolding current_step_order
record_rejection p approver why now = record p {
  records = p.records ++ rejection (current_step_order p) approver why now ∷ [];
}
