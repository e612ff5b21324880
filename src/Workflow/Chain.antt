-- ===== src/Workflow/Chain.antt =====
-- shared-kernel/workflow/approval-chain.ts. A chain is its list of steps in the order that `of` has
-- sorted them into; step orders are the positive integers that the policies write.
pub mod Laws
use ratel_financial_platform.Prelude.{
  ℕ, String, Bool, true, false, Option, none, some, List, [], ◌∷◌, leb, ◌==◌, if◌then◌else◌, find,
}

-- 'department' | 'organization'
pub data StepScope : Type 0 where
  department organization : StepScope

pub record ApprovalStep : Type 0 where
  pub order : ℕ
  pub required_role : String
  pub required_scope : StepScope

abbrev pub ApprovalChain : Type 0
ApprovalChain = List ApprovalStep

-- `sort((a, b) => a.order - b.order)` is stable: a step goes before the first that is not below it.
unfoldable pub insert_step : ApprovalStep → List ApprovalStep → List ApprovalStep
insert_step s [] = s ∷ []
insert_step s (t ∷ ts) = if leb s.order t.order then s ∷ t ∷ ts else t ∷ insert_step s ts

unfoldable pub of : List ApprovalStep → ApprovalChain
unfolding insert_step
of [] = []
of (s ∷ ss) = insert_step s (of ss)

pub empty : ApprovalChain
empty = []

unfoldable pub is_empty : ApprovalChain → Bool
is_empty [] = true
is_empty (_ ∷ _) = false

pub first_step : ApprovalChain → Option ApprovalStep
first_step [] = none
first_step (s ∷ _) = some s

unfoldable pub step_at : ApprovalChain → ℕ → Option ApprovalStep
step_at chain order = find (λ s. s.order == order) chain

-- `Math.max` of the orders; `none` is the -Infinity of an empty chain.
unfoldable pub max_order : ApprovalChain → Option ℕ
max_order [] = none
max_order (s ∷ ss) = elim (max_order ss) [
  | none ↦ some s.order
  | some m ↦ some (if leb s.order m then m else s.order)
]

unfoldable pub is_last_step : ApprovalChain → ℕ → Bool
is_last_step chain order = elim (max_order chain) [ none ↦ false | some m ↦ order == m ]
