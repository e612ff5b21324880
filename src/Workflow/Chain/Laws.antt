-- ===== src/Workflow/Chain/Laws.antt =====
-- Sorting a chain, and looking up steps in one whose orders are contiguous.
use mathlib.Core.List.{Perm}
use native.Mathlib.Decide.{ℕ_discrete}
use mathlib.Core.List.Perm
use ratel_financial_platform.Prelude.{
  ℕ, suc, ◌+◌, ◌≤◌, ◌<◌, ◌≡◌, ◌↔◌, true, some, List, [], ◌∷◌, arith, leb, length, All, Bool-cases,
  inl, inr,
}
use ratel_financial_platform.Workflow.Chain.{
  ApprovalChain, ApprovalStep, insert_step, of, step_at, max_order, is_last_step,
}

-- Every step's order is at most the orders of the steps after it.
abbrev pub IsSorted : List ApprovalStep → Type 0
IsSorted [] = Unit
IsSorted (s ∷ ss) = All (λ t. s.order ≤ t.order) ss × IsSorted ss

insert_step-perm : (s : ApprovalStep) (ss : List ApprovalStep) → Perm (insert_step s ss) (s ∷ ss)
unfolding insert_step
insert_step-perm s [] = Perm.refl _
insert_step-perm s (t ∷ ts) = elim (Bool-cases (leb s.order t.order)) [
  | inl below ↦ rw below (Perm.refl _)
  | inr above ↦ rw above (Perm.trans (Perm.cons t (insert_step-perm s ts)) (Perm.swap s t ts))
]

of-perm : (ss : List ApprovalStep) → Perm (of ss) ss
unfolding of
of-perm [] = Perm.refl _
of-perm (s ∷ ss) = Perm.trans (insert_step-perm s (of ss)) (Perm.cons s (of-perm ss))

insert_step-All :
    (P : ApprovalStep → Type 0) (s : ApprovalStep) (ss : List ApprovalStep)
    → P s
    → All P ss
    → All P (insert_step s ss)
unfolding insert_step
insert_step-All P s [] p h = (p, tt)
insert_step-All P s (t ∷ ts) p h = elim (Bool-cases (leb s.order t.order)) [
  | inl below ↦ rw below (p, h)
  | inr above ↦ rw above (h.0, insert_step-All P s ts p h.1)
]

All-weaken :
    (a b : ℕ) (ss : List ApprovalStep)
    → a ≤ b
    → All (λ (t : ApprovalStep). b ≤ t.order) ss
    → All (λ (t : ApprovalStep). a ≤ t.order) ss
All-weaken a b [] le h = tt
All-weaken a b (s ∷ ss) le h = (omega arith, All-weaken a b ss le h.1)

insert_step-IsSorted :
    (s : ApprovalStep) (ss : List ApprovalStep) → IsSorted ss → IsSorted (insert_step s ss)
unfolding insert_step
insert_step-IsSorted s [] h = (tt, tt)
insert_step-IsSorted s (t ∷ ts) h = elim (Bool-cases (leb s.order t.order)) [
  | inl below ↦
      let le : s.order ≤ t.order = ground arith in
      rw below ((le, All-weaken s.order t.order ts le h.0), h)
  | inr above ↦ rw above (
    insert_step-All (λ u. t.order ≤ u.order) s ts (ground arith) h.0,
    insert_step-IsSorted s ts h.1,
  )
]

of-IsSorted : (ss : List ApprovalStep) → IsSorted (of ss)
unfolding of
of-IsSorted [] = tt
of-IsSorted (s ∷ ss) = insert_step-IsSorted s (of ss) (of-IsSorted ss)

-- `ApprovalChain.of` keeps exactly the given steps, and puts them in ascending order.
pub of_sorts : (ss : List ApprovalStep) → Perm (of ss) ss × IsSorted (of ss)
of_sorts ss = (of-perm ss, of-IsSorted ss)

-- The orders are k, k + 1, and so on.
abbrev pub IsContiguous : ℕ → List ApprovalStep → Type 0
IsContiguous k [] = Unit
IsContiguous k (s ∷ ss) = (s.order ≡ k) × IsContiguous (suc k) ss

max_order_contiguous :
    (k : ℕ) (s : ApprovalStep) (ss : List ApprovalStep)
    → IsContiguous k (s ∷ ss)
    → max_order (s ∷ ss) ≡ some (k + length ss)
unfolding max_order
max_order_contiguous k s [] h = ground arith
max_order_contiguous k s (t ∷ ts) h = rw (max_order_contiguous (suc k) t ts h.1) (ground arith)

-- In a contiguous chain the last step is the one whose order is the length.
pub is_last_step_iff :
    (chain : ApprovalChain) (n : ℕ)
    → IsContiguous 1 chain
    → 0 < n
    → (is_last_step chain n ≡ true) ↔ (n ≡ length chain)
unfolding is_last_step
is_last_step_iff [] n h p = unfold max_order in (λ e. cc, λ e. absurd (omega arith))
is_last_step_iff (s ∷ ss) n h p = rw (max_order_contiguous 1 s ss h, is_last_step) (ground arith)

-- Only the orders of a contiguous chain have a step.
pub step_at_bounds :
    (k : ℕ) (chain : ApprovalChain) (n : ℕ) {t : ApprovalStep}
    → IsContiguous k chain
    → step_at chain n ≡ some t
    → (k ≤ n) × (n < k + length chain)
unfolding step_at
step_at_bounds k [] n h e = cc
step_at_bounds k (s ∷ ss) n {t} h e = ground (arith, step_at_bounds (suc k) ss n {t = t} h.1)

pub step_at_total :
    (k : ℕ) (chain : ApprovalChain) (n : ℕ)
    → IsContiguous k chain
    → k ≤ n
    → n < k + length chain
    → (t : ApprovalStep) × (step_at chain n ≡ some t) × (t.order ≡ n)
unfolding step_at
step_at_total k [] n h a b = absurd (omega arith)
step_at_total k (s ∷ ss) n h a b = elim (ℕ_discrete s.order n) [
  | yes same ↦ (s, ground arith, same)
  | no other ↦
      let (t, e, o) = step_at_total (suc k) ss n h.1 (omega arith) (omega arith) in
      (t, ground arith, o)
]
