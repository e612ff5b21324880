-- ===== src/Workflow/Reach.antt =====
-- Every progress that the engine can bring about, by any decisions of anyone at any times, while the
-- role assignments change as they may (`roles_at` gives the tables at each time).
pub mod Unanimous
use mathlib.Core.List.{append-nil}
use ratel_financial_platform.Prelude.{
  ℕ, suc, ◌+◌, ◌≡◌, refl, sym, ◌≢◌, true, false, some, String, List, [], ◌∷◌, ◌++◌, arith, length,
  length-append, All, All-append, Bool,
}
use ratel_financial_platform.Errors.{ok}
use ratel_financial_platform.Workflow.Chain.{ApprovalChain, ApprovalStep, step_at}
use ratel_financial_platform.Workflow.Progress.{
  ApprovalProgress, ApprovalRecord, approved, rejected, approval, rejection, start,
}
use ratel_financial_platform.Workflow.Roles.{RoleTables}
use ratel_financial_platform.Workflow.Engine.{
  Approvable, holds_required_role, already_approved, record_approval, record_rejection,
}
use ratel_financial_platform.Workflow.Engine.Laws.{
  approvers, already_approved_sound, MayDecide, record_approval-eq-ok, record_rejection-eq-ok,
}

abbrev pub IsDistinct : List String → Type 0
IsDistinct [] = Unit
IsDistinct (x ∷ xs) = All (λ y. y ≢ x) xs × IsDistinct xs

-- The records are those of the steps k, k + 1, and so on.
abbrev pub IsNumbered : ℕ → List ApprovalRecord → Type 0
IsNumbered k [] = Unit
IsNumbered k (r ∷ rs) = (r.step_order ≡ k) × IsNumbered (suc k) rs

IsDistinct-concat :
    (xs : List String) (a : String)
    → IsDistinct xs
    → All (λ b. b ≢ a) xs
    → IsDistinct (xs ++ a ∷ [])
IsDistinct-concat [] a d h = (tt, tt)
IsDistinct-concat (x ∷ xs) a d h = (
  All-append (λ y. y ≢ x) xs (a ∷ []) d.0 ((λ e. h.0 (sym e)), tt),
  IsDistinct-concat xs a d.1 h.1,
)

pub IsNumbered-concat :
    (k : ℕ) (rs : List ApprovalRecord) (r : ApprovalRecord)
    → IsNumbered k rs
    → r.step_order ≡ k + length rs
    → IsNumbered k (rs ++ r ∷ [])
IsNumbered-concat k [] r h e = (omega arith, tt)
IsNumbered-concat k (s ∷ rs) r h e = (h.0, IsNumbered-concat (suc k) rs r h.1 (omega arith))

approvers-append :
    (rs ss : List ApprovalRecord) → approvers (rs ++ ss) ≡ approvers rs ++ approvers ss
approvers-append [] ss = refl
approvers-append (r ∷ rs) ss = ground (arith, approvers-append rs ss)

module _ (roles_at : ℕ → RoleTables) (item : Approvable) (chain : ApprovalChain) where
  pub data Reached : ApprovalProgress → Type 0 where
    started : (id : String) → Reached (start id chain)
    approved_by :
        {p p' : ApprovalProgress}
        → Reached p
        → (a : String) (now : ℕ) (final : Bool)
        → record_approval (roles_at now) item p a now ≡ ok (p', final)
        → Reached p'
    rejected_by :
        {p p' : ApprovalProgress}
        → Reached p
        → (a why : String) (now : ℕ) → record_rejection (roles_at now) item p a why now ≡ ok p'
        → Reached p'

  -- An approval is of a step of the chain, by someone who held its role when it was recorded.
  abbrev pub IsQualified : ApprovalRecord → Type 0
  IsQualified r = elim r.decision [
    | approved ↦
        (s : ApprovalStep) × (step_at chain r.step_order ≡ some s)
        × (holds_required_role (roles_at r.decided_at) item s r.approver_id ≡ true)
    | rejected ↦ Unit
  ]

  pub record IsSound (p : ApprovalProgress) : Type 0 where
    pub same_chain : p.chain ≡ chain
    pub numbered : IsNumbered 1 p.records
    pub distinct : IsDistinct (approvers p.records)
    pub independent : All (λ r. item.requester_id ≢ r.approver_id) p.records
    pub qualified : All IsQualified p.records

  approved-IsSound :
      (p p' : ApprovalProgress) (a : String) (now : ℕ) (final : Bool)
      → IsSound p
      → record_approval (roles_at now) item p a now ≡ ok (p', final)
      → IsSound p'
  unfolding start
  approved-IsSound p p' a now final h e =
      let (s, may, fresh, same, _) = record_approval-eq-ok (roles_at now) item p a now e in
      rw same (record {
        same_chain = h.same_chain;
        numbered = IsNumbered-concat 1 p.records _ h.numbered (omega arith);
        distinct = rw (approvers-append p.records _) (
            IsDistinct-concat (approvers p.records) a h.distinct
              (already_approved_sound p a fresh));
        independent = All-append _ p.records _ h.independent (may.is_other, tt);
        qualified =
            All-append IsQualified p.records _ h.qualified
              ((s, rw (h.same_chain) at may.current, may.holds_role), tt);
      })

  rejected-IsSound :
      (p p' : ApprovalProgress) (a why : String) (now : ℕ)
      → IsSound p
      → record_rejection (roles_at now) item p a why now ≡ ok p'
      → IsSound p'
  rejected-IsSound p p' a why now h e =
      let (other, same) = record_rejection-eq-ok (roles_at now) item p a why now e in
      rw same (record {
        same_chain = h.same_chain;
        numbered = IsNumbered-concat 1 p.records _ h.numbered (omega arith);
        distinct = rw (approvers-append p.records _, append-nil) h.distinct;
        independent = All-append _ p.records _ h.independent (other, tt);
        qualified = All-append IsQualified p.records _ h.qualified (tt, tt);
      })

  -- In every progress that can come about the records are numbered 1, 2, … in order, nobody has
  -- approved twice, no decision is the requester's, and each approval was made by someone who held
  -- the role of its step at that time.
  pub Reached-IsSound : {p : ApprovalProgress} → Reached p → IsSound p
  unfolding start
  Reached-IsSound (started id) = record {
    same_chain = refl;
    numbered = tt;
    distinct = tt;
    independent = tt;
    qualified = tt;
  }
  Reached-IsSound (approved_by {p} {p'} r a now final e) =
      approved-IsSound p p' a now final (Reached-IsSound r) e
  Reached-IsSound (rejected_by {p} {p'} r a why now e) =
      rejected-IsSound p p' a why now (Reached-IsSound r) e
