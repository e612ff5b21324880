-- ===== src/Database/Approvals.antt =====
-- shared-kernel/workflow/infrastructure/prisma-approval-progress.repository.ts over the rows of
-- `approval_progress` and `approval_records`.
pub mod Laws
use ratel_financial_platform.Prelude.{
  String, Bool, true, false, not, Option, none, some, List, [], ◌∷◌, ◌++◌, str_eq, leb, ◌==◌, find,
  any, keep, if◌then◌else◌,
}
use ratel_financial_platform.Errors.{Result, ok, ◌>>◌, throw_if, unique_violation, missing_row}
use ratel_financial_platform.Workflow.Chain
use ratel_financial_platform.Workflow.Chain.{ApprovalChain}
use ratel_financial_platform.Workflow.Progress.{ApprovalRecord, ApprovalProgress}
use ratel_financial_platform.Database.{Database, ApprovalRow}

unfoldable pub find_row : String → List ApprovalRow → Option ApprovalRow
find_row id rows = find (λ (r : ApprovalRow). str_eq r.item_id id) rows

abbrev pub is_stored : String → List ApprovalRow → Bool
is_stored id rows = any (λ (r : ApprovalRow). str_eq r.item_id id) rows

-- `item_id` is unique, so a second `create` for an item throws.
unfoldable pub initialize : String → String → ApprovalChain → Database → Result Database
initialize item_id item_type chain db = do
  throw_if (is_stored item_id db.approvals) (unique_violation "approval_progress_item_id_key")
  ok (record db {
    approvals =
        db.approvals
        ++ record { item_id = item_id; item_type = item_type; chain = chain; records = [] } ∷ [];
  })

-- `records: { orderBy: { stepOrder: 'asc' } }`
insert_record : ApprovalRecord → List ApprovalRecord → List ApprovalRecord
insert_record r [] = r ∷ []
insert_record r (s ∷ ss) =
    if leb r.step_order s.step_order then r ∷ s ∷ ss else s ∷ insert_record r ss

unfoldable pub by_step_order : List ApprovalRecord → List ApprovalRecord
unfolding insert_record
by_step_order [] = []
by_step_order (r ∷ rs) = insert_record r (by_step_order rs)

unfoldable pub find_by_item_id : String → Database → Option ApprovalProgress
find_by_item_id id db = elim (find_row id db.approvals) [
  | none ↦ none
  | some row ↦
      some
        (record { item_id = id; chain = Chain.of row.chain; records = by_step_order row.records })
]

-- The records whose step is not stored yet.
unfoldable pub new_records : List ApprovalRecord → List ApprovalRecord → List ApprovalRecord
new_records stored records =
    keep
      (λ (r : ApprovalRecord).
        not (any (λ (s : ApprovalRecord). s.step_order == r.step_order) stored))
      records

unfoldable pub flush : String → List ApprovalRecord → List ApprovalRow → List ApprovalRow
flush id records [] = []
flush id records (row ∷ rows) = elim (str_eq row.item_id id) [
  | true ↦ record row { records = row.records ++ new_records row.records records } ∷ rows
  | false ↦ row ∷ flush id records rows
]

-- `findUniqueOrThrow` and `createMany`
unfoldable pub save : String → ApprovalProgress → Database → Result Database
save id p db = do
  throw_if (not (is_stored id db.approvals)) (missing_row id)
  ok (record db { approvals = flush id p.records db.approvals })
