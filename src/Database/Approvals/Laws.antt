-- ===== src/Database/Approvals/Laws.antt =====
-- A progress that is saved is the progress that is found afterwards.
use native.Mathlib.Decide.{ℕ_discrete}
use ratel_financial_platform.Prelude.{
  ℕ, suc, ◌+◌, ◌≤◌, ◌<◌, String, Bool, true, false, some, List, [], ◌∷◌, ◌++◌, ◌==◌, ◌≡◌, refl, sym,
  ap, ◌∙◌, arith, any, length,
}
use ratel_financial_platform.Errors.{ok}
use ratel_financial_platform.Workflow.Chain
use ratel_financial_platform.Workflow.Chain.{ApprovalChain, ApprovalStep, insert_step}
use ratel_financial_platform.Workflow.Chain.Laws.{IsContiguous}
use ratel_financial_platform.Workflow.Progress.{ApprovalRecord, ApprovalProgress}
use ratel_financial_platform.Workflow.Reach.{IsNumbered, IsNumbered-concat}
use ratel_financial_platform.Database.{Database, ApprovalRow}
use ratel_financial_platform.Database.Approvals.{
  find_row, is_stored, by_step_order, find_by_item_id, new_records, flush, save,
}

of_contiguous : (k : ℕ) (c : ApprovalChain) → IsContiguous k c → Chain.of c ≡ c
unfolding Chain.of
of_contiguous k [] h = refl
of_contiguous k (s ∷ []) h = refl
of_contiguous k (s ∷ t ∷ ts) h = rw (of_contiguous (suc k) (t ∷ ts) h.1) (ground arith)

by_step_order_numbered :
    (k : ℕ) (rs : List ApprovalRecord) → IsNumbered k rs → by_step_order rs ≡ rs
unfolding by_step_order
by_step_order_numbered k [] h = refl
by_step_order_numbered k (r ∷ []) h = refl
by_step_order_numbered k (r ∷ s ∷ ss) h =
    rw (by_step_order_numbered (suc k) (s ∷ ss) h.1) (ground arith)

-- A record of this step is stored.
abbrev has_step : List ApprovalRecord → ℕ → Bool
has_step stored n = any (λ (s : ApprovalRecord). s.step_order == n) stored

has_step_below :
    (k : ℕ) (rs : List ApprovalRecord) (n : ℕ)
    → IsNumbered k rs
    → k + length rs ≤ n
    → has_step rs n ≡ false
has_step_below k [] n h le = refl
has_step_below k (r ∷ rs) n h le =
    let rest = has_step_below (suc k) rs n h.1 (omega arith) in ground arith

has_step_within :
    (k : ℕ) (rs : List ApprovalRecord) (n : ℕ)
    → IsNumbered k rs
    → k ≤ n
    → n < k + length rs
    → has_step rs n ≡ true
has_step_within k [] n h a b = absurd (omega arith)
has_step_within k (r ∷ rs) n h a b =
    let here = h.0 in
    elim (ℕ_discrete n k) [
      | yes same ↦ ground arith
      | no other ↦
          let rest = has_step_within (suc k) rs n h.1 (omega arith) (omega arith) in ground arith
    ]

-- Of records that are all stored but the last, the last is new.
new_records_last :
    (stored : List ApprovalRecord) (k : ℕ) (rs : List ApprovalRecord) (r : ApprovalRecord)
    → IsNumbered k rs
    → ((n : ℕ) → k ≤ n → n < k + length rs → has_step stored n ≡ true)
    → has_step stored r.step_order ≡ false
    → new_records stored (rs ++ r ∷ []) ≡ r ∷ []
unfolding new_records
new_records_last stored k [] r h all fresh = ground arith
new_records_last stored k (x ∷ xs) r h all fresh =
    let here : has_step stored x.step_order ≡ true = rw (h.0) (all k (omega arith) (omega arith)) in
    let rest =
      new_records_last stored (suc k) xs r h.1 (λ n a b. all n (omega arith) (omega arith)) fresh in
    ground arith

flush_found :
    (id : String) (rs : List ApprovalRecord) (rows : List ApprovalRow) (row : ApprovalRow)
    → find_row id rows ≡ some row
    → find_row id (flush id rs rows)
      ≡ some (record row { records = row.records ++ new_records row.records rs })
unfolding find_row flush
flush_found id rs [] row h = ground arith
flush_found id rs (first ∷ rows) row h = let rest = flush_found id rs rows row in ground arith

pub found_stored :
    (id : String) (rows : List ApprovalRow) (row : ApprovalRow)
    → find_row id rows ≡ some row
    → is_stored id rows ≡ true
unfolding find_row
found_stored id [] row h = ground arith
found_stored id (first ∷ rows) row h = let rest = found_stored id rows row in ground arith

-- The records of a row are those of its progress when they are numbered, and so is its chain.
pub found_progress :
    (id : String) (db : Database) (row : ApprovalRow)
    → find_row id db.approvals ≡ some row
    → IsContiguous 1 row.chain
    → IsNumbered 1 row.records
    → find_by_item_id id db
      ≡ some (record { item_id = id; chain = row.chain; records = row.records })
unfolding find_by_item_id
found_progress id db row h c n =
    let e1 = of_contiguous 1 row.chain c in
    let e2 = by_step_order_numbered 1 row.records n in ground arith

-- A progress with one more record than its stored row, saved: it is accepted, and looking it up gives
-- back that progress, with its chain and all its records in their order. The chain's steps and the
-- records must be numbered from 1 on without a gap.
pub save_found_again :
    (id : String) (db : Database) (row : ApprovalRow) (r : ApprovalRecord) (p : ApprovalProgress)
    → find_row id db.approvals ≡ some row
    → IsContiguous 1 row.chain
    → IsNumbered 1 row.records
    → r.step_order ≡ 1 + length row.records
    → p ≡ record { item_id = id; chain = row.chain; records = row.records ++ r ∷ [] }
    → (db' : Database) × (save id p db ≡ ok db') × (find_by_item_id id db' ≡ some p)
unfolding save
save_found_again id db row r p found c n next same =
    let grown : new_records row.records (row.records ++ r ∷ []) ≡ r ∷ [] =
      new_records_last row.records 1 row.records r n
        (λ m a b. has_step_within 1 row.records m n a b)
        (has_step_below 1 row.records r.step_order n (omega arith)) in
    let stored = found_stored id db.approvals row found in
    let row' = record row { records = row.records ++ r ∷ [] } in
    let after : find_row id (flush id p.records db.approvals) ≡ some row' =
      rw (same, flush_found id (row.records ++ r ∷ []) db.approvals row found, grown) refl in
    let db' : Database = record db { approvals = flush id p.records db.approvals } in
    (
      db',
      rw stored refl,
      found_progress id db' row' after c (IsNumbered-concat 1 row.records r n next)
          ∙ ap some (sym same),
    )
