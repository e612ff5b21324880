-- ===== src/Audit/Verifier.antt =====
-- audit-log/application/chain-verifier.service.ts: recomputing an organization's chain.
use ratel_financial_platform.Prelude.{
  ℕ, String, Bool, true, false, not, Option, none, some, List, [], ◌∷◌, str_eq, leb, ◌==◌, length,
  if◌then◌else◌,
}
use ratel_financial_platform.Serialization.Json.{Unknown}
use ratel_financial_platform.Audit.HashChain.{
  HashableEntry, HashablePayload, genesis_hash, compute_entry_hash, compute_entry_hash_v2,
}
use ratel_financial_platform.Audit.Log.{AuditLogEntry, of_optional, of_organization}

pub data ChainMismatchReason : Type 0 where
  linkage content unrecognized_version : ChainMismatchReason

-- The caveat, a constant text, is left out.
pub record ChainVerificationResult : Type 0 where
  pub organization_id : String
  pub entries_checked : ℕ
  pub valid : Bool
  pub first_mismatch_id : Option String
  pub first_mismatch_reason : Option ChainMismatchReason

-- `orderBy: { createdAt: 'asc' }`; rows of one time stay as they are stored.
unfoldable pub insert_by_time : AuditLogEntry → List AuditLogEntry → List AuditLogEntry
insert_by_time r [] = r ∷ []
insert_by_time r (s ∷ ss) =
    let rest = insert_by_time r ss in if leb r.created_at s.created_at then r ∷ s ∷ ss else s ∷ rest

unfoldable pub by_time : List AuditLogEntry → List AuditLogEntry
by_time [] = []
by_time (r ∷ rs) = insert_by_time r (by_time rs)

abbrev pub entry_of : AuditLogEntry → HashableEntry
entry_of row = record {
  organization_id = row.organization_id;
  entity_type = row.entity_type;
  entity_id = row.entity_id;
  action = row.action;
  actor_user_id = row.actor_user_id;
  correlation_id = row.correlation_id;
  created_at = row.created_at;
}

-- A column that is NULL is read as `null`.
abbrev pub payload_of : AuditLogEntry → HashablePayload
payload_of row = record {
  old_value = of_optional Unknown.null row.old_value;
  new_value = of_optional Unknown.null row.new_value;
  reason = row.reason;
}

pub data Mismatch : Type 0 where
  mismatch : String → ChainMismatchReason → Mismatch

unfoldable pub reason_of : String → String → Option String → String → Option ChainMismatchReason
reason_of prev_hash expected recomputed entry_hash =
    if not (str_eq prev_hash expected) then some linkage else elim recomputed [
      | none ↦ some unrecognized_version
      | some hash ↦ if str_eq hash entry_hash then none else some content
    ]

abbrev pub stop_at : String → Option ChainMismatchReason → Option Mismatch → Option Mismatch
stop_at id none rest = rest
stop_at id (some reason) rest = some (mismatch id reason)

abbrev pub result_of : String → ℕ → Option Mismatch → ChainVerificationResult
result_of org count none = record {
  organization_id = org;
  entries_checked = count;
  valid = true;
  first_mismatch_id = none;
  first_mismatch_reason = none;
}
result_of org count (some (mismatch id reason)) = record {
  organization_id = org;
  entries_checked = count;
  valid = false;
  first_mismatch_id = some id;
  first_mismatch_reason = some reason;
}

module _ (sha256 : String → String) where
  -- The hash that a row should have, by its version, if the version is one that was ever written.
  unfoldable pub recomputed : AuditLogEntry → Option String
  recomputed row =
      if row.hash_version == 1
      then some (compute_entry_hash sha256 row.prev_hash (entry_of row))
      else if row.hash_version == 2
      then some (compute_entry_hash_v2 sha256 row.prev_hash (entry_of row) (payload_of row))
      else none

  -- The checks of a row: its link first, then its version, then its content.
  unfoldable pub checked : String → AuditLogEntry → Option ChainMismatchReason
  checked expected row = reason_of row.prev_hash expected (recomputed row) row.entry_hash

  -- The loop of `verify`: the first row that does not fit, if there is one.
  unfoldable pub first_mismatch : String → List AuditLogEntry → Option Mismatch
  first_mismatch expected [] = none
  first_mismatch expected (row ∷ rows) =
      stop_at row.id (checked expected row) (first_mismatch row.entry_hash rows)

  unfoldable pub verify : String → List AuditLogEntry → ChainVerificationResult
  verify organization_id table =
      let rows = by_time (of_organization organization_id table) in
      result_of organization_id (length rows) (first_mismatch genesis_hash rows)
