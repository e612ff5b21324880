-- ===== src/Audit/Growth.antt =====
-- `record` and the validity of the organizations' chains.
use ratel_financial_platform.Prelude.{
  ℕ, ◌+◌, ◌<◌, ◌≤◌, String, true, some, List, [], ◌∷◌, ◌++◌, ◌≡◌, ◌≢◌, refl, ap, sym, ◌∙◌, arith,
  inl, inr, eq_iff, All, length, length-append,
}
use ratel_financial_platform.Prelude.Texts.{same_text}
use mathlib.Core.List.{append-nil}
use mathlib.Core.Path.{subst}
use ratel_financial_platform.Serialization.Json.{JsonValue}
use ratel_financial_platform.Audit.HashChain.{genesis_hash, compute_entry_hash_v2}
use ratel_financial_platform.Audit.Log.{
  AuditLogEntry, RecordAuditEntryInput, of_organization, latest, hash_or_genesis, hash_input,
  new_entry, record_entry,
}
use ratel_financial_platform.Audit.Verifier.{
  ChainVerificationResult, by_time, recomputed, result_of, first_mismatch, verify,
}
use ratel_financial_platform.Audit.Order.{by_time-append_last, latest-last}
use ratel_financial_platform.Audit.Stored.{
  KeepsJson, entry_text_v2-same, same_stored, same_optional,
}
use ratel_financial_platform.Audit.Chain.{
  last_hash, hash_of_last, of_organization-append, Fits, IsChain, recomputed_iff, verify-valid_iff,
  result_count,
}

module _ (sha256 : String → String) where
  IsChain-append :
      (expected : String) (rows : List AuditLogEntry) (new : AuditLogEntry)
      → IsChain sha256 expected rows
      → Fits sha256 (last_hash expected rows) new
      → IsChain sha256 expected (rows ++ new ∷ [])
  IsChain-append expected [] new _ f = (f, tt)
  IsChain-append expected (row ∷ rows) new (g, c) f =
      (g, IsChain-append row.entry_hash rows new c f)

  recomputed-new_entry :
      (jsonb : JsonValue → JsonValue)
      → KeepsJson jsonb
      → (input : RecordAuditEntryInput) (id prev_hash : String) (now : ℕ)
      → recomputed sha256 (new_entry sha256 jsonb input id prev_hash now)
        ≡ some (hash_input sha256 input prev_hash now)
  unfolding recomputed new_entry hash_input compute_entry_hash_v2
  recomputed-new_entry jsonb keeps input id prev_hash now =
      ap (λ t. some (sha256 t))
        (sym (
          entry_text_v2-same prev_hash _ _ _ (
            same_optional jsonb keeps input.old_value,
            same_stored jsonb keeps input.new_value,
            refl,
          )))

pub count_checked :
    (sha256 : String → String) (org : String) (table : List AuditLogEntry)
    → (verify sha256 org table).entries_checked ≡ length (by_time (of_organization org table))
unfolding verify
count_checked sha256 org table = result_count org _ (first_mismatch sha256 genesis_hash _)

below_now :
    (now : ℕ) (rows : List AuditLogEntry)
    → All (λ r. r.created_at < now) rows
    → All (λ r. r.created_at ≤ now) rows
below_now now [] h = tt
below_now now (r ∷ rows) (p, h) = (omega arith, below_now now rows h)

of_organization-own :
    (new : AuditLogEntry) (org : String)
    → new.organization_id ≡ org
    → of_organization org (new ∷ []) ≡ new ∷ []
unfolding of_organization
of_organization-own new org e = let t = (eq_iff new.organization_id org).1 e in ground arith

of_organization-other :
    (new : AuditLogEntry) (org : String)
    → new.organization_id ≢ org
    → of_organization org (new ∷ []) ≡ []
unfolding of_organization
of_organization-other new org ne = let t = eq_iff new.organization_id org in ground arith

module _ (sha256 : String → String) (jsonb : JsonValue → JsonValue) where
  -- The row that `record` appends.
  abbrev appended : RecordAuditEntryInput → String → ℕ → List AuditLogEntry → AuditLogEntry
  appended input id now table =
      new_entry sha256 jsonb input id
        (hash_or_genesis (latest (of_organization input.organization_id table))) now

  own_rows :
      (input : RecordAuditEntryInput) (id : String) (now : ℕ) (table : List AuditLogEntry)
      → All (λ r. r.created_at < now) (of_organization input.organization_id table)
      → by_time
          (of_organization input.organization_id (record_entry sha256 jsonb input id now table))
        ≡ by_time (of_organization input.organization_id table) ++ appended input id now table ∷ []
  unfolding record_entry new_entry
  own_rows input id now table later =
      let new = appended input id now table in
      let rows = of_organization input.organization_id table in
      ap by_time (
        of_organization-append input.organization_id table new
        ∙ ap (λ own. rows ++ own) (of_organization-own new input.organization_id refl))
      ∙ by_time-append_last rows new (below_now now rows later)

  other_rows :
      (input : RecordAuditEntryInput) (id : String) (now : ℕ) (table : List AuditLogEntry)
      (org : String)
      → input.organization_id ≢ org
      → of_organization org (record_entry sha256 jsonb input id now table)
        ≡ of_organization org table
  unfolding record_entry new_entry
  other_rows input id now table org ne =
      let new = appended input id now table in
      of_organization-append org table new
      ∙ ap (λ own. of_organization org table ++ own) (of_organization-other new org ne)
      ∙ append-nil (of_organization org table)

  appended-Fits :
      (input : RecordAuditEntryInput) (id : String) (now : ℕ) (table : List AuditLogEntry)
      → KeepsJson jsonb
      → Fits sha256
          (last_hash genesis_hash (by_time (of_organization input.organization_id table)))
          (appended input id now table)
  unfolding new_entry
  appended-Fits input id now table keeps =
      let rows = of_organization input.organization_id table in
      (
        ap hash_or_genesis (latest-last rows) ∙ hash_of_last (by_time rows),
        (recomputed_iff sha256 (appended input id now table)).0
            (recomputed-new_entry sha256 jsonb keeps input id _ now),
      )

  own_valid :
      (input : RecordAuditEntryInput) (id : String) (now : ℕ) (table : List AuditLogEntry)
      → KeepsJson jsonb
      → All (λ r. r.created_at < now) (of_organization input.organization_id table)
      → (verify sha256 input.organization_id table).valid ≡ true
      → (verify sha256 input.organization_id (record_entry sha256 jsonb input id now table)).valid
        ≡ true
  own_valid input id now table keeps later valid =
      let org = input.organization_id in
      let chain = (verify-valid_iff sha256 org table).2.0 valid in
      let new = appended input id now table in
      (verify-valid_iff sha256 org (record_entry sha256 jsonb input id now table)).2.1 (
        subst (IsChain sha256 genesis_hash) (sym (own_rows input id now table later)) (
          IsChain-append sha256 genesis_hash (by_time (of_organization org table)) new chain
            (appended-Fits input id now table keeps)))

  own_count :
      (input : RecordAuditEntryInput) (id : String) (now : ℕ) (table : List AuditLogEntry)
      → All (λ r. r.created_at < now) (of_organization input.organization_id table)
      → (verify sha256 input.organization_id
          (record_entry sha256 jsonb input id now table)).entries_checked
        ≡ (verify sha256 input.organization_id table).entries_checked + 1
  own_count input id now table later =
      let org = input.organization_id in
      let rows = by_time (of_organization org table) in
      let new = appended input id now table in
      let grown =
        count_checked sha256 org (record_entry sha256 jsonb input id now table)
        ∙ ap length (own_rows input id now table later) in
      omega (arith, grown, length-append rows (new ∷ []), count_checked sha256 org table)

  other_same :
      (input : RecordAuditEntryInput) (id : String) (now : ℕ) (table : List AuditLogEntry)
      (org : String)
      → input.organization_id ≢ org
      → verify sha256 org (record_entry sha256 jsonb input id now table) ≡ verify sha256 org table
  unfolding verify
  other_same input id now table org ne =
      ap
        (λ rows.
          result_of org (length (by_time rows)) (first_mismatch sha256 genesis_hash (by_time rows)))
        (other_rows input id now table org ne)

  -- Recording an entry keeps every chain valid: when Postgres gives back JSON values that differ in
  -- key order at most, and the clock shows a later time than any entry of the organization, each
  -- organization whose chain the verifier accepts before is accepted after, with one more entry
  -- checked for the entry's organization, and as many as before for the others.
  pub record_entry_keeps_valid :
      (input : RecordAuditEntryInput) (id : String) (now : ℕ) (table : List AuditLogEntry)
      → KeepsJson jsonb
      → All (λ r. r.created_at < now) (of_organization input.organization_id table)
      → (org : String) → (verify sha256 org table).valid ≡ true
      → ((verify sha256 org (record_entry sha256 jsonb input id now table)).valid ≡ true)
        × ((input.organization_id ≡ org)
            → (verify sha256 org (record_entry sha256 jsonb input id now table)).entries_checked
              ≡ (verify sha256 org table).entries_checked + 1)
        × ((input.organization_id ≢ org)
            → (verify sha256 org (record_entry sha256 jsonb input id now table)).entries_checked
              ≡ (verify sha256 org table).entries_checked)
  record_entry_keeps_valid input id now table keeps later org valid =
      elim (same_text input.organization_id org) [
        | inl e ↦
            let own = own_valid input id now table keeps later in
            let count = own_count input id now table later in
            (
              subst
                  (λ o.
                    (verify sha256 o table).valid ≡ true
                    → (verify sha256 o (record_entry sha256 jsonb input id now table)).valid ≡ true)
                  e own valid,
              λ _.
                  subst
                    (λ o.
                      (verify sha256 o
                        (record_entry sha256 jsonb input id now table)).entries_checked
                      ≡ (verify sha256 o table).entries_checked + 1)
                    e count,
              λ ne. absurd (ne e),
            )
        | inr ne ↦
            let unchanged = other_same input id now table org ne in
            (
              ap (λ (r : ChainVerificationResult). r.valid) unchanged ∙ valid,
              λ e. absurd (ne e),
              λ _. ap (λ (r : ChainVerificationResult). r.entries_checked) unchanged,
            )
      ]
