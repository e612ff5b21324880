-- ===== src/Audit/Chain.antt =====
-- A valid chain, said without the loop that checks it.
use mathlib.Core.List.{Memᴰ}
use ratel_financial_platform.Prelude.{
  ◌⊎◌, ◌==◌, str_eq, if◌then◌else◌, keep-mem, mem-keep, ℕ, String, true, Option, none, some, List,
  [], ◌∷◌, ◌++◌, ◌≡◌, ◌↔◌, refl, arith, eq_iff, length,
}
use ratel_financial_platform.Audit.HashChain.{
  genesis_hash, entry_text, entry_text_v2, compute_entry_hash, compute_entry_hash_v2,
}
use ratel_financial_platform.Audit.Log.{AuditLogEntry, of_organization, hash_or_genesis}
use ratel_financial_platform.Audit.Verifier.{
  ChainMismatchReason, Mismatch, mismatch, by_time, entry_of, payload_of, recomputed, reason_of,
  stop_at, result_of, checked, first_mismatch, verify,
}
use ratel_financial_platform.Audit.Order.{last, Ascending, by_time-Ascending, by_time-mem}

-- The hash that the next row must point at.
abbrev pub last_hash : String → List AuditLogEntry → String
last_hash expected [] = expected
last_hash expected (row ∷ rows) = last_hash row.entry_hash rows

pub hash_of_last :
    (rows : List AuditLogEntry) → hash_or_genesis (last rows) ≡ last_hash genesis_hash rows
hash_of_last [] = refl
hash_of_last (x ∷ []) = refl
hash_of_last (x ∷ y ∷ ys) = hash_of_last_cons y ys
  where
    hash_of_last_cons :
        (x : AuditLogEntry) (xs : List AuditLogEntry)
        → hash_or_genesis (last (x ∷ xs)) ≡ last_hash x.entry_hash xs
    hash_of_last_cons x [] = refl
    hash_of_last_cons x (y ∷ ys) = hash_of_last_cons y ys

pub of_organization-append :
    (org : String) (rows : List AuditLogEntry) (new : AuditLogEntry)
    → of_organization org (rows ++ new ∷ [])
      ≡ of_organization org rows ++ of_organization org (new ∷ [])
unfolding of_organization
of_organization-append org [] new = refl
of_organization-append org (r ∷ rows) new = ground (arith, of_organization-append org rows new)

reason_of_iff :
    (prev expected : String) (hash : Option String) (stored : String)
    → (reason_of prev expected hash stored ≡ none) ↔ ((prev ≡ expected) × (hash ≡ some stored))
unfolding reason_of
reason_of_iff prev expected none stored = ground (arith, eq_iff prev expected)
reason_of_iff prev expected (some hash) stored =
    let e = eq_iff prev expected in let f = eq_iff hash stored in ground arith

stop_at-none :
    (id : String) (o : Option ChainMismatchReason) (rest : Option Mismatch)
    → stop_at id o rest ≡ none
    → (o ≡ none) × (rest ≡ none)
stop_at-none id none rest h = (refl, h)
stop_at-none id (some reason) rest h = cc

result-valid_iff :
    (org : String) (count : ℕ) (o : Option Mismatch)
    → ((result_of org count o).valid ≡ true) ↔ (o ≡ none)
result-valid_iff org count none = (λ _. refl, λ _. refl)
result-valid_iff org count (some (mismatch id reason)) = (λ h. cc, λ h. cc)

pub result_count :
    (org : String) (count : ℕ) (o : Option Mismatch)
    → (result_of org count o).entries_checked ≡ count
result_count org count none = refl
result_count org count (some (mismatch id reason)) = refl

by_version_iff :
    (version : ℕ) (a b h : String)
    → ((if version == 1 then some a else if version == 2 then some b else none) ≡ some h)
      ↔ (((version ≡ 1) × (a ≡ h)) ⊎ ((version ≡ 2) × (b ≡ h)))
by_version_iff version a b h = ground arith

of_organization-mem :
    (org : String) (r : AuditLogEntry) (rows : List AuditLogEntry)
    → Memᴰ r (of_organization org rows) ↔ (Memᴰ r rows × (r.organization_id ≡ org))
unfolding of_organization
of_organization-mem org r rows = (
  λ m.
      let (n, e) = keep-mem (λ (r : AuditLogEntry). str_eq r.organization_id org) rows m in
      (n, (eq_iff r.organization_id org).0 e),
  λ (m, e).
      mem-keep (λ (r : AuditLogEntry). str_eq r.organization_id org) rows m
        ((eq_iff r.organization_id org).1 e),
)

module _ (sha256 : String → String) where
  -- The row has the hash of its content, by the rule of a version that was ever written.
  abbrev pub IsHashed : AuditLogEntry → Type 0
  IsHashed row =
      ((row.hash_version ≡ 1) × (sha256 (entry_text row.prev_hash (entry_of row)) ≡ row.entry_hash))
      ⊎ ((row.hash_version ≡ 2)
          × (sha256 (entry_text_v2 row.prev_hash (entry_of row) (payload_of row)) ≡ row.entry_hash))

  pub recomputed_iff :
      (row : AuditLogEntry) → (recomputed sha256 row ≡ some row.entry_hash) ↔ IsHashed row
  unfolding recomputed compute_entry_hash compute_entry_hash_v2
  recomputed_iff row =
      by_version_iff row.hash_version (sha256 (entry_text row.prev_hash (entry_of row)))
        (sha256 (entry_text_v2 row.prev_hash (entry_of row) (payload_of row))) row.entry_hash

  -- A row that points at the hash before it and has the hash of its content.
  abbrev pub Fits : String → AuditLogEntry → Type 0
  Fits expected row = (row.prev_hash ≡ expected) × IsHashed row

  abbrev pub IsChain : String → List AuditLogEntry → Type 0
  IsChain expected [] = Unit
  IsChain expected (row ∷ rows) = Fits expected row × IsChain row.entry_hash rows

  checked_iff :
      (expected : String) (row : AuditLogEntry)
      → (checked sha256 expected row ≡ none) ↔ Fits expected row
  unfolding checked
  checked_iff expected row =
      let reason = reason_of_iff row.prev_hash expected (recomputed sha256 row) row.entry_hash in
      let hashed = recomputed_iff row in
      (λ h. let (e, k) = reason.0 h in (e, hashed.0 k), λ (e, k). reason.1 (e, hashed.1 k))

  first_mismatch_iff :
      (expected : String) (rows : List AuditLogEntry)
      → (first_mismatch sha256 expected rows ≡ none) ↔ IsChain expected rows
  unfolding first_mismatch
  first_mismatch_iff expected [] = (λ _. tt, λ _. refl)
  first_mismatch_iff expected (row ∷ rows) =
      let row_fits = checked_iff expected row in
      let rest = first_mismatch_iff row.entry_hash rows in
      (
        λ h.
            let (e, k) = stop_at-none row.id (checked sha256 expected row) _ h in
            (row_fits.0 e, rest.0 k),
        λ (f, c). rw (row_fits.1 f) (rest.1 c),
      )

  -- The verifier goes through the organization's rows, all of them and no others, from the earliest to
  -- the latest. It calls the chain valid exactly when they form a chain from the genesis hash: each row
  -- points at the hash of the one before it, is of version 1 or 2, and has as its hash the digest of the
  -- text of its content under that version.
  pub verify-valid_iff :
      (org : String) (table : List AuditLogEntry)
      → let rows = by_time (of_organization org table) in
        Ascending rows
        × ((r : AuditLogEntry) → Memᴰ r rows ↔ (Memᴰ r table × (r.organization_id ≡ org)))
        × (((verify sha256 org table).valid ≡ true) ↔ IsChain genesis_hash rows)
  unfolding verify
  verify-valid_iff org table =
      let rows = by_time (of_organization org table) in
      let walk = first_mismatch_iff genesis_hash rows in
      let valid = result-valid_iff org (length rows) (first_mismatch sha256 genesis_hash rows) in
      (
        by_time-Ascending (of_organization org table),
        λ r.
            let sorted = by_time-mem r (of_organization org table) in
            let own = of_organization-mem org r table in
            (λ m. own.0 (sorted.0 m), λ m. sorted.1 (own.1 m)),
        (λ h. walk.0 (valid.0 h), λ c. valid.1 (walk.1 c)),
      )
