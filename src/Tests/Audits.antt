-- ===== src/Tests/Audits.antt =====
-- The audit trail on concrete entries, with the identity in place of the digest and sorted keys in place
-- of what Postgres gives back.
use ratel_financial_platform.Prelude.{
  String, true, none, some, List, [], ◌≡◌, ◌↔◌, ◌⊎◌, ◌<◌, ◌+◌, ◌≢◌, refl, arith, All, eq_iff,
}
use ratel_financial_platform.Prelude.Int.{pos}
use ratel_financial_platform.Serialization.Json.{
  JsonValue, JsonFields, Unknown, UnknownFields, sort_keys_deep, to_json_safe,
}
use ratel_financial_platform.Serialization.Canonical.{canonical_stringify}
use ratel_financial_platform.Serialization.KeyFree.{SameValue, same_sorted}
use ratel_financial_platform.Serialization.Faithful.{canonical_stringify_iff}
use ratel_financial_platform.Audit.HashChain.{genesis_hash}
use ratel_financial_platform.Audit.Log.{
  AuditLogEntry, RecordAuditEntryInput, of_organization, latest, hash_or_genesis, record_entry,
  new_entry,
}
use ratel_financial_platform.Audit.Verifier.{verify, by_time, first_mismatch}
use mathlib.Core.List.{Memᴰ}
use ratel_financial_platform.Audit.Order.{Ascending}
use ratel_financial_platform.Audit.Chain.{IsChain, verify-valid_iff}
use ratel_financial_platform.Audit.Growth.{record_entry_keeps_valid}
use ratel_financial_platform.Audit.Tampering.{SameRows, Collision, same_history}

abbrev one_order : Unknown
one_order = Unknown.object (
    UnknownFields.field "b" (Unknown.bigint (pos 12))
      (UnknownFields.field "a" Unknown.undefined UnknownFields.no_fields))

abbrev other_order : Unknown
other_order = Unknown.object (
    UnknownFields.field "a" Unknown.null
      (UnknownFields.field "b" (Unknown.text "12") UnknownFields.no_fields))

canonical_stringify_iff_example :
    SameValue (to_json_safe one_order) (to_json_safe other_order)
    ↔ (canonical_stringify one_order ≡ canonical_stringify other_order)
canonical_stringify_iff_example = canonical_stringify_iff one_order other_order

abbrev org : String
org = "org"

abbrev other : String
other = "other"

abbrev digest : String → String
digest s = s

abbrev approval : RecordAuditEntryInput
approval = record {
  organization_id = "org";
  entity_type = "Expense";
  entity_id = "e1";
  action = "ExpenseApproved";
  actor_user_id = some "bob";
  old_value = some (
      JsonValue.object
        (JsonFields.field "status" (JsonValue.text "pending_approval") JsonFields.no_fields));
  new_value = JsonValue.object (
      JsonFields.field "organizationId" (JsonValue.text "org")
        (JsonFields.field "approverId" (JsonValue.text "bob") JsonFields.no_fields));
  reason = none;
  correlation_id = "c1";
  request_id = none;
  ip_address = none;
  user_agent = none;
  source = "http";
}

abbrev cancellation : RecordAuditEntryInput
cancellation = record approval { action = "ExpenseCancelled"; reason = some "twice" }

abbrev table_0 : List AuditLogEntry
table_0 = []

abbrev table_1 : List AuditLogEntry
table_1 = record_entry digest sort_keys_deep approval "a1" 1000 table_0

abbrev table_2 : List AuditLogEntry
table_2 = record_entry digest sort_keys_deep cancellation "a2" 2000 table_1

abbrev foreign : RecordAuditEntryInput
foreign = record approval { organization_id = "other" }

abbrev table_3 : List AuditLogEntry
table_3 = record_entry digest sort_keys_deep foreign "a3" 3000 table_2

nothing_valid : (verify digest "org" table_0).valid ≡ true
unfolding verify of_organization by_time first_mismatch
nothing_valid = refl

later_1 : All (λ r. r.created_at < 1000) (of_organization "org" table_0)
unfolding of_organization
later_1 = tt

table_1_valid : (verify digest "org" table_1).valid ≡ true
table_1_valid =
    (record_entry_keeps_valid digest sort_keys_deep approval "a1" 1000 table_0 same_sorted later_1
      "org" nothing_valid).0

later_2 : All (λ r. r.created_at < 2000) (of_organization "org" table_1)
unfolding of_organization record_entry new_entry
later_2 = (omega arith, tt)

table_2_valid : (verify digest "org" table_2).valid ≡ true
table_2_valid =
    (record_entry_keeps_valid digest sort_keys_deep cancellation "a2" 2000 table_1 same_sorted
      later_2 "org" table_1_valid).0

record_entry_keeps_valid_example :
    ((verify digest "org" table_2).valid ≡ true)
    × ((org ≡ org)
        → (verify digest "org" table_2).entries_checked
          ≡ (verify digest "org" table_1).entries_checked + 1)
    × ((org ≢ org)
        → (verify digest "org" table_2).entries_checked
          ≡ (verify digest "org" table_1).entries_checked)
record_entry_keeps_valid_example =
    record_entry_keeps_valid digest sort_keys_deep cancellation "a2" 2000 table_1 same_sorted
      later_2 "org" table_1_valid

verify-valid_iff_example :
    Ascending (by_time (of_organization "org" table_2))
    × ((r : AuditLogEntry)
        → Memᴰ r (by_time (of_organization "org" table_2))
          ↔ (Memᴰ r table_2 × (r.organization_id ≡ "org")))
    × (((verify digest "org" table_2).valid ≡ true)
        ↔ IsChain digest genesis_hash (by_time (of_organization "org" table_2)))
verify-valid_iff_example = verify-valid_iff digest "org" table_2

foreign_rows : of_organization "other" table_2 ≡ []
unfolding of_organization record_entry new_entry
foreign_rows = refl

later_3 : All (λ r. r.created_at < 3000) (of_organization "other" table_2)
unfolding of_organization record_entry new_entry
later_3 = tt

table_3_kept :
    ((verify digest "org" table_3).valid ≡ true)
    × ((other ≡ org)
        → (verify digest "org" table_3).entries_checked
          ≡ (verify digest "org" table_2).entries_checked + 1)
    × ((other ≢ org)
        → (verify digest "org" table_3).entries_checked
          ≡ (verify digest "org" table_2).entries_checked)
table_3_kept =
    record_entry_keeps_valid digest sort_keys_deep foreign "a3" 3000 table_2 same_sorted later_3
      "org" table_2_valid

same_tip :
    hash_or_genesis (latest (of_organization "org" table_3))
    ≡ hash_or_genesis (latest (of_organization "org" table_2))
unfolding of_organization record_entry new_entry
same_tip = refl

other_text : other ≢ org
other_text e = let t = (eq_iff "other" "org").1 e in cc

same_history_example :
    SameRows (by_time (of_organization "org" table_3)) (by_time (of_organization "org" table_2))
    ⊎ Collision digest
same_history_example =
    same_history digest "org" table_3 table_2 table_3_kept.0 table_2_valid
      (table_3_kept.2 other_text) same_tip
