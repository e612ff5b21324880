-- ===== src/Audit/Stored.antt =====
-- The hash of an entry from the values that were given, and from the row read back.
use mathlib.Core.Path.{ap₂, subst}
use ratel_financial_platform.Prelude.{String, Option, none, some, ◌≡◌, refl, ap, sym}
use ratel_financial_platform.Serialization.Json.{
  JsonValue, JsonItems, JsonFields, Unknown, to_json_safe, safe_items, safe_fields,
}
use ratel_financial_platform.Serialization.KeyFree.{
  SameValue, same, in_object, fields_end, fields_step,
}
use ratel_financial_platform.Serialization.Faithful.{canonical_stringify_iff}
use ratel_financial_platform.Audit.HashChain.{
  HashableEntry, HashablePayload, unknown_or_null, nullish, payload_v2, entry_text_v2,
}
use ratel_financial_platform.Audit.Log.{of_json, of_items, of_fields, of_optional, stored}

mutual
  unfolding of_json to_json_safe

  pub safe-of_json : (v : JsonValue) → to_json_safe (of_json v) ≡ v
  safe-of_json JsonValue.null = refl
  safe-of_json (JsonValue.text s) = refl
  safe-of_json (JsonValue.number n) = refl
  safe-of_json (JsonValue.boolean b) = refl
  safe-of_json (JsonValue.array xs) = ap JsonValue.array (safe-of_items xs)
  safe-of_json (JsonValue.object fs) = ap JsonValue.object (safe-of_fields fs)

  safe-of_items : (xs : JsonItems) → safe_items (of_items xs) ≡ xs
  safe-of_items JsonItems.no_items = refl
  safe-of_items (JsonItems.item x xs) = ap₂ JsonItems.item (safe-of_json x) (safe-of_items xs)

  safe-of_fields : (fs : JsonFields) → safe_fields (of_fields fs) ≡ fs
  safe-of_fields JsonFields.no_fields = refl
  safe-of_fields (JsonFields.field key x fs) =
      ap₂ (JsonFields.field key) (safe-of_json x) (safe-of_fields fs)

pub safe-nullish : (x : Unknown) → to_json_safe (nullish x) ≡ to_json_safe x
unfolding to_json_safe
safe-nullish Unknown.undefined = refl
safe-nullish Unknown.null = refl
safe-nullish (Unknown.text s) = refl
safe-nullish (Unknown.number n) = refl
safe-nullish Unknown.not_finite = refl
safe-nullish (Unknown.boolean b) = refl
safe-nullish (Unknown.bigint n) = refl
safe-nullish (Unknown.date ms) = refl
safe-nullish (Unknown.array xs) = refl
safe-nullish (Unknown.value_object x) = refl
safe-nullish (Unknown.object fs) = refl
safe-nullish Unknown.function = refl
safe-nullish Unknown.symbol = refl

-- The payloads have the same JSON form but for key order.
abbrev pub SamePayload : HashablePayload → HashablePayload → Type 0
SamePayload p q =
    SameValue (to_json_safe p.old_value) (to_json_safe q.old_value)
    × SameValue (to_json_safe p.new_value) (to_json_safe q.new_value)
    × (p.reason ≡ q.reason)

same_nullish :
    (x y : Unknown)
    → SameValue (to_json_safe x) (to_json_safe y)
    → SameValue (to_json_safe (nullish x)) (to_json_safe (nullish y))
same_nullish x y h =
    subst (λ v. SameValue v (to_json_safe (nullish y))) (sym (safe-nullish x))
      (subst (SameValue (to_json_safe x)) (sym (safe-nullish y)) h)

same_fields :
    (prev : String) (entry : HashableEntry) (p q : HashablePayload)
    → SamePayload p q
    → SameValue (to_json_safe (payload_v2 prev entry p)) (to_json_safe (payload_v2 prev entry q))
unfolding payload_v2 to_json_safe
same_fields prev entry p q (old, new, reason) = in_object (
    fields_step "prevHash" same (
      fields_step "organizationId" same (
        fields_step "entityType" same (
          fields_step "entityId" same (
            fields_step "action" same (
              fields_step "actorUserId" same (
                fields_step "correlationId" same (
                  fields_step "createdAt" same (
                    fields_step "oldValue" (same_nullish p.old_value q.old_value old) (
                      fields_step "newValue" (same_nullish p.new_value q.new_value new) (
                        fields_step "reason"
                          (subst
                            (λ r.
                              SameValue (to_json_safe (unknown_or_null p.reason))
                                (to_json_safe (unknown_or_null r)))
                            reason same)
                          fields_end)))))))))))

-- Payloads that differ in key order only have one text.
pub entry_text_v2-same :
    (prev : String) (entry : HashableEntry) (p q : HashablePayload)
    → SamePayload p q
    → entry_text_v2 prev entry p ≡ entry_text_v2 prev entry q
unfolding entry_text_v2
entry_text_v2-same prev entry p q h =
    (canonical_stringify_iff (payload_v2 prev entry p) (payload_v2 prev entry q)).0
      (same_fields prev entry p q h)

-- What Postgres gives back for a stored `jsonb` value differs from it in key order at most.
abbrev pub KeepsJson : (JsonValue → JsonValue) → Type 0
KeepsJson jsonb = (v : JsonValue) → SameValue v (jsonb v)

pub same_stored :
    (jsonb : JsonValue → JsonValue)
    → KeepsJson jsonb
    → (v : JsonValue) → SameValue (to_json_safe (of_json v)) (to_json_safe (of_json (jsonb v)))
same_stored jsonb keeps v =
    subst (λ w. SameValue w (to_json_safe (of_json (jsonb v)))) (sym (safe-of_json v))
      (subst (SameValue v) (sym (safe-of_json (jsonb v))) (keeps v))

pub same_optional :
    (jsonb : JsonValue → JsonValue)
    → KeepsJson jsonb
    → (o : Option JsonValue)
    → SameValue
        (to_json_safe (of_optional Unknown.undefined o))
        (to_json_safe (of_optional Unknown.null (stored jsonb o)))
unfolding to_json_safe
same_optional jsonb keeps none = same
same_optional jsonb keeps (some v) = same_stored jsonb keeps v
