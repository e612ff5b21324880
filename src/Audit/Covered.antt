-- ===== src/Audit/Covered.antt =====
-- What the text whose digest is an entry's hash says about the entry.
use mathlib.Core.Path.{subst}
use ratel_financial_platform.Prelude.{String, Option, none, some, ◌≡◌, ◌≢◌, refl, ap, sym}
use ratel_financial_platform.Serialization.Dates.{iso_text}
use ratel_financial_platform.Serialization.Json.{
  JsonValue, JsonFields, text, object, to_json_safe, sort_keys_deep,
}
use ratel_financial_platform.Serialization.Canonical.{canonical_stringify}
use ratel_financial_platform.Serialization.KeyFree.{
  SameValue, SameFields, same, same_sorted, flip_value,
}
use ratel_financial_platform.Serialization.Faithful.{stringify-injective, canonical_stringify_iff}
use ratel_financial_platform.Serialization.Lookup.{
  SameFound, lookup, lookup_same, object_same, text_same,
}
use ratel_financial_platform.Audit.HashChain.{
  HashableEntry, HashablePayload, text_or_null, unknown_or_null, nullish, entry_fields, payload_v2,
  entry_text, entry_text_v2,
}
use ratel_financial_platform.Audit.Stored.{SamePayload, safe-nullish}

abbrev pub SameEntry : HashableEntry → HashableEntry → Type 0
SameEntry e f =
    (e.organization_id ≡ f.organization_id)
    × (e.entity_type ≡ f.entity_type)
    × (e.entity_id ≡ f.entity_id)
    × (e.action ≡ f.action)
    × (e.actor_user_id ≡ f.actor_user_id)
    × (e.correlation_id ≡ f.correlation_id)
    × (iso_text e.created_at ≡ iso_text f.created_at)

optional_same : (a b : Option String) → SameValue (text_or_null a) (text_or_null b) → a ≡ b
optional_same none none h = refl
optional_same (some a) (some b) h = ap some (text_same h)
optional_same none (some b) h = elim h [ ]
optional_same (some a) none h = elim h [ ]

-- An object that starts as both versions' do, whatever comes after `createdAt`.
abbrev Starts : JsonFields → String → HashableEntry → Type 0
Starts fs prev e =
    (lookup "prevHash" fs ≡ some (text prev))
    × (lookup "organizationId" fs ≡ some (text e.organization_id))
    × (lookup "entityType" fs ≡ some (text e.entity_type))
    × (lookup "entityId" fs ≡ some (text e.entity_id))
    × (lookup "action" fs ≡ some (text e.action))
    × (lookup "actorUserId" fs ≡ some (text_or_null e.actor_user_id))
    × (lookup "correlationId" fs ≡ some (text e.correlation_id))
    × (lookup "createdAt" fs ≡ some (text (iso_text e.created_at)))

found_at :
    {fs gs : JsonFields} (key : String) {v w : JsonValue}
    → SameFields fs gs
    → lookup key fs ≡ some v
    → lookup key gs ≡ some w
    → SameValue v w
found_at {fs} {gs} key {v} {w} h a b =
    subst (λ o. SameFound (some v) o) b
      (subst (λ o. SameFound o (lookup key gs)) a (lookup_same h key))

Starts-same :
    {fs gs : JsonFields} {p q : String} (e f : HashableEntry)
    → SameFields fs gs
    → Starts fs p e
    → Starts gs q f
    → (p ≡ q) × SameEntry e f
Starts-same e f h (a0, a1, a2, a3, a4, a5, a6, a7) (b0, b1, b2, b3, b4, b5, b6, b7) = (
  text_same (found_at "prevHash" h a0 b0),
  (
    text_same (found_at "organizationId" h a1 b1),
    text_same (found_at "entityType" h a2 b2),
    text_same (found_at "entityId" h a3 b3),
    text_same (found_at "action" h a4 b4),
    optional_same _ _ (found_at "actorUserId" h a5 b5),
    text_same (found_at "correlationId" h a6 b6),
    text_same (found_at "createdAt" h a7 b7),
  ),
)

safe-unknown_or_null : (o : Option String) → to_json_safe (unknown_or_null o) ≡ text_or_null o
unfolding to_json_safe
safe-unknown_or_null none = refl
safe-unknown_or_null (some s) = refl

pub entry_text-injective :
    (p q : String) (e f : HashableEntry) → entry_text p e ≡ entry_text q f → (p ≡ q) × SameEntry e f
unfolding entry_text entry_fields
entry_text-injective p q e f h =
    let objects = stringify-injective (object (entry_fields p e)) (object (entry_fields q f)) h in
    Starts-same e f (object_same (subst (SameValue (object (entry_fields p e))) objects same))
      (refl, refl, refl, refl, refl, refl, refl, refl)
      (refl, refl, refl, refl, refl, refl, refl, refl)

pub entry_text_v2-injective :
    (p q : String) (e f : HashableEntry) (a b : HashablePayload)
    → entry_text_v2 p e a ≡ entry_text_v2 q f b
    → (p ≡ q) × SameEntry e f × SamePayload a b
unfolding entry_text_v2 payload_v2 to_json_safe
entry_text_v2-injective p q e f a b h =
    let fields =
      object_same ((canonical_stringify_iff (payload_v2 p e a) (payload_v2 q f b)).1 h) in
    let (prev, entry) =
      Starts-same e f fields
        (refl, refl, refl, refl, refl, ap some (safe-unknown_or_null e.actor_user_id), refl, refl)
        (
          refl,
          refl,
          refl,
          refl,
          refl,
          ap some (safe-unknown_or_null f.actor_user_id),
          refl,
          refl,
        ) in
    (
      prev,
      entry,
      (
        subst (λ v. SameValue v (to_json_safe b.old_value)) (safe-nullish a.old_value)
            (subst (SameValue (to_json_safe (nullish a.old_value))) (safe-nullish b.old_value)
              (found_at "oldValue" fields refl refl)),
        subst (λ v. SameValue v (to_json_safe b.new_value)) (safe-nullish a.new_value)
            (subst (SameValue (to_json_safe (nullish a.new_value))) (safe-nullish b.new_value)
              (found_at "newValue" fields refl refl)),
        optional_same a.reason b.reason (
            found_at "reason" fields (ap some (safe-unknown_or_null a.reason))
              (ap some (safe-unknown_or_null b.reason))),
      ),
    )

-- The two versions never hash one text: the second has a key `reason`.
pub versions_differ :
    (p q : String) (e f : HashableEntry) (b : HashablePayload)
    → entry_text p e ≢ entry_text_v2 q f b
unfolding entry_text entry_fields entry_text_v2 canonical_stringify payload_v2 to_json_safe
versions_differ p q e f b h =
    let v2 = to_json_safe (payload_v2 q f b) in
    let objects = stringify-injective (object (entry_fields p e)) (sort_keys_deep v2) h in
    lookup_same
      (object_same (subst (λ v. SameValue v v2) (sym objects) (flip_value (same_sorted v2))))
      "reason"
