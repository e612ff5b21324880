-- ===== src/Events/Audited.antt =====
-- From an aggregate's change to the before-image that AuditSubscriber stores.
use mathlib.Core.Path.{subst, ap₂}
use ratel_financial_platform.Prelude.{
  String, Bool, true, false, Option, none, some, List, [], ◌∷◌, ◌++◌, ◌≡◌, refl, ap, sym, ◌∙◌,
  arith, Bool-cases, inl, inr, str_eq, eq_iff, eq_refl, any, if◌then◌else◌, ◌||◌,
}
use ratel_financial_platform.Serialization.Json.{
  JsonValue, JsonFields, Unknown, null, object, no_fields, field, to_json_safe,
}
use ratel_financial_platform.Serialization.KeyFree.{SameValue}
use ratel_financial_platform.Serialization.Canonical.{canonical_stringify}
use ratel_financial_platform.Serialization.Faithful.{canonical_stringify_iff}
use ratel_financial_platform.Serialization.Lookup.{lookup}
use ratel_financial_platform.Audit.Log.{of_json}
use ratel_financial_platform.Audit.Stored.{safe-of_json}
use ratel_financial_platform.Audit.Subscriber.{
  before_images, unless_empty, old_value_of, extract_old_value,
}
use ratel_financial_platform.Events.Diff.{
  RecordedEvent, AggregateRoot, normalized_state, keys, distinct, value_at, same_canonical,
  field_change, changes_at, all_changes, non_empty, set_field, with_changes, diff_against_baseline,
  record_event,
}

abbrev has : String → List String → Bool
has key ks = any (λ s. str_eq s key) ks

abbrev when {ℓ} : {A : Type ℓ} → Bool → A → Option A
when b a = if b then some a else none

image_step :
    (unchanged : Bool) (k key : String) (from to : JsonValue) (rest : JsonFields)
    → lookup key (before_images (if unchanged then rest else field k (field_change from to) rest))
      ≡ (if unchanged
          then lookup key (before_images rest)
          else if str_eq k key
          then some from
          else lookup key (before_images rest))
unfolding before_images
image_step true k key from to rest = refl
image_step false k key from to rest = ground arith

empty_image : (key : String) → lookup key (before_images no_fields) ≡ none
unfolding before_images
empty_image key = refl

-- What a key has in the before-image.
abbrev pub change_at : String → JsonFields → JsonFields → Option JsonValue
change_at key before after =
    if same_canonical (value_at key before) (value_at key after)
    then none
    else some (value_at key before)

own_key :
    (unchanged known : Bool) (from : JsonValue) (rest : Option JsonValue)
    → rest ≡ (if known then (if unchanged then none else some from) else none)
    → (if unchanged then rest else some from) ≡ (if unchanged then none else some from)
own_key unchanged known from rest h = ground arith

other_key : (unchanged : Bool) (rest : Option JsonValue) → (if unchanged then rest else rest) ≡ rest
other_key true rest = refl
other_key false rest = refl

images_at :
    (key : String) (ks : List String) (before after : JsonFields)
    → lookup key (before_images (changes_at ks before after))
      ≡ (if has key ks then change_at key before after else none)
unfolding changes_at
images_at key [] before after = empty_image key
images_at key (k ∷ ks) before after =
    let unchanged = same_canonical (value_at k before) (value_at k after) in
    let rest = changes_at ks before after in
    let ih = images_at key ks before after in
    image_step unchanged k key (value_at k before) (value_at k after) rest
    ∙ elim (Bool-cases (str_eq k key)) [
      | inl e ↦ rw e (
          subst
            (λ z.
              (if same_canonical (value_at z before) (value_at z after)
                then lookup key (before_images rest)
                else some (value_at z before))
              ≡ change_at key before after)
            (sym ((eq_iff k key).0 e))
            (own_key (same_canonical (value_at key before) (value_at key after)) (has key ks)
              (value_at key before) (lookup key (before_images rest)) ih))
      | inr e ↦ rw e (other_key unchanged (lookup key (before_images rest)) ∙ ih)
    ]

has-distinct :
    (key : String) (seen ks : List String)
    → (has key (distinct seen ks) || has key seen) ≡ (has key ks || has key seen)
unfolding distinct
has-distinct key seen [] = refl
has-distinct key seen (k ∷ ks) =
    let known = has-distinct key seen ks in
    let fresh = has-distinct key (k ∷ seen) ks in
    elim (Bool-cases (str_eq k key)) [
      | inl e ↦
          let same_has : has k seen ≡ has key seen = ap (λ z. has z seen) ((eq_iff k key).0 e) in
          ground arith
      | inr e ↦ ground arith
    ]

has-append : (key : String) (ks ls : List String) → has key (ks ++ ls) ≡ (has key ks || has key ls)
has-append key [] ls = refl
has-append key (k ∷ ks) ls = ground (arith, has-append key ks ls)

lookup-absent : (key : String) (fs : JsonFields) → has key (keys fs) ≡ false → lookup key fs ≡ none
lookup-absent key no_fields h = refl
lookup-absent key (field k v fs) h = ground (arith, lookup-absent key fs)

abbrev or_null : Option JsonValue → JsonValue
or_null none = null
or_null (some v) = v

abbrev image_of : JsonValue → JsonValue → Option JsonValue
image_of v w = if same_canonical v w then none else some v

null_image : image_of null null ≡ none
null_image = rw (eq_refl (canonical_stringify (of_json null))) refl

absent_image :
    (key : String) (before after : JsonFields)
    → lookup key before ≡ none
    → lookup key after ≡ none
    → change_at key before after ≡ none
absent_image key before after h k =
    let v : value_at key before ≡ null = ap or_null h in
    let w : value_at key after ≡ null = ap or_null k in ap₂ image_of v w ∙ null_image

all_images :
    (key : String) (before after : JsonFields)
    → lookup key (before_images (all_changes before after)) ≡ change_at key before after
unfolding all_changes
all_images key before after =
    let ks = keys before ++ keys after in
    let listed = has-distinct key [] ks in
    let split = has-append key (keys before) (keys after) in
    images_at key (distinct [] ks) before after ∙ elim (Bool-cases (has key (distinct [] ks))) [
      | inl e ↦ rw e refl
      | inr e ↦ rw e (
          sym (
            absent_image key before after (lookup-absent key before (ground arith))
              (lookup-absent key after (ground arith))))
    ]

-- The fields of a before-image.
abbrev pub fields_of : Option JsonValue → JsonFields
fields_of (some (object fs)) = fs
fields_of _ = no_fields

lookup-set_field :
    (key : String) (v : JsonValue) (fs : JsonFields) → lookup key (set_field key v fs) ≡ some v
unfolding set_field
lookup-set_field key v no_fields = let t = eq_refl key in ground arith
lookup-set_field key v (field k w fs) = ground (arith, lookup-set_field key v fs, eq_iff k key)

fields_of-unless_empty : (fs : JsonFields) → fields_of (unless_empty fs) ≡ fs
fields_of-unless_empty no_fields = refl
fields_of-unless_empty (field key v fs) = refl

extracted :
    (payload changes : JsonFields)
    → lookup "changes" payload ≡ some (object changes)
    → fields_of (extract_old_value payload) ≡ before_images changes
unfolding extract_old_value
extracted payload changes h =
    ap (λ o. fields_of (old_value_of o)) h ∙ fields_of-unless_empty (before_images changes)

not_extracted :
    (payload : JsonFields) → lookup "changes" payload ≡ none → extract_old_value payload ≡ none
unfolding extract_old_value
not_extracted payload h = rw h refl

-- The payload with which an event is recorded, when the aggregate had a baseline.
abbrev recorded_payload : JsonFields → JsonFields → RecordedEvent → JsonFields
recorded_payload before after event =
    (with_changes (non_empty (all_changes before after)) event).payload

recorded_image :
    (before after : JsonFields) (event : RecordedEvent)
    → lookup "changes" event.payload ≡ none
    → (key : String)
    → lookup key (fields_of (extract_old_value (recorded_payload before after event)))
      ≡ lookup key (before_images (all_changes before after))
unfolding before_images
recorded_image before after event bare key = go (all_changes before after)
  where
    go :
        (changes : JsonFields)
        → lookup key
            (fields_of (extract_old_value (with_changes (non_empty changes) event).payload))
          ≡ lookup key (before_images changes)
    go no_fields = ap (λ o. lookup key (fields_of o)) (not_extracted event.payload bare)
    go (field k v fs) = ap (lookup key) (
        extracted (set_field "changes" (object (field k v fs)) event.payload) (field k v fs)
          (lookup-set_field "changes" (object (field k v fs)) event.payload))

image_meaning :
    (v w : JsonValue)
    → (SameValue v w → (if same_canonical v w then none else some v) ≡ none)
      × ((SameValue v w → ⊥) → (if same_canonical v w then none else some v) ≡ some v)
image_meaning v w =
    let x = canonical_stringify (of_json v) in
    let y = canonical_stringify (of_json w) in
    let texts = eq_iff x y in
    let values = canonical_stringify_iff (of_json v) (of_json w) in
    (
      λ h.
          let t : str_eq x y ≡ true = texts.1 (
            values.0 (
              subst (λ z. SameValue z (to_json_safe (of_json w))) (sym (safe-of_json v))
                (subst (SameValue v) (sym (safe-of_json w)) h))) in
          rw t refl,
      λ differ. elim (Bool-cases (str_eq x y)) [
        | inl t ↦ absurd (
            differ (
              subst (λ z. SameValue z w) (safe-of_json v)
                (subst (SameValue (to_json_safe (of_json v))) (safe-of_json w)
                  (values.1 (texts.0 t)))))
        | inr f ↦ rw f refl
      ],
    )

-- An aggregate with a baseline records an event whose payload brought no `changes` of its own: the
-- event is the last one, the baseline becomes the new state, and the before-image that the audit
-- subscriber lifts out of the recorded payload has, for each field, the baseline's value (null when
-- the baseline lacks the field) if it is not the new one up to key order, and nothing otherwise.
pub record_event_audited :
    (snapshot : Unknown) (event : RecordedEvent) (root : AggregateRoot) (before : JsonFields)
    → root.baseline_state ≡ some before
    → lookup "changes" event.payload ≡ none
    → (recorded : RecordedEvent) × ((record_event snapshot event root).domain_events
        ≡ root.domain_events ++ recorded ∷ [])
      × ((record_event snapshot event root).baseline_state ≡ some (normalized_state snapshot))
      × ((key : String)
          → (SameValue (value_at key before) (value_at key (normalized_state snapshot))
              → lookup key (fields_of (extract_old_value recorded.payload)) ≡ none)
            × ((SameValue (value_at key before) (value_at key (normalized_state snapshot)) → ⊥)
                → lookup key (fields_of (extract_old_value recorded.payload))
                  ≡ some (value_at key before)))
unfolding record_event diff_against_baseline
record_event_audited snapshot event root before baseline bare =
    let after = normalized_state snapshot in
    (
      with_changes (non_empty (all_changes before after)) event,
      rw baseline refl,
      rw baseline refl,
      λ key.
          let image = recorded_image before after event bare key ∙ all_images key before after in
          let (kept, changed) = image_meaning (value_at key before) (value_at key after) in
          (λ h. image ∙ kept h, λ h. image ∙ changed h),
    )
