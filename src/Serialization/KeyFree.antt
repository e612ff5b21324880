-- ===== src/Serialization/KeyFree.antt =====
-- JSON values up to the order of their objects' keys, at any depth, and `sortKeysDeep`.
use mathlib.Core.Path.{ap₂, subst}
use ratel_financial_platform.Prelude.{
  String, true, ◌≡◌, ◌≢◌, ◌↔◌, refl, ap, sym, ◌∙◌, arith, Bool-cases, inl, inr,
}
use ratel_financial_platform.Serialization.Json.{
  JsonValue, JsonItems, JsonFields, null, text, number, boolean, array, object, no_items, item,
  no_fields, field, key_before, insert_field, sort_keys_deep, sort_items, sort_fields,
}
use ratel_financial_platform.Serialization.KeyOrder.{
  key_before_asym, key_before_total, key_before_trans,
}

-- The least relation that exchanges two neighbouring fields with different keys, anywhere.
mutual
  pub data SameValue : JsonValue → JsonValue → Type 0 where
    same : {v : JsonValue} → SameValue v v
    in_array : {xs ys : JsonItems} → SameItems xs ys → SameValue (array xs) (array ys)
    in_object : {fs gs : JsonFields} → SameFields fs gs → SameValue (object fs) (object gs)

  pub data SameItems : JsonItems → JsonItems → Type 0 where
    items_end : SameItems no_items no_items
    items_step :
        {v w : JsonValue} {xs ys : JsonItems}
        → SameValue v w
        → SameItems xs ys
        → SameItems (item v xs) (item w ys)

  pub data SameFields : JsonFields → JsonFields → Type 0 where
    fields_end : SameFields no_fields no_fields
    fields_step :
        (key : String) {v w : JsonValue} {fs gs : JsonFields}
        → SameValue v w
        → SameFields fs gs
        → SameFields (field key v fs) (field key w gs)
    exchange :
        (key other : String) (v w : JsonValue) (fs : JsonFields)
        → key ≢ other
        → SameFields (field key v (field other w fs)) (field other w (field key v fs))
    chained : {fs gs hs : JsonFields} → SameFields fs gs → SameFields gs hs → SameFields fs hs

insert_field_comm :
    (a b : String) (x y : JsonValue) (fs : JsonFields)
    → a ≢ b
    → insert_field a x (insert_field b y fs) ≡ insert_field b y (insert_field a x fs)
unfolding insert_field
insert_field_comm a b x y no_fields differ =
    ground (arith, key_before_asym a b, key_before_asym b a, key_before_total a b)
insert_field_comm a b x y (field key z fs) differ = ground (
  arith,
  key_before_asym a b,
  key_before_asym b a,
  key_before_total a b,
  key_before_trans key a b,
  key_before_trans key b a,
  insert_field_comm a b x y fs differ,
)

mutual
  unfolding sort_keys_deep

  sorted_same : {v w : JsonValue} → SameValue v w → sort_keys_deep v ≡ sort_keys_deep w
  sorted_same same = refl
  sorted_same (in_array h) = ap array (sorted-SameItems h)
  sorted_same (in_object h) = ap object (sorted-SameFields h)

  sorted-SameItems : {xs ys : JsonItems} → SameItems xs ys → sort_items xs ≡ sort_items ys
  sorted-SameItems items_end = refl
  sorted-SameItems (items_step h hs) = ap₂ item (sorted_same h) (sorted-SameItems hs)

  sorted-SameFields : {fs gs : JsonFields} → SameFields fs gs → sort_fields fs ≡ sort_fields gs
  sorted-SameFields fields_end = refl
  sorted-SameFields (fields_step key h hs) =
      ap₂ (insert_field key) (sorted_same h) (sorted-SameFields hs)
  sorted-SameFields (exchange key other v w fs differ) =
      insert_field_comm key other (sort_keys_deep v) (sort_keys_deep w) (sort_fields fs) differ
  sorted-SameFields (chained h k) = sorted-SameFields h ∙ sorted-SameFields k

pub fields_refl : (fs : JsonFields) → SameFields fs fs
fields_refl no_fields = fields_end
fields_refl (field key v fs) = fields_step key same (fields_refl fs)

later_key_differs : (key key' : String) → key_before key' key ≡ true → key ≢ key'
later_key_differs key key' h e =
    let back = key_before_asym key' key h in
    let turned : key_before key key' ≡ true =
      subst (λ k. key_before k key' ≡ true) (sym e) (subst (λ k. key_before key' k ≡ true) e h) in
    cc

insert_same :
    (key : String) (v : JsonValue) (fs : JsonFields)
    → SameFields (field key v fs) (insert_field key v fs)
unfolding insert_field
insert_same key v no_fields = fields_refl (field key v no_fields)
insert_same key v (field key' w fs) = elim (Bool-cases (key_before key' key)) [
  | inl h ↦ rw h (
      chained (exchange key key' v w fs (later_key_differs key key' h))
        (fields_step key' same (insert_same key v fs)))
  | inr h ↦ rw h (fields_refl (field key v (field key' w fs)))
]

mutual
  unfolding sort_keys_deep

  pub same_sorted : (v : JsonValue) → SameValue v (sort_keys_deep v)
  same_sorted null = same
  same_sorted (text s) = same
  same_sorted (number n) = same
  same_sorted (boolean b) = same
  same_sorted (array xs) = in_array (same_sorted_items xs)
  same_sorted (object fs) = in_object (same_sorted_fields fs)

  same_sorted_items : (xs : JsonItems) → SameItems xs (sort_items xs)
  same_sorted_items no_items = items_end
  same_sorted_items (item v xs) = items_step (same_sorted v) (same_sorted_items xs)

  same_sorted_fields : (fs : JsonFields) → SameFields fs (sort_fields fs)
  same_sorted_fields no_fields = fields_end
  same_sorted_fields (field key v fs) =
      chained (fields_step key (same_sorted v) (same_sorted_fields fs))
        (insert_same key (sort_keys_deep v) (sort_fields fs))

mutual
  pub flip_value : {v w : JsonValue} → SameValue v w → SameValue w v
  flip_value same = same
  flip_value (in_array h) = in_array (flip_items h)
  flip_value (in_object h) = in_object (flip_fields h)

  flip_items : {xs ys : JsonItems} → SameItems xs ys → SameItems ys xs
  flip_items items_end = items_end
  flip_items (items_step h hs) = items_step (flip_value h) (flip_items hs)

  flip_fields : {fs gs : JsonFields} → SameFields fs gs → SameFields gs fs
  flip_fields fields_end = fields_end
  flip_fields (fields_step key h hs) = fields_step key (flip_value h) (flip_fields hs)
  flip_fields (exchange key other v w fs differ) = exchange other key w v fs (λ e. differ (sym e))
  flip_fields (chained h k) = chained (flip_fields k) (flip_fields h)

mutual
  pub trans_value : {u v w : JsonValue} → SameValue u v → SameValue v w → SameValue u w
  trans_value same k = k
  trans_value h same = h
  trans_value (in_array h) (in_array k) = in_array (trans_items h k)
  trans_value (in_object h) (in_object k) = in_object (chained h k)

  trans_items : {xs ys zs : JsonItems} → SameItems xs ys → SameItems ys zs → SameItems xs zs
  trans_items items_end k = k
  trans_items (items_step h hs) (items_step k ks) = items_step (trans_value h k) (trans_items hs ks)

-- Sorting keys makes two JSON values equal exactly when they are the same but for the order in
-- which their objects, at any depth, list their keys: it forgets that order, and nothing else.
pub sort_keys_deep_iff : (v w : JsonValue) → SameValue v w ↔ (sort_keys_deep v ≡ sort_keys_deep w)
sort_keys_deep_iff v w = (
  sorted_same,
  λ e. trans_value (subst (SameValue v) e (same_sorted v)) (flip_value (same_sorted w)),
)
