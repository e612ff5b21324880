-- ===== src/Serialization/Json.antt =====
-- shared-kernel/serialization/canonical-json.ts: JSON values, `toJsonSafe`, `sortKeysDeep` and
-- `canonicalStringify`, with the text that `JSON.stringify` gives a JSON value. The fields of an
-- object stand in the order in which JavaScript lists them. The numbers are whole, and no key is an
-- array index: those are the ones that JavaScript would list first, whatever the order of the rest.
-- Nor is a key `__proto__`: `result[key] = ...` does not make that an own key of the result.
use Prim.Native.Char.{code}
use ratel_financial_platform.Prelude.{
  ℕ, String, Bool, true, false, ltb, ◌==◌, ◌&&◌, ◌||◌, if◌then◌else◌,
}
use ratel_financial_platform.Prelude.Int.{ℤ}
use ratel_financial_platform.Serialization.Decimal.{print_integer}
use ratel_financial_platform.Serialization.Dates.{iso_text}

mutual
  pub data JsonValue : Type 0 where
    null : JsonValue
    text : String → JsonValue
    number : ℤ → JsonValue
    boolean : Bool → JsonValue
    array : JsonItems → JsonValue
    object : JsonFields → JsonValue

  pub data JsonItems : Type 0 where
    no_items : JsonItems
    item : JsonValue → JsonItems → JsonItems

  pub data JsonFields : Type 0 where
    no_fields : JsonFields
    field : String → JsonValue → JsonFields → JsonFields

-- What code may pass as `unknown`. A value object is an object with a method `toJSON`, and stands
-- for what the method returns; a date is its milliseconds since 1970.
mutual
  pub data Unknown : Type 0 where
    undefined null : Unknown
    text : String → Unknown
    number : ℤ → Unknown
    not_finite : Unknown
    boolean : Bool → Unknown
    bigint : ℤ → Unknown
    date : ℕ → Unknown
    array : UnknownItems → Unknown
    value_object : Unknown → Unknown
    object : UnknownFields → Unknown
    function symbol : Unknown

  pub data UnknownItems : Type 0 where
    no_items : UnknownItems
    item : Unknown → UnknownItems → UnknownItems

  pub data UnknownFields : Type 0 where
    no_fields : UnknownFields
    field : String → Unknown → UnknownFields → UnknownFields

unfoldable mutual
  pub to_json_safe : Unknown → JsonValue
  to_json_safe Unknown.undefined = JsonValue.null
  to_json_safe Unknown.null = JsonValue.null
  to_json_safe (Unknown.text s) = JsonValue.text s
  to_json_safe (Unknown.number n) = JsonValue.number n
  to_json_safe Unknown.not_finite = JsonValue.null
  to_json_safe (Unknown.boolean b) = JsonValue.boolean b
  to_json_safe (Unknown.bigint n) = JsonValue.text (print_integer n)
  to_json_safe (Unknown.date ms) = JsonValue.text (iso_text ms)
  to_json_safe (Unknown.array xs) = JsonValue.array (safe_items xs)
  to_json_safe (Unknown.value_object json) = to_json_safe json
  to_json_safe (Unknown.object fs) = JsonValue.object (safe_fields fs)
  to_json_safe Unknown.function = JsonValue.null
  to_json_safe Unknown.symbol = JsonValue.null

  pub safe_items : UnknownItems → JsonItems
  safe_items UnknownItems.no_items = JsonItems.no_items
  safe_items (UnknownItems.item x xs) = JsonItems.item (to_json_safe x) (safe_items xs)

  pub safe_fields : UnknownFields → JsonFields
  safe_fields UnknownFields.no_fields = JsonFields.no_fields
  safe_fields (UnknownFields.field key x fs) =
      JsonFields.field key (to_json_safe x) (safe_fields fs)

-- `sort` compares texts by their UTF-16 units: a character above U+FFFF is two surrogates, whose
-- first stands between U+D7FF and U+E000.
abbrev pub unit_class : ℕ → ℕ
unit_class c = if ltb c 55296 then 0 else if ltb c 65536 then 2 else 1

abbrev pub unit_before : ℕ → ℕ → Bool
unit_before c d = ltb (unit_class c) (unit_class d) || unit_class c == unit_class d && ltb c d

unfoldable pub key_before : String → String → Bool
key_before String.[] String.[] = false
key_before String.[] (String.◌∷◌ d t) = true
key_before (String.◌∷◌ c s) String.[] = false
key_before (String.◌∷◌ c s) (String.◌∷◌ d t) =
    let rest = key_before s t in if code c == code d then rest else unit_before (code c) (code d)

unfoldable pub insert_field : String → JsonValue → JsonFields → JsonFields
insert_field key x JsonFields.no_fields = JsonFields.field key x JsonFields.no_fields
insert_field key x (JsonFields.field key' y fs) =
    let rest = insert_field key x fs in
    if key_before key' key
    then JsonFields.field key' y rest
    else JsonFields.field key x (JsonFields.field key' y fs)

-- The sorted keys of an object, each with its value sorted in turn; items keep their order.
unfoldable mutual
  pub sort_keys_deep : JsonValue → JsonValue
  sort_keys_deep (JsonValue.array xs) = JsonValue.array (sort_items xs)
  sort_keys_deep (JsonValue.object fs) = JsonValue.object (sort_fields fs)
  sort_keys_deep JsonValue.null = JsonValue.null
  sort_keys_deep (JsonValue.text s) = JsonValue.text s
  sort_keys_deep (JsonValue.number n) = JsonValue.number n
  sort_keys_deep (JsonValue.boolean b) = JsonValue.boolean b

  pub sort_items : JsonItems → JsonItems
  sort_items JsonItems.no_items = JsonItems.no_items
  sort_items (JsonItems.item x xs) = JsonItems.item (sort_keys_deep x) (sort_items xs)

  pub sort_fields : JsonFields → JsonFields
  sort_fields JsonFields.no_fields = JsonFields.no_fields
  sort_fields (JsonFields.field key x fs) = insert_field key (sort_keys_deep x) (sort_fields fs)
