-- ===== src/Serialization/Faithful.antt =====
-- What the text of a JSON value, and its canonical text, say about the value.
use Prim.Native.Char.{Char, code}
use Prim.Native.Nat.{◌/◌, ◌%◌}
use ratel_financial_platform.Prelude.{
  ℕ, zero, suc, ◌+◌, ◌*◌, ◌<◌, ◌≤◌, String, true, false, some, ◌≡◌, ◌↔◌, ap, sym, ◌∙◌, arith,
  Option,
}
use ratel_financial_platform.Prelude.Int.{pos, negsuc}
use ratel_financial_platform.Serialization.Decimal.{digit, print_digits}
use ratel_financial_platform.Serialization.Json.{
  JsonValue, JsonItems, JsonFields, null, text, number, boolean, array, object, no_items, item,
  no_fields, field, Unknown, to_json_safe, sort_keys_deep,
}
use ratel_financial_platform.Serialization.Canonical.{
  Spelling, plain, short, hex, spelling, put_spelled, put, put_integer, put_text, put_items,
  put_more_items, put_fields, put_more_fields, stringify, canonical_stringify,
}
use ratel_financial_platform.Serialization.Parse.{then_read, whole, size, parse}
use ratel_financial_platform.Serialization.ReadBack.{calls, calls_items, calls_fields, read_back}
use ratel_financial_platform.Serialization.KeyFree.{SameValue, sort_keys_deep_iff}

size-spelled : (sp : Spelling) (c : Char) (s : String) → size s < size (put_spelled sp c s)
size-spelled plain c s = omega arith
size-spelled (short letter) c s = omega arith
size-spelled (hex high low) c s = omega arith

size-put_text : (s k : String) → size k < size (put_text s k)
unfolding put_text
size-put_text String.[] k = omega arith
size-put_text (String.◌∷◌ c s) k =
    omega (arith, size-put_text s k, size-spelled (spelling (code c)) c (put_text s k))

size-print_digits : (fuel n : ℕ) (k : String) → n < fuel → size k < size (print_digits fuel n k)
unfolding print_digits
size-print_digits zero n k h = absurd (omega arith)
size-print_digits (suc f) n k h =
    ground (arith, size-print_digits f (n / 10) (String.◌∷◌ (digit (n % 10)) k))

-- Twice the length of a value's text is enough calls to read it.
mutual
  unfolding put put_integer calls

  calls-le : (v : JsonValue) (k : String) → calls v + 2 * size k < 2 * size (put v k)
  calls-le null k = omega arith
  calls-le (text s) k = omega (arith, size-put_text s k)
  calls-le (number (pos n)) k = omega (arith, size-print_digits (suc n) n k)
  calls-le (number (negsuc n)) k = omega (arith, size-print_digits (suc (suc n)) (suc n) k)
  calls-le (boolean true) k = omega arith
  calls-le (boolean false) k = omega arith
  calls-le (array xs) k = omega (arith, calls_items-le xs k)
  calls-le (object fs) k = omega (arith, calls_fields-le fs k)

  calls_items-le :
      (xs : JsonItems) (k : String) → calls_items xs + 2 * size k ≤ 2 * size (put_items xs k)
  calls_items-le no_items k = omega arith
  calls_items-le (item x xs) k =
      omega (arith, calls-le x (put_more_items xs k), calls_more_items-le xs k)

  calls_more_items-le :
      (xs : JsonItems) (k : String) → calls_items xs + 2 * size k < 2 * size (put_more_items xs k)
  calls_more_items-le no_items k = omega arith
  calls_more_items-le (item x xs) k =
      omega (arith, calls-le x (put_more_items xs k), calls_more_items-le xs k)

  calls_fields-le :
      (fs : JsonFields) (k : String) → calls_fields fs + 2 * size k ≤ 2 * size (put_fields fs k)
  calls_fields-le no_fields k = omega arith
  calls_fields-le (field key x fs) k = omega (
    arith,
    size-put_text key (String.◌∷◌ ":" (put x (put_more_fields fs k))),
    calls-le x (put_more_fields fs k),
    calls_more_fields-le fs k,
  )

  calls_more_fields-le :
      (fs : JsonFields) (k : String)
      → calls_fields fs + 2 * size k < 2 * size (put_more_fields fs k)
  calls_more_fields-le no_fields k = omega arith
  calls_more_fields-le (field key x fs) k = omega (
    arith,
    size-put_text key (String.◌∷◌ ":" (put x (put_more_fields fs k))),
    calls-le x (put_more_fields fs k),
    calls_more_fields-le fs k,
  )

-- `JSON.parse` reads every JSON value back from the text that `JSON.stringify` writes for it, with
-- its keys in their order: the escapes, the digits and the brackets lose nothing.
pub parse-stringify : (v : JsonValue) → parse (stringify v) ≡ some v
unfolding parse stringify
parse-stringify v =
    let enough = calls-le v "" in
    ap (λ r. then_read r whole) (read_back (2 * size (put v "")) v "" (omega (arith, enough)) tt)

some-injective : {v w : JsonValue} → Path (Option JsonValue) (some v) (some w) → v ≡ w
some-injective e = cc

pub stringify-injective : (v w : JsonValue) → stringify v ≡ stringify w → v ≡ w
stringify-injective v w e =
    some-injective (sym (parse-stringify v) ∙ ap parse e ∙ parse-stringify w)

-- Two values, none of whose keys is `__proto__`, have the same canonical text exactly when their JSON forms are the same but for the
-- order in which objects, at any depth, list their keys. So a value that a `jsonb` column gives back
-- with its keys in another order has the text it had, and no other difference is lost in the text.
pub canonical_stringify_iff :
    (x y : Unknown)
    → SameValue (to_json_safe x) (to_json_safe y) ↔ (canonical_stringify x ≡ canonical_stringify y)
unfolding canonical_stringify
canonical_stringify_iff x y =
    let sorted = sort_keys_deep_iff (to_json_safe x) (to_json_safe y) in
    (
      λ h. ap stringify (sorted.0 h),
      λ e. sorted.1 (
          stringify-injective (sort_keys_deep (to_json_safe x)) (sort_keys_deep (to_json_safe y))
            e),
    )
