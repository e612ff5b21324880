-- ===== src/Serialization/ReadBack.antt =====
-- `JSON.parse` after `JSON.stringify`, on every JSON value.
use Prim.Native.Char.{Char, code}
use mathlib.Core.Path.{subst}
use ratel_financial_platform.Prelude.{
  ℕ, zero, suc, ◌+◌, ◌<◌, ◌≤◌, String, true, false, some, ◌≡◌, refl, ap, sym, ◌∙◌, arith, ◌==◌,
}
use ratel_financial_platform.Prelude.Int.{ℤ, pos, negsuc}
use ratel_financial_platform.Serialization.Decimal.{is_digit, print_digits, print_digits_start}
use ratel_financial_platform.Serialization.Json.{
  JsonValue, JsonItems, JsonFields, null, text, number, boolean, array, object, no_items, item,
  no_fields, field,
}
use ratel_financial_platform.Serialization.Canonical.{
  put, put_integer, put_text, put_items, put_more_items, put_fields, put_more_fields,
}
use ratel_financial_platform.Serialization.Parse.{
  read_value, read_items, read_item, read_more_items, read_fields, read_field, read_more_fields,
  as_number, minus, read_number,
}
use ratel_financial_platform.Serialization.RoundTrip.{
  EndsNumber, read_text-put_text, read_number_back,
}

-- The calls that reading a value takes.
unfoldable mutual
  pub calls : JsonValue → ℕ
  calls null = 1
  calls (text s) = 1
  calls (number n) = 1
  calls (boolean b) = 1
  calls (array xs) = suc (calls_items xs)
  calls (object fs) = suc (calls_fields fs)

  pub calls_items : JsonItems → ℕ
  calls_items no_items = 1
  calls_items (item x xs) = 2 + calls x + calls_items xs

  pub calls_fields : JsonFields → ℕ
  calls_fields no_fields = 1
  calls_fields (field key x fs) = 2 + calls x + calls_fields fs

calls_pos : (v : JsonValue) → 0 < calls v
unfolding calls
calls_pos null = omega arith
calls_pos (text s) = omega arith
calls_pos (number n) = omega arith
calls_pos (boolean b) = omega arith
calls_pos (array xs) = omega arith
calls_pos (object fs) = omega arith

calls_items_pos : (xs : JsonItems) → 0 < calls_items xs
unfolding calls
calls_items_pos no_items = omega arith
calls_items_pos (item x xs) = omega arith

calls_fields_pos : (fs : JsonFields) → 0 < calls_fields fs
unfolding calls
calls_fields_pos no_fields = omega arith
calls_fields_pos (field key x fs) = omega arith

ends_items : (xs : JsonItems) (k : String) → EndsNumber (put_more_items xs k)
unfolding put
ends_items no_items k = refl
ends_items (item x xs) k = refl

ends_fields : (fs : JsonFields) (k : String) → EndsNumber (put_more_fields fs k)
unfolding put
ends_fields no_fields k = refl
ends_fields (field key x fs) k = refl

-- A number starts with a digit.
read_natural_start :
    (fuel : ℕ) (input : String) (c : Char) (rest : String)
    → input ≡ String.◌∷◌ c rest
    → is_digit c ≡ true
    → read_value (suc fuel) input ≡ as_number pos (read_number 0 input)
unfolding read_value
read_natural_start fuel input c rest same told =
    subst (λ t. read_value (suc fuel) t ≡ as_number pos (read_number 0 t)) (sym same) (ground arith)

read_integer_back :
    (fuel : ℕ) (n : ℤ) (k : String)
    → EndsNumber k
    → read_value (suc fuel) (put_integer n k) ≡ some (number n, k)
unfolding put_integer read_value
read_integer_back fuel (pos n) k ends =
    let (c, rest, same, told) = print_digits_start (suc n) n k (omega arith) in
    read_natural_start fuel (print_digits (suc n) n k) c rest same told
    ∙ ap (as_number pos) (read_number_back n k ends)
read_integer_back fuel (negsuc n) k ends = ap (as_number minus) (read_number_back (suc n) k ends)

-- The text of a value does not start with a closing bracket.
put_start :
    (v : JsonValue) (k : String)
    → (c : Char) × (rest : String) × (put v k ≡ String.◌∷◌ c rest) × ((code c == b']') ≡ false)
unfolding put put_integer
put_start null k = (_, _, refl, refl)
put_start (text s) k = (_, _, refl, refl)
put_start (number (pos n)) k =
    let (c, rest, same, told) = print_digits_start (suc n) n k (omega arith) in
    (c, rest, same, ground arith)
put_start (number (negsuc n)) k = (_, _, refl, refl)
put_start (boolean true) k = (_, _, refl, refl)
put_start (boolean false) k = (_, _, refl, refl)
put_start (array xs) k = (_, _, refl, refl)
put_start (object fs) k = (_, _, refl, refl)

first_item :
    (fuel : ℕ) (input : String) (c : Char) (rest : String)
    → input ≡ String.◌∷◌ c rest
    → (code c == b']') ≡ false
    → read_items (suc fuel) input ≡ read_item fuel input
unfolding read_value
first_item fuel input c rest same other =
    subst (λ t. read_items (suc fuel) t ≡ read_item fuel t) (sym same) (ground arith)

mutual
  unfolding put read_value calls

  pub read_back :
      (fuel : ℕ) (v : JsonValue) (k : String)
      → calls v ≤ fuel
      → EndsNumber k
      → read_value fuel (put v k) ≡ some (v, k)
  read_back zero v k enough ends = absurd (omega (arith, calls_pos v))
  read_back (suc f) null k enough ends = refl
  read_back (suc f) (text s) k enough ends = rw (read_text-put_text s k) refl
  read_back (suc f) (number n) k enough ends = read_integer_back f n k ends
  read_back (suc f) (boolean true) k enough ends = refl
  read_back (suc f) (boolean false) k enough ends = refl
  read_back (suc f) (array xs) k enough ends = rw (items_back f xs k (omega arith)) refl
  read_back (suc f) (object fs) k enough ends = rw (fields_back f fs k (omega arith)) refl

  items_back :
      (fuel : ℕ) (xs : JsonItems) (k : String)
      → calls_items xs ≤ fuel
      → read_items fuel (put_items xs k) ≡ some (xs, k)
  items_back zero xs k enough = absurd (omega (arith, calls_items_pos xs))
  items_back (suc f) no_items k enough = refl
  items_back (suc f) (item x xs) k enough =
      let (c, rest, starts, other) = put_start x (put_more_items xs k) in
      first_item f (put x (put_more_items xs k)) c rest starts other
      ∙ item_back f x xs k (omega arith)

  item_back :
      (fuel : ℕ) (x : JsonValue) (xs : JsonItems) (k : String)
      → 1 + calls x + calls_items xs ≤ fuel
      → read_item fuel (put x (put_more_items xs k)) ≡ some (item x xs, k)
  item_back zero x xs k enough = absurd (omega arith)
  item_back (suc f) x xs k enough =
      rw
        (
          read_back f x (put_more_items xs k) (omega arith) (ends_items xs k),
          more_items_back f xs k (omega arith),
        )
        refl

  more_items_back :
      (fuel : ℕ) (xs : JsonItems) (k : String)
      → calls_items xs ≤ fuel
      → read_more_items fuel (put_more_items xs k) ≡ some (xs, k)
  more_items_back zero xs k enough = absurd (omega (arith, calls_items_pos xs))
  more_items_back (suc f) no_items k enough = refl
  more_items_back (suc f) (item x xs) k enough = item_back f x xs k (omega arith)

  fields_back :
      (fuel : ℕ) (fs : JsonFields) (k : String)
      → calls_fields fs ≤ fuel
      → read_fields fuel (put_fields fs k) ≡ some (fs, k)
  fields_back zero fs k enough = absurd (omega (arith, calls_fields_pos fs))
  fields_back (suc f) no_fields k enough = refl
  fields_back (suc f) (field key x fs) k enough = field_back f key x fs k (omega arith)

  field_back :
      (fuel : ℕ) (key : String) (x : JsonValue) (fs : JsonFields) (k : String)
      → 1 + calls x + calls_fields fs ≤ fuel
      → read_field fuel (put_text key (String.◌∷◌ ":" (put x (put_more_fields fs k))))
        ≡ some (field key x fs, k)
  field_back zero key x fs k enough = absurd (omega arith)
  field_back (suc f) key x fs k enough =
      rw
        (
          read_text-put_text key (String.◌∷◌ ":" (put x (put_more_fields fs k))),
          read_back f x (put_more_fields fs k) (omega arith) (ends_fields fs k),
          more_fields_back f fs k (omega arith),
        )
        refl

  more_fields_back :
      (fuel : ℕ) (fs : JsonFields) (k : String)
      → calls_fields fs ≤ fuel
      → read_more_fields fuel (put_more_fields fs k) ≡ some (fs, k)
  more_fields_back zero fs k enough = absurd (omega (arith, calls_fields_pos fs))
  more_fields_back (suc f) no_fields k enough = refl
  more_fields_back (suc f) (field key x fs) k enough = field_back f key x fs k (omega arith)
