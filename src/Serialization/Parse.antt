-- ===== src/Serialization/Parse.antt =====
-- JavaScript's `JSON.parse` on what `JSON.stringify` writes: no white space, whole numbers, and the
-- escapes that `stringify` uses. What it refuses is `none` here (a `SyntaxError`).
use Prim.Native.Char
use Prim.Native.Char.{Char, code, nul}
use Prim.Native.Nat.{Ordering, compare}
use mathlib.Core.Logic.{dite}
use native.Mathlib.Decide.{dec_lt}
use ratel_financial_platform.Prelude.{
  ℕ, zero, suc, ◌+◌, ◌-◌, ◌*◌, ◌<◌, String, true, false, Option, none, some, ◌≡◌, arith, ltb, ◌==◌,
  if◌then◌else◌,
}
use ratel_financial_platform.Prelude.Int.{ℤ, pos, negsuc}
use ratel_financial_platform.Serialization.Decimal.{is_digit}
use ratel_financial_platform.Serialization.Json.{
  JsonValue, JsonItems, JsonFields, null, text, number, boolean, array, object, no_items, item,
  no_fields, field,
}

pub scalar_below : (n : ℕ) → n < 55296 → Char.IsScalar n
scalar_below n h = let below : compare n 55296 ≡ Ordering.lt = ground arith in rw below tt

-- The character of a code below U+D800.
unfoldable pub chr : ℕ → Char
chr n = dite (dec_lt n 55296) (λ h. Char.char n (scalar_below n h)) (λ _. nul)

module _ {ℓ κ} {A : Type ℓ} {B : Type κ} where
  -- What is read, with the input that is left, handed on.
  abbrev pub then_read : Option (A × String) → (A → String → Option B) → Option B
  then_read none rest = none
  then_read (some (a, left)) rest = rest a left

  infixl 5 ◌>>=?◌
  abbrev pub ◌>>=?◌ : Option A → (A → Option B) → Option B
  none >>=? rest = none
  some a >>=? rest = rest a

abbrev pub minus : ℕ → ℤ
minus zero = pos 0
minus (suc n) = negsuc n

unfoldable pub hex_value : ℕ → ℕ
hex_value c = if ltb c 58 then c - 48 else c - 87

-- The code that a letter after a backslash stands for.
unfoldable pub short_code : ℕ → ℕ
short_code c =
    if c == b'b'
    then 8
    else if c == b't'
    then 9
    else if c == b'n'
    then 10
    else if c == b'f'
    then 12
    else if c == b'r'
    then 13
    else c

abbrev pub push : Char → Option (String × String) → Option (String × String)
push c read = then_read read λ s left. some (String.◌∷◌ c s, left)

unfoldable mutual
  pub read_text : String → Option (String × String)
  read_text String.[] = none
  read_text (String.◌∷◌ c rest) =
      let escaped = read_escape rest in
      let plain = push c (read_text rest) in
      if code c == b'"' then some ("", rest) else if code c == 92 then escaped else plain

  pub read_escape : String → Option (String × String)
  read_escape String.[] = none
  read_escape (String.◌∷◌ c rest) =
      let coded = read_code 3 0 rest in
      let short = push (chr (short_code (code c))) (read_text rest) in
      if code c == b'u' then coded else short

  -- Four hexadecimal digits, and the rest of the text.
  pub read_code : ℕ → ℕ → String → Option (String × String)
  read_code digits value String.[] = none
  read_code zero value (String.◌∷◌ c rest) =
      push (chr (value * 16 + hex_value (code c))) (read_text rest)
  read_code (suc digits) value (String.◌∷◌ c rest) =
      read_code digits (value * 16 + hex_value (code c)) rest

unfoldable pub read_number : ℕ → String → ℕ × String
read_number n String.[] = (n, "")
read_number n (String.◌∷◌ c rest) =
    let more = read_number (n * 10 + (code c - 48)) rest in
    if is_digit c then more else (n, String.◌∷◌ c rest)

abbrev pub read_word : String → String → Option String
read_word String.[] input = some input
read_word (String.◌∷◌ c s) String.[] = none
read_word (String.◌∷◌ c s) (String.◌∷◌ d rest) =
    let more = read_word s rest in if code c == code d then more else none

abbrev pub as_number : (ℕ → ℤ) → ℕ × String → Option (JsonValue × String)
as_number sign (n, left) = some (number (sign n), left)

abbrev pub as_word : JsonValue → Option String → Option (JsonValue × String)
as_word value none = none
as_word value (some left) = some (value, left)

unfoldable mutual
  pub read_value : ℕ → String → Option (JsonValue × String)
  read_value zero input = none
  read_value (suc fuel) String.[] = none
  read_value (suc fuel) (String.◌∷◌ c rest) =
      let string = then_read (read_text rest) λ s left. some (text s, left) in
      let items = then_read (read_items fuel rest) λ xs left. some (array xs, left) in
      let fields = then_read (read_fields fuel rest) λ fs left. some (object fs, left) in
      if code c == b'"'
      then string
      else if code c == b'['
      then items
      else if code c == b'{'
      then fields
      else if code c == b'n'
      then as_word null (read_word "ull" rest)
      else if code c == b't'
      then as_word (boolean true) (read_word "rue" rest)
      else if code c == b'f'
      then as_word (boolean false) (read_word "alse" rest)
      else if code c == b'-'
      then as_number minus (read_number 0 rest)
      else if is_digit c
      then as_number pos (read_number 0 (String.◌∷◌ c rest))
      else none

  -- The items after an opening bracket, and those after an item.
  pub read_items : ℕ → String → Option (JsonItems × String)
  read_items zero input = none
  read_items (suc fuel) String.[] = none
  read_items (suc fuel) (String.◌∷◌ c rest) =
      let first = read_item fuel (String.◌∷◌ c rest) in
      if code c == b']' then some (no_items, rest) else first

  pub read_item : ℕ → String → Option (JsonItems × String)
  read_item zero input = none
  read_item (suc fuel) input =
      then_read (read_value fuel input)
        λ v left. then_read (read_more_items fuel left) λ xs left'. some (item v xs, left')

  pub read_more_items : ℕ → String → Option (JsonItems × String)
  read_more_items zero input = none
  read_more_items (suc fuel) String.[] = none
  read_more_items (suc fuel) (String.◌∷◌ c rest) =
      let next = read_item fuel rest in
      if code c == b']' then some (no_items, rest) else if code c == b',' then next else none

  -- The fields after an opening brace, and those after a field.
  pub read_fields : ℕ → String → Option (JsonFields × String)
  read_fields zero input = none
  read_fields (suc fuel) String.[] = none
  read_fields (suc fuel) (String.◌∷◌ c rest) =
      let first = read_field fuel rest in
      if code c == b'}' then some (no_fields, rest) else if code c == b'"' then first else none

  -- A field whose opening quote has been read.
  pub read_field : ℕ → String → Option (JsonFields × String)
  read_field zero input = none
  read_field (suc fuel) input = then_read (read_text input) λ key left.
      read_word ":" left >>=? λ left.
      then_read (read_value fuel left)
        λ v left. then_read (read_more_fields fuel left) λ fs left. some (field key v fs, left)

  pub read_more_fields : ℕ → String → Option (JsonFields × String)
  read_more_fields zero input = none
  read_more_fields (suc fuel) String.[] = none
  read_more_fields (suc fuel) (String.◌∷◌ c rest) =
      let next = read_word "\"" rest >>=? λ left. read_field fuel left in
      if code c == b'}' then some (no_fields, rest) else if code c == b',' then next else none

abbrev pub whole : JsonValue → String → Option JsonValue
whole value String.[] = some value
whole value (String.◌∷◌ c s) = none

abbrev pub size : String → ℕ
size String.[] = 0
size (String.◌∷◌ c s) = suc (size s)

-- No value takes more calls than twice its text is long.
unfoldable pub parse : String → Option JsonValue
parse input = then_read (read_value (2 * size input) input) whole
