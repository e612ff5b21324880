-- ===== src/Serialization/Canonical.antt =====
-- The text of a JSON value, as `JSON.stringify` writes it, and `canonicalStringify` of
-- shared-kernel/serialization/canonical-json.ts. Each part is written before the text `after` it.
use Prim.Native.Char.{Char, code}
use Prim.Native.Nat.{◌/◌, ◌%◌}
use ratel_financial_platform.Prelude.{ℕ, zero, suc, String, true, false, ltb, ◌==◌, if◌then◌else◌}
use ratel_financial_platform.Prelude.Int.{ℤ, pos, negsuc}
use ratel_financial_platform.Serialization.Decimal.{digit, print_digits}
use ratel_financial_platform.Serialization.Json.{
  JsonValue, JsonItems, JsonFields, Unknown, null, text, number, boolean, array, object, no_items,
  item, no_fields, field, to_json_safe, sort_keys_deep,
}

-- The hexadecimal digit of a number below sixteen.
unfoldable pub hex_digit : ℕ → Char
hex_digit zero = "0"
hex_digit (suc zero) = "1"
hex_digit (suc (suc zero)) = "2"
hex_digit (suc (suc (suc zero))) = "3"
hex_digit (suc (suc (suc (suc zero)))) = "4"
hex_digit (suc (suc (suc (suc (suc zero))))) = "5"
hex_digit (suc (suc (suc (suc (suc (suc zero)))))) = "6"
hex_digit (suc (suc (suc (suc (suc (suc (suc zero))))))) = "7"
hex_digit (suc (suc (suc (suc (suc (suc (suc (suc zero)))))))) = "8"
hex_digit (suc (suc (suc (suc (suc (suc (suc (suc (suc zero))))))))) = "9"
hex_digit (suc (suc (suc (suc (suc (suc (suc (suc (suc (suc zero)))))))))) = "a"
hex_digit (suc (suc (suc (suc (suc (suc (suc (suc (suc (suc (suc zero))))))))))) = "b"
hex_digit (suc (suc (suc (suc (suc (suc (suc (suc (suc (suc (suc (suc zero)))))))))))) = "c"
hex_digit (suc (suc (suc (suc (suc (suc (suc (suc (suc (suc (suc (suc (suc zero))))))))))))) = "d"
hex_digit (suc (suc (suc (suc (suc (suc (suc (suc (suc (suc (suc (suc (suc (suc zero)))))))))))))) =
    "e"
hex_digit _ = "f"

unfoldable pub put_integer : ℤ → String → String
put_integer (pos n) after = print_digits (suc n) n after
put_integer (negsuc n) after = String.◌∷◌ "-" (print_digits (suc (suc n)) (suc n) after)

-- What `JSON.stringify` writes for a character: the letter of a short escape, a hexadecimal escape,
-- or the character itself.
pub data Spelling : Type 0 where
  plain : Spelling
  short : Char → Spelling
  hex : Char → Char → Spelling

unfoldable pub spelling : ℕ → Spelling
spelling c =
    if c == 34
    then short "\""
    else if c == 92
    then short "\\"
    else if c == 8
    then short "b"
    else if c == 9
    then short "t"
    else if c == 10
    then short "n"
    else if c == 12
    then short "f"
    else if c == 13
    then short "r"
    else if ltb c 32
    then hex (digit (c / 16)) (hex_digit (c % 16))
    else plain

abbrev pub put_spelled : Spelling → Char → String → String
put_spelled plain c rest = String.◌∷◌ c rest
put_spelled (short letter) c rest = String.◌∷◌ "\\" (String.◌∷◌ letter rest)
put_spelled (hex high low) c rest =
    String.◌∷◌ "\\"
      (String.◌∷◌ "u" (String.◌∷◌ "0" (String.◌∷◌ "0" (String.◌∷◌ high (String.◌∷◌ low rest)))))

-- A text and its closing quote.
unfoldable pub put_text : String → String → String
put_text String.[] after = String.◌∷◌ "\"" after
put_text (String.◌∷◌ c s) after = put_spelled (spelling (code c)) c (put_text s after)

abbrev put_word : String → String → String
put_word String.[] after = after
put_word (String.◌∷◌ c s) after = String.◌∷◌ c (put_word s after)

unfoldable mutual
  pub put : JsonValue → String → String
  put null after = put_word "null" after
  put (text s) after = String.◌∷◌ "\"" (put_text s after)
  put (number n) after = put_integer n after
  put (boolean true) after = put_word "true" after
  put (boolean false) after = put_word "false" after
  put (array xs) after = String.◌∷◌ "[" (put_items xs after)
  put (object fs) after = String.◌∷◌ "{" (put_fields fs after)

  pub put_items : JsonItems → String → String
  put_items no_items after = String.◌∷◌ "]" after
  put_items (item x xs) after = put x (put_more_items xs after)

  pub put_more_items : JsonItems → String → String
  put_more_items no_items after = String.◌∷◌ "]" after
  put_more_items (item x xs) after = String.◌∷◌ "," (put x (put_more_items xs after))

  pub put_fields : JsonFields → String → String
  put_fields no_fields after = String.◌∷◌ "}" after
  put_fields (field key x fs) after =
      String.◌∷◌ "\"" (put_text key (String.◌∷◌ ":" (put x (put_more_fields fs after))))

  pub put_more_fields : JsonFields → String → String
  put_more_fields no_fields after = String.◌∷◌ "}" after
  put_more_fields (field key x fs) after =
      String.◌∷◌ ","
        (String.◌∷◌ "\"" (put_text key (String.◌∷◌ ":" (put x (put_more_fields fs after)))))

unfoldable pub stringify : JsonValue → String
stringify value = put value ""

unfoldable pub canonical_stringify : Unknown → String
canonical_stringify value = stringify (sort_keys_deep (to_json_safe value))
