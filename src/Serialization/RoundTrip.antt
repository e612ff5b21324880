-- ===== src/Serialization/RoundTrip.antt =====
-- Reading what `JSON.stringify` writes: first texts and numbers.
use Prim.Native.Char.{Char, code}
use Prim.Native.Nat.{◌/◌, ◌%◌}
use text.Mathlib.TextEquality.{Char-path}
use ratel_financial_platform.Prelude.{
  ℕ, zero, suc, ◌+◌, ◌-◌, ◌*◌, ◌<◌, String, true, false, some, ◌≡◌, refl, ap, ◌∙◌, arith, ◌==◌,
  if◌then◌else◌,
}
use ratel_financial_platform.Serialization.Decimal.{is_digit, code-digit, digit, print_digits}
use ratel_financial_platform.Serialization.Canonical.{
  Spelling, plain, short, hex, spelling, hex_digit, put_spelled, put_text,
}
use ratel_financial_platform.Serialization.Parse.{
  chr, hex_value, short_code, push, read_text, read_code, read_number,
}

chr-code : (c : Char) → code c < 55296 → chr (code c) ≡ c
unfolding chr
chr-code c h = Char-path (chr (code c)) c (ground arith)

hex_value-digit : (d : ℕ) → d < 10 → hex_value (code (digit d)) ≡ d
unfolding hex_value
hex_value-digit d h = ground (arith, code-digit d)

hex_value-hex_digit : (d : ℕ) → d < 16 → hex_value (code (hex_digit d)) ≡ d
unfolding hex_digit hex_value
hex_value-hex_digit zero h = refl
hex_value-hex_digit (suc zero) h = refl
hex_value-hex_digit (suc (suc zero)) h = refl
hex_value-hex_digit (suc (suc (suc zero))) h = refl
hex_value-hex_digit (suc (suc (suc (suc zero)))) h = refl
hex_value-hex_digit (suc (suc (suc (suc (suc zero))))) h = refl
hex_value-hex_digit (suc (suc (suc (suc (suc (suc zero)))))) h = refl
hex_value-hex_digit (suc (suc (suc (suc (suc (suc (suc zero))))))) h = refl
hex_value-hex_digit (suc (suc (suc (suc (suc (suc (suc (suc zero)))))))) h = refl
hex_value-hex_digit (suc (suc (suc (suc (suc (suc (suc (suc (suc zero))))))))) h = refl
hex_value-hex_digit (suc (suc (suc (suc (suc (suc (suc (suc (suc (suc zero)))))))))) h = refl
hex_value-hex_digit (suc (suc (suc (suc (suc (suc (suc (suc (suc (suc (suc zero))))))))))) h = refl
hex_value-hex_digit (suc (suc (suc (suc (suc (suc (suc (suc (suc (suc (suc (suc zero)))))))))))) h =
    refl
hex_value-hex_digit
      (suc (suc (suc (suc (suc (suc (suc (suc (suc (suc (suc (suc (suc zero))))))))))))) h =
    refl
hex_value-hex_digit
      (suc (suc (suc (suc (suc (suc (suc (suc (suc (suc (suc (suc (suc (suc zero)))))))))))))) h =
    refl
hex_value-hex_digit
      (suc (suc (suc (suc (suc (suc (suc (suc (suc (suc (suc (suc (suc (suc (suc zero)))))))))))))))
      h =
    refl
hex_value-hex_digit
      (suc
        (suc (suc (suc (suc (suc (suc (suc (suc (suc (suc (suc (suc (suc (suc (suc d))))))))))))))))
      h =
    absurd (omega arith)

-- The code that a spelling stands for.
abbrev meaning : Spelling → ℕ → ℕ
meaning plain n = n
meaning (short letter) n = short_code (code letter)
meaning (hex high low) n = hex_value (code high) * 16 + hex_value (code low)

meaning-spelling : (n : ℕ) → meaning (spelling n) n ≡ n
unfolding spelling short_code
meaning-spelling n = ground (arith, hex_value-digit (n / 16), hex_value-hex_digit (n % 16))

-- What tells the spellings apart.
abbrev IsTold : Spelling → ℕ → Type 0
IsTold plain n = ((n == b'"') ≡ false) × ((n == 92) ≡ false)
IsTold (short letter) n = ((code letter == b'u') ≡ false) × (n < 55296)
IsTold (hex high low) n = n < 55296

spelling-IsTold : (n : ℕ) → IsTold (spelling n) n
unfolding spelling
spelling-IsTold n = ground arith

chr_of : (n : ℕ) (c : Char) → n ≡ code c → code c < 55296 → chr n ≡ c
chr_of n c e small = ap chr e ∙ chr-code c small

hex_value_zero : hex_value 48 ≡ 0
unfolding hex_value
hex_value_zero = refl

read_spelled :
    (sp : Spelling) (c : Char) (rest : String)
    → IsTold sp (code c)
    → meaning sp (code c) ≡ code c
    → read_text (put_spelled sp c rest) ≡ push c (read_text rest)
unfolding read_text
read_spelled plain c rest (quote, slash) e = ground arith
read_spelled (short letter) c rest (letter_u, small) e =
    ap
      (λ b.
        if b then read_code 3 0 rest else push (chr (short_code (code letter))) (read_text rest))
      letter_u
    ∙ ap (λ d. push d (read_text rest)) (chr_of (short_code (code letter)) c e small)
read_spelled (hex high low) c rest small e =
    ap (λ d. push d (read_text rest)) (chr_of _ c (omega (arith, hex_value_zero, e)) small)

closing : (after : String) → read_text (String.◌∷◌ "\"" after) ≡ some ("", after)
unfolding read_text
closing after = refl

pub read_text-put_text : (s after : String) → read_text (put_text s after) ≡ some (s, after)
unfolding put_text
read_text-put_text String.[] after = closing after
read_text-put_text (String.◌∷◌ c s) after =
    read_spelled (spelling (code c)) c (put_text s after) (spelling-IsTold (code c))
      (meaning-spelling (code c))
    ∙ ap (push c) (read_text-put_text s after)

-- What can follow a number: nothing, or no digit.
abbrev pub EndsNumber : String → Type 0
EndsNumber String.[] = Unit
EndsNumber (String.◌∷◌ c rest) = is_digit c ≡ false

read_number_stops : (n : ℕ) (after : String) → EndsNumber after → read_number n after ≡ (n, after)
unfolding read_number
read_number_stops n String.[] ends = refl
read_number_stops n (String.◌∷◌ c rest) ends = rw ends refl

read_number-digit :
    (n d : ℕ) (after : String)
    → d < 10
    → read_number n (String.◌∷◌ (digit d) after) ≡ read_number (n * 10 + d) after
unfolding read_number
read_number-digit n d after h =
    let value = code-digit d h in
    let told : is_digit (digit d) ≡ true = ground arith in
    ap
      (λ b.
        if b
        then read_number (n * 10 + (code (digit d) - 48)) after
        else (n, String.◌∷◌ (digit d) after))
      told
    ∙ ap (λ m. read_number m after) (omega (arith, value))

read_number-print_digits :
    (fuel n : ℕ) (after : String)
    → n < fuel
    → read_number 0 (print_digits fuel n after) ≡ read_number n after
unfolding print_digits
read_number-print_digits zero n after h = absurd (omega arith)
read_number-print_digits (suc fuel) n after h = ground (
  arith,
  read_number-digit 0 n after,
  read_number-digit (n / 10) (n % 10) after,
  read_number-print_digits fuel (n / 10) (String.◌∷◌ (digit (n % 10)) after),
)

pub read_number_back :
    (n : ℕ) (after : String)
    → EndsNumber after
    → read_number 0 (print_digits (suc n) n after) ≡ (n, after)
read_number_back n after ends =
    read_number-print_digits (suc n) n after (omega arith) ∙ read_number_stops n after ends
