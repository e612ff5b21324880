-- ===== src/Serialization/Decimal.antt =====
-- JavaScript's decimal texts of whole numbers: `BigInt.prototype.toString`, and `BigInt(text)` on
-- decimal texts (the white space and the other bases that `BigInt` reads are refused here).
use Prim.Native.Char.{Char, code}
use Prim.Native.Nat.{◌/◌, ◌%◌}
use mathlib.Core.Path.{subst}
use ratel_financial_platform.Prelude.{
  ℕ, zero, suc, ◌+◌, ◌-◌, ◌*◌, ◌<◌, String, Bool, true, false, ◌&&◌, Option, none, some, ◌≡◌, refl,
  ap, sym, ◌∙◌, arith, Bool-cases, inl, inr, ltb, leb, ◌==◌, if◌then◌else◌,
}
use ratel_financial_platform.Prelude.Int.{ℤ, pos, negsuc}

unfoldable pub digit : ℕ → Char
digit zero = "0"
digit (suc zero) = "1"
digit (suc (suc zero)) = "2"
digit (suc (suc (suc zero))) = "3"
digit (suc (suc (suc (suc zero)))) = "4"
digit (suc (suc (suc (suc (suc zero))))) = "5"
digit (suc (suc (suc (suc (suc (suc zero)))))) = "6"
digit (suc (suc (suc (suc (suc (suc (suc zero))))))) = "7"
digit (suc (suc (suc (suc (suc (suc (suc (suc zero)))))))) = "8"
digit _ = "9"

-- The digits of a number before a text; a number has no more of them than its value and one.
unfoldable pub print_digits : ℕ → ℕ → String → String
print_digits zero n after = after
print_digits (suc fuel) n after =
    let rest = print_digits fuel (n / 10) (String.◌∷◌ (digit (n % 10)) after) in
    if ltb n 10 then String.◌∷◌ (digit n) after else rest

unfoldable pub print_natural : ℕ → String
print_natural n = print_digits (suc n) n ""

unfoldable pub print_integer : ℤ → String
print_integer (pos n) = print_natural n
print_integer (negsuc n) = String.◌∷◌ "-" (print_natural (suc n))

abbrev pub is_digit : Char → Bool
is_digit c = leb 48 (code c) && leb (code c) 57

unfoldable pub read_digits : ℕ → String → Option ℕ
read_digits n String.[] = some n
read_digits n (String.◌∷◌ c rest) =
    let more = read_digits (n * 10 + (code c - 48)) rest in if is_digit c then more else none

abbrev pub negated : Option ℕ → Option ℤ
negated none = none
negated (some zero) = some (pos 0)
negated (some (suc n)) = some (negsuc n)

abbrev pub positive : Option ℕ → Option ℤ
positive none = none
positive (some n) = some (pos n)

unfoldable pub read_integer : String → Option ℤ
read_integer String.[] = some (pos 0)
read_integer (String.◌∷◌ c rest) =
    if code c == 45
    then negated (read_digits 0 rest)
    else positive (read_digits 0 (String.◌∷◌ c rest))

pub code-digit : (d : ℕ) → d < 10 → code (digit d) ≡ 48 + d
unfolding digit
code-digit zero h = refl
code-digit (suc zero) h = refl
code-digit (suc (suc zero)) h = refl
code-digit (suc (suc (suc zero))) h = refl
code-digit (suc (suc (suc (suc zero)))) h = refl
code-digit (suc (suc (suc (suc (suc zero))))) h = refl
code-digit (suc (suc (suc (suc (suc (suc zero)))))) h = refl
code-digit (suc (suc (suc (suc (suc (suc (suc zero))))))) h = refl
code-digit (suc (suc (suc (suc (suc (suc (suc (suc zero)))))))) h = refl
code-digit (suc (suc (suc (suc (suc (suc (suc (suc (suc zero))))))))) h = refl
code-digit (suc (suc (suc (suc (suc (suc (suc (suc (suc (suc d)))))))))) h = absurd (omega arith)

read_digits-digit :
    (n d : ℕ) (after : String)
    → d < 10
    → read_digits n (String.◌∷◌ (digit d) after) ≡ read_digits (n * 10 + d) after
unfolding read_digits
read_digits-digit n d after h = ground (arith, code-digit d h)

read_digits-print_digits :
    (fuel n : ℕ) (after : String)
    → n < fuel
    → read_digits 0 (print_digits fuel n after) ≡ read_digits n after
unfolding print_digits
read_digits-print_digits zero n after h = absurd (omega arith)
read_digits-print_digits (suc fuel) n after h = ground (
  arith,
  read_digits-digit 0 n after,
  read_digits-digit (n / 10) (n % 10) after,
  read_digits-print_digits fuel (n / 10) (String.◌∷◌ (digit (n % 10)) after),
)

-- A number's text starts with a digit, so it is not taken for a negative one.
pub print_digits_start :
    (fuel n : ℕ) (after : String)
    → n < fuel
    → (c : Char) × (rest : String) × (print_digits fuel n after ≡ String.◌∷◌ c rest)
      × (is_digit c ≡ true)
unfolding print_digits
print_digits_start zero n after h = absurd (omega arith)
print_digits_start (suc fuel) n after h = elim (Bool-cases (ltb n 10)) [
  | inl small ↦ (
    digit n,
    after,
    ap
        (λ b.
          if b
          then String.◌∷◌ (digit n) after
          else print_digits fuel (n / 10) (String.◌∷◌ (digit (n % 10)) after))
        small,
    ground (arith, code-digit n),
  )
  | inr large ↦
      let (c, rest, same, sign) =
        print_digits_start fuel (n / 10) (String.◌∷◌ (digit (n % 10)) after) (ground arith) in
      (
        c,
        rest,
        ap
              (λ b.
                if b
                then String.◌∷◌ (digit n) after
                else print_digits fuel (n / 10) (String.◌∷◌ (digit (n % 10)) after))
              large
            ∙ same,
        sign,
      )
]

print_natural_start :
    (n : ℕ)
    → (c : Char) × (rest : String) × (print_natural n ≡ String.◌∷◌ c rest) × (is_digit c ≡ true)
unfolding print_natural
print_natural_start n = print_digits_start (suc n) n "" (omega arith)

read_natural : (n : ℕ) → read_digits 0 (print_natural n) ≡ some n
unfolding print_natural read_digits
read_natural n = read_digits-print_digits (suc n) n "" (omega arith)

unsigned :
    (text : String) (c : Char) (rest : String) {n : ℕ}
    → text ≡ String.◌∷◌ c rest
    → is_digit c ≡ true
    → read_digits 0 text ≡ some n
    → read_integer text ≡ some (pos n)
unfolding read_integer
unsigned text c rest {n} same told reads =
    subst (λ t. read_digits 0 t ≡ some n → read_integer t ≡ some (pos n)) (sym same)
      (λ r.
        let unsigned_head : (code c == 45) ≡ false = ground arith in
        ap
          (λ b.
            if b
            then negated (read_digits 0 rest)
            else positive (read_digits 0 (String.◌∷◌ c rest)))
          unsigned_head
        ∙ ap positive r)
      reads

pub read_integer-print_integer : (n : ℤ) → read_integer (print_integer n) ≡ some n
unfolding print_integer read_integer
read_integer-print_integer (pos n) =
    let (c, rest, same, sign) = print_natural_start n in
    unsigned (print_natural n) c rest same sign (read_natural n)
read_integer-print_integer (negsuc n) = ap negated (read_natural (suc n))
