-- ===== src/Prelude/Int.antt =====
-- Signed integers of any size (the source's `bigint`) over the native numbers. Sums and orders go
-- through the two parts of an integer, which are numbers that `omega` reads.
use ratel_financial_platform.Prelude.{
  ℕ, suc, ◌+◌, ◌-◌, ◌≤◌, ◌<◌, ◌≡◌, ◌≢◌, ◌↔◌, ap, sym, ◌∙◌, Bool, true, false, ◌&&◌, arith, ltb, leb,
  ◌==◌, if◌then◌else◌,
}

-- `negsuc n` is -(n + 1).
pub data ℤ : Type 0 where
  pos : ℕ → ℤ
  negsuc : ℕ → ℤ

abbrev pub pos_part : ℤ → ℕ
pos_part (pos n) = n
pos_part (negsuc n) = 0

abbrev pub neg_part : ℤ → ℕ
neg_part (pos n) = 0
neg_part (negsuc n) = suc n

-- a - b, as an integer.
abbrev pub sub_ℕ : ℕ → ℕ → ℤ
sub_ℕ a b = if leb b a then pos (a - b) else negsuc (b - a - 1)

infixl 65 ◌+ℤ◌
infix 50 ◌≤ℤ◌ ◌<ℤ◌
unfoldable pub ◌+ℤ◌ : ℤ → ℤ → ℤ
a +ℤ b = sub_ℕ (pos_part a + pos_part b) (neg_part a + neg_part b)

unfoldable pub neg : ℤ → ℤ
neg a = sub_ℕ (neg_part a) (pos_part a)

abbrev pub ◌≤ℤ◌ : ℤ → ℤ → Type 0
a ≤ℤ b = pos_part a + neg_part b ≤ pos_part b + neg_part a

abbrev pub ◌<ℤ◌ : ℤ → ℤ → Type 0
a <ℤ b = pos_part a + neg_part b < pos_part b + neg_part a

abbrev pub ltb_ℤ : ℤ → ℤ → Bool
ltb_ℤ a b = ltb (pos_part a + neg_part b) (pos_part b + neg_part a)

abbrev pub leb_ℤ : ℤ → ℤ → Bool
leb_ℤ a b = leb (pos_part a + neg_part b) (pos_part b + neg_part a)

abbrev pub eqb_ℤ : ℤ → ℤ → Bool
eqb_ℤ a b = pos_part a == pos_part b && neg_part a == neg_part b

-- One lemma for each operation lets `omega` work with the operations shut, at any depth.
pub +ℤ_parts :
    (a b : ℤ)
    → pos_part (a +ℤ b) + neg_part a + neg_part b ≡ neg_part (a +ℤ b) + pos_part a + pos_part b
unfolding ◌+ℤ◌
+ℤ_parts a b = ground arith

pub neg_parts : (a : ℤ) → pos_part (neg a) + pos_part a ≡ neg_part (neg a) + neg_part a
unfolding neg
neg_parts a = ground arith

pub eq_of_parts : (a b : ℤ) → pos_part a + neg_part b ≡ pos_part b + neg_part a → a ≡ b
eq_of_parts a b h = ground arith

pub eqb_ℤ→eq : (a b : ℤ) → eqb_ℤ a b ≡ true → a ≡ b
eqb_ℤ→eq a b h = ground arith

pub ruleset int_laws = (arith, +ℤ_parts, neg_parts, eq_of_parts)

pub diff-zero_iff : (a b : ℤ) → (eqb_ℤ (a +ℤ neg b) (pos 0) ≡ true) ↔ (a ≡ b)
unfolding ◌+ℤ◌ neg
diff-zero_iff a b = ground arith

-- The sign of a difference `d = n - o` that is not zero.
pub diff_sign : (d n o : ℤ) → d +ℤ o ≡ n → n ≢ o → (ltb_ℤ o n ≡ false) ↔ (d <ℤ pos 0)
diff_sign d n o e ne = (
  λ h.
      let not_lt : ¬ (o <ℤ n) = ground arith in
      let differ : ¬ (pos_part n + neg_part o ≡ pos_part o + neg_part n) =
        λ same. ne (eq_of_parts n o same) in
      omega (int_laws, ap pos_part e, ap neg_part e),
  λ h. let le : n ≤ℤ o = omega (int_laws, ap pos_part e, ap neg_part e) in ground arith,
)

-- What is added on both sides, and comes out the same, is zero.
pub cancel_middle : (o a b n : ℤ) → o +ℤ a +ℤ b ≡ n → b +ℤ o ≡ n → a +ℤ o ≡ o
cancel_middle o a b n h k =
    let e : o +ℤ a +ℤ b ≡ b +ℤ o = h ∙ sym k in omega (int_laws, ap pos_part e, ap neg_part e)
