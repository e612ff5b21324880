-- ===== src/Prelude/Lists.antt =====
-- Lists measured by native numbers, searched by Boolean tests, and predicates over them.
use Prim.Native.Nat.{ℕ, zero, suc, ◌+◌}
use mathlib.Core.Path.{◌≡◌, refl, sym, ap, ◌∙◌}
use mathlib.Core.Logic.{inl, inr}
use mathlib.Core.List.{Memᴰ}
use mathlib.Core.List.Memᴰ
use mathlib.Core.Bool.{Bool, true, false, ◌||◌}
use mathlib.Core.List.{List, [], ◌∷◌, ◌++◌}
use mathlib.Core.Option.{Option, none, some}
use native.Mathlib.Omega.{arith}
use ratel_financial_platform.Prelude.Tests.{Bool-cases}

module _ {ℓ} {A : Type ℓ} where
  abbrev pub length : List A → ℕ
  length [] = 0
  length (x ∷ xs) = suc (length xs)

  pub length-append : (xs ys : List A) → length (xs ++ ys) ≡ length xs + length ys
  length-append [] ys = omega arith
  length-append (x ∷ xs) ys = omega (arith, length-append xs ys)

  -- `Array.prototype.some`
  abbrev pub any : (A → Bool) → List A → Bool
  any p [] = false
  any p (x ∷ xs) = p x || any p xs

  -- A test that some element passes is passed by an element.
  pub any-true : (p : A → Bool) (xs : List A) → any p xs ≡ true → (x : A) × Memᴰ x xs × (p x ≡ true)
  any-true p [] h = absurd (ground (arith, h))
  any-true p (x ∷ xs) h = elim (Bool-cases (p x)) [
    | inl t ↦ (x, Memᴰ.head refl, t)
    | inr f ↦ let (y, m, t) = any-true p xs (ground arith) in (y, Memᴰ.tail m, t)
  ]

  pub true-any : (p : A → Bool) {x : A} {xs : List A} → Memᴰ x xs → p x ≡ true → any p xs ≡ true
  true-any p (Memᴰ.head e) t = let h = ap p (sym e) ∙ t in ground arith
  true-any p (Memᴰ.tail m) t = let h = true-any p m t in ground arith

  -- `Array.prototype.filter`
  abbrev pub keep : (A → Bool) → List A → List A
  keep p [] = []
  keep p (x ∷ xs) = elim (p x) [ true ↦ x ∷ keep p xs | false ↦ keep p xs ]

  kept_first :
      (p : A → Bool) {x : A} (y : A) (xs : List A) (b : Bool)
      → p y ≡ b
      → (Memᴰ x (keep p xs) → Memᴰ x xs × (p x ≡ true))
      → Memᴰ x (elim b [ true ↦ y ∷ keep p xs | false ↦ keep p xs ])
      → Memᴰ x (y ∷ xs) × (p x ≡ true)
  kept_first p y xs true t rest (Memᴰ.head e) = (Memᴰ.head e, ap p e ∙ t)
  kept_first p y xs true t rest (Memᴰ.tail n) = let (k, u) = rest n in (Memᴰ.tail k, u)
  kept_first p y xs false t rest n = let (k, u) = rest n in (Memᴰ.tail k, u)

  pub keep-mem :
      (p : A → Bool) {x : A} (xs : List A) → Memᴰ x (keep p xs) → Memᴰ x xs × (p x ≡ true)
  keep-mem p [] m = absurd (Memᴰ.not-nil m)
  keep-mem p (y ∷ xs) m = kept_first p y xs (p y) refl (keep-mem p xs) m

  first_kept :
      (p : A → Bool) {x : A} (y : A) (xs : List A) (b : Bool)
      → p y ≡ b
      → p x ≡ true
      → (Memᴰ x xs → Memᴰ x (keep p xs))
      → Memᴰ x (y ∷ xs)
      → Memᴰ x (elim b [ true ↦ y ∷ keep p xs | false ↦ keep p xs ])
  first_kept p y xs true t u rest (Memᴰ.head e) = Memᴰ.head e
  first_kept p y xs true t u rest (Memᴰ.tail n) = Memᴰ.tail (rest n)
  first_kept p y xs false t u rest (Memᴰ.head e) = let v = ap p e in absurd (ground arith)
  first_kept p y xs false t u rest (Memᴰ.tail n) = rest n

  pub mem-keep : (p : A → Bool) {x : A} (xs : List A) → Memᴰ x xs → p x ≡ true → Memᴰ x (keep p xs)
  mem-keep p [] m t = absurd (Memᴰ.not-nil m)
  mem-keep p (y ∷ ys) m t = first_kept p y ys (p y) refl t (λ n. mem-keep p ys n t) m

  -- The first so many elements, and those after them.
  abbrev pub take : ℕ → List A → List A
  take zero xs = []
  take (suc n) [] = []
  take (suc n) (x ∷ xs) = x ∷ take n xs

  abbrev pub drop : ℕ → List A → List A
  drop zero xs = xs
  drop (suc n) [] = []
  drop (suc n) (x ∷ xs) = drop n xs

  -- `Array.prototype.find`
  abbrev pub find : (A → Bool) → List A → Option A
  find p [] = none
  find p (x ∷ xs) = elim (p x) [ true ↦ some x | false ↦ find p xs ]

module _ {ℓ κ} {A : Type ℓ} (P : A → Type κ) where
  abbrev pub All : List A → Type κ
  All [] = Unit
  All (x ∷ xs) = P x × All xs

  pub All-append : (xs ys : List A) → All xs → All ys → All (xs ++ ys)
  All-append [] ys _ k = k
  All-append (x ∷ xs) ys (p, h) k = (p, All-append xs ys h k)

pub All-weaken :
    {A : Type 0} {P Q : A → Type 0} → ((x : A) → P x → Q x) → (xs : List A) → All P xs → All Q xs
All-weaken f [] h = tt
All-weaken f (x ∷ xs) (p, h) = (f x p, All-weaken f xs h)
