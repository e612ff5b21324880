-- ===== src/Prelude/Texts.antt =====
-- Texts: JavaScript's `trim`, and joining.
use Prim.Native.Char.{code}
use Prim.Native.String
use Prim.Native.String.{String}
use mathlib.Core.List.{List, [], ◌∷◌}
use Prim.Native.Nat.{ℕ}
use mathlib.Core.Bool.{Bool, true, false, ◌&&◌, ◌||◌}
use ratel_financial_platform.Prelude.{
  ◌==◌, leb, if◌then◌else◌, ◌≡◌, ◌≢◌, ◌⊎◌, inl, inr, Bool-cases, str_eq, eq_iff,
}

-- The parts of a template literal, joined.
abbrev pub concat : List String → String
concat [] = ""
concat (s ∷ ss) = String.◌++◌ s (concat ss)

-- The white space and line ends that `trim` strips.
pub is_space : ℕ → Bool
is_space c =
    (leb 9 c && leb c 13)
    || c == 32
    || c == 160
    || c == 5760
    || (leb 8192 c && leb c 8202)
    || c == 8232
    || c == 8233
    || c == 8239
    || c == 8287
    || c == 12288
    || c == 65279

unfoldable pub is_empty_text : String → Bool
is_empty_text String.[] = true
is_empty_text (String.◌∷◌ c s) = false

trim_start : String → String
trim_start String.[] = String.[]
trim_start (String.◌∷◌ c s) = elim (is_space (code c)) [
  | true ↦ trim_start s
  | false ↦ String.◌∷◌ c s
]

trim_end : String → String
trim_end String.[] = String.[]
trim_end (String.◌∷◌ c s) =
    let rest = trim_end s in
    if is_space (code c) && is_empty_text rest then String.[] else String.◌∷◌ c rest

unfoldable pub trim : String → String
unfolding is_space trim_start trim_end is_empty_text
trim s = trim_end (trim_start s)

-- Two texts are equal or not.
pub same_text : (a b : String) → (a ≡ b) ⊎ (a ≢ b)
same_text a b = elim (Bool-cases (str_eq a b)) [
  | inl t ↦ inl ((eq_iff a b).0 t)
  | inr f ↦ inr (λ e. let back = (eq_iff a b).1 e in cc)
]
