-- ===== src/Serialization/KeyOrder.antt =====
-- The order of `sort` on keys.
use Prim.Native.Char.{code}
use mathlib.Core.Path.{ap₂}
use text.Mathlib.TextEquality.{Char-path}
use ratel_financial_platform.Prelude.{String, true, false, ◌≡◌, refl, arith}
use ratel_financial_platform.Serialization.Json.{key_before}

pub key_before_asym : (a b : String) → key_before a b ≡ true → key_before b a ≡ false
unfolding key_before
key_before_asym String.[] String.[] h = cc
key_before_asym String.[] (String.◌∷◌ d t) h = refl
key_before_asym (String.◌∷◌ c s) String.[] h = cc
key_before_asym (String.◌∷◌ c s) (String.◌∷◌ d t) h = ground (arith, key_before_asym s t)

pub key_before_total : (a b : String) → key_before a b ≡ false → key_before b a ≡ false → a ≡ b
unfolding key_before
key_before_total String.[] String.[] h k = refl
key_before_total String.[] (String.◌∷◌ d t) h k = cc
key_before_total (String.◌∷◌ c s) String.[] h k = cc
key_before_total (String.◌∷◌ c s) (String.◌∷◌ d t) h k =
    let same_code : code c ≡ code d = ground arith in
    let same_rest : s ≡ t = key_before_total s t (ground arith) (ground arith) in
    ap₂ String.◌∷◌ (Char-path c d same_code) same_rest

-- A key that is not before another is before all that the other is before.
pub key_before_trans :
    (f b a : String) → key_before f b ≡ false → key_before f a ≡ true → key_before b a ≡ true
unfolding key_before
key_before_trans String.[] b String.[] h k = cc
key_before_trans (String.◌∷◌ c s) b String.[] h k = cc
key_before_trans String.[] String.[] (String.◌∷◌ e u) h k = refl
key_before_trans String.[] (String.◌∷◌ d t) (String.◌∷◌ e u) h k = cc
key_before_trans (String.◌∷◌ c s) String.[] (String.◌∷◌ e u) h k = refl
key_before_trans (String.◌∷◌ c s) (String.◌∷◌ d t) (String.◌∷◌ e u) h k =
    ground (arith, key_before_trans s t u)
