-- ===== src/Serialization/Lookup.antt =====
-- The value at a key of an object, and the order of its keys.
use ratel_financial_platform.Prelude.{
  String, Bool, true, false, Option, none, some, ◌≡◌, refl, sym, ◌∙◌, str_eq, eq_iff,
}
use ratel_financial_platform.Serialization.Json.{
  JsonValue, JsonFields, text, object, no_fields, field,
}
use ratel_financial_platform.Serialization.KeyFree.{
  SameValue, SameFields, same, in_object, fields_end, fields_step, exchange, chained, fields_refl,
  trans_value,
}

abbrev pub lookup : String → JsonFields → Option JsonValue
lookup key no_fields = none
lookup key (field key' v fs) = elim (str_eq key' key) [ true ↦ some v | false ↦ lookup key fs ]

abbrev pub SameFound : Option JsonValue → Option JsonValue → Type 0
SameFound none none = Unit
SameFound (some v) (some w) = SameValue v w
SameFound _ _ = ⊥

SameFound-refl : (o : Option JsonValue) → SameFound o o
SameFound-refl none = tt
SameFound-refl (some v) = same

SameFound-trans : (a b c : Option JsonValue) → SameFound a b → SameFound b c → SameFound a c
SameFound-trans none none none h k = tt
SameFound-trans (some u) (some v) (some w) h k = trans_value h k
SameFound-trans none none (some w) h k = absurd k
SameFound-trans none (some v) c h k = absurd h
SameFound-trans (some u) none c h k = absurd h
SameFound-trans (some u) (some v) none h k = absurd k

found_step :
    (b : Bool) {v w : JsonValue} (o p : Option JsonValue)
    → SameValue v w
    → SameFound o p
    → SameFound (elim b [ true ↦ some v | false ↦ o ]) (elim b [ true ↦ some w | false ↦ p ])
found_step true o p h k = h
found_step false o p h k = k

found_exchange :
    (b c : Bool) (v w : JsonValue) (o : Option JsonValue)
    → ((b ≡ true) → (c ≡ true) → ⊥)
    → SameFound
        (elim b [ true ↦ some v | false ↦ elim c [ true ↦ some w | false ↦ o ] ])
        (elim c [ true ↦ some w | false ↦ elim b [ true ↦ some v | false ↦ o ] ])
found_exchange true true v w o never = absurd (never refl refl)
found_exchange true false v w o never = same
found_exchange false true v w o never = same
found_exchange false false v w o never = SameFound-refl o

pub lookup_same :
    {fs gs : JsonFields}
    → SameFields fs gs
    → (key : String) → SameFound (lookup key fs) (lookup key gs)
lookup_same fields_end key = tt
lookup_same (fields_step key' h hs) key = found_step (str_eq key' key) _ _ h (lookup_same hs key)
lookup_same (exchange a b v w fs differ) key =
    found_exchange (str_eq a key) (str_eq b key) v w (lookup key fs)
      (λ s t. differ ((eq_iff a key).0 s ∙ sym ((eq_iff b key).0 t)))
lookup_same (chained {gs} h k) key =
    SameFound-trans _ (lookup key gs) _ (lookup_same h key) (lookup_same k key)

pub object_same : {fs gs : JsonFields} → SameValue (object fs) (object gs) → SameFields fs gs
object_same {fs} same = fields_refl fs
object_same (in_object h) = h

pub text_same : {a b : String} → SameValue (text a) (text b) → a ≡ b
text_same same = refl
