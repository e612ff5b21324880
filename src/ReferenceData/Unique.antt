-- ===== src/ReferenceData/Unique.antt =====
-- The uniqueness of names in an organization, by the handlers' own checks: the database has a unique
-- index on the pair as well.
use mathlib.Core.Path.{subst}
use ratel_financial_platform.Prelude.{
  String, Bool, false, some, List, [], ◌∷◌, ◌++◌, ◌≡◌, ◌≢◌, sym, ◌∙◌, arith, Bool-cases, inl, inr,
  eq_iff, find, All, All-append,
}
use ratel_financial_platform.Errors.{ok, >>=-eq-ok, throw_if, throw_if-eq-ok, ok-injective}
use ratel_financial_platform.ReferenceData.Named.{
  NamedRow, NamedStore, has_name, has_id, is_some, create_named,
}

-- Two rows have different ids, and no common organization and name.
abbrev pub Apart : NamedRow → NamedRow → Type 0
Apart r s = ((s.organization_id ≡ r.organization_id) → (s.name ≡ r.name) → ⊥) × (s.id ≢ r.id)

abbrev pub IsUnique : List NamedRow → Type 0
IsUnique [] = Unit
IsUnique (r ∷ rows) = All (Apart r) rows × IsUnique rows

pub Apart-flip : (r s : NamedRow) → Apart r s → Apart s r
Apart-flip r s (h, k) = ((λ e f. h (sym e) (sym f)), λ e. k (sym e))

pub find-none :
    (p : NamedRow → Bool) (rows : List NamedRow)
    → is_some (find p rows) ≡ false
    → All (λ r. p r ≡ false) rows
find-none p [] h = tt
find-none p (r ∷ rows) h = elim (Bool-cases (p r)) [
  | inl t ↦ absurd (ground arith)
  | inr f ↦ (f, find-none p rows (ground arith))
]

unnamed :
    (org name : String) (r : NamedRow)
    → has_name org name r ≡ false
    → (r.organization_id ≡ org)
    → (r.name ≡ name)
    → ⊥
unnamed org name r h a b =
    let s = (eq_iff r.organization_id org).1 a in let t = (eq_iff r.name name).1 b in ground arith

append_apart :
    (new : NamedRow) (rows : List NamedRow)
    → All (λ (r : NamedRow). r.id ≢ new.id) rows
    → All (λ r. has_name new.organization_id new.name r ≡ false) rows
    → IsUnique rows
    → IsUnique (rows ++ new ∷ [])
append_apart new [] ids names u = (tt, tt)
append_apart new (r ∷ rows) (i, ids) (n, names) (a, u) = (
  All-append (Apart r) rows (new ∷ []) a
      (((λ e f. unnamed new.organization_id new.name r n (sym e) (sym f)), λ e. i (sym e)), tt),
  append_apart new rows ids names u,
)

-- Creating a record keeps names and ids apart when the database gives it an id that no row has.
pub create_named-IsUnique :
    (type id org name : String) (store after : NamedStore)
    → create_named type id org name store ≡ ok after
    → All (λ (r : NamedRow). r.id ≢ id) store.rows
    → IsUnique store.rows
    → IsUnique after.rows
unfolding create_named
create_named-IsUnique type id org name store after h fresh u =
    let (_, checked, done) =
      >>=-eq-ok (throw_if (is_some (find (has_name org name) store.rows)) _) _ h in
    let free =
      find-none (has_name org name) store.rows
        (throw_if-eq-ok (is_some (find (has_name org name) store.rows)) _ checked) in
    subst (λ (s : NamedStore). IsUnique s.rows) (ok-injective done)
      (append_apart _ store.rows fresh free u)

pub find_id-absent :
    (id org : String) (rows : List NamedRow) (x : NamedRow)
    → All (λ (s : NamedRow). s.id ≢ id) rows
    → find (has_id id org) rows ≡ some x
    → ⊥
find_id-absent id org [] x h e = cc
find_id-absent id org (r ∷ rows) x (q, h) e =
    let other = find_id-absent id org rows x h in let never = eq_iff r.id id in ground arith

pub others-Apart :
    (r : NamedRow) (id : String) (rows : List NamedRow)
    → r.id ≡ id
    → All (Apart r) rows
    → All (λ (s : NamedRow). s.id ≢ id) rows
others-Apart r id [] e h = tt
others-Apart r id (s ∷ rows) e ((_, differ), h) =
    ((λ f. differ (f ∙ sym e)), others-Apart r id rows e h)
