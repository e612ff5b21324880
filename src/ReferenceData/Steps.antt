-- ===== src/ReferenceData/Steps.antt =====
-- The uniqueness of names under sequences of the handlers' calls.
use mathlib.Core.Path.{subst}
use ratel_financial_platform.Prelude.{
  String, false, not, ◌&&◌, some, List, [], ◌∷◌, ◌≡◌, ◌≢◌, sym, ◌∙◌, arith, Bool-cases, inl, inr,
  str_eq, eq_iff, find, All,
}
use ratel_financial_platform.Errors.{
  ok, >>=-eq-ok, throw_if, throw_if-eq-ok, or_throw, or_throw-eq-ok, ok-injective,
}
use ratel_financial_platform.ReferenceData.Named.{
  NamedRow, NamedStore, has_name, has_id, is_some, update_row, renamed, deactivated, create_named,
  update_named, deactivate_named,
}
use ratel_financial_platform.ReferenceData.Unique.{
  Apart, Apart-flip, IsUnique, find-none, find_id-absent, others-Apart, create_named-IsUnique,
}

-- A change of the row of an id keeps rows apart if it does so for rows that are `Free`.
module _ (id : String) (change : NamedRow → NamedRow) (Free : NamedRow → Type 0)
    (from_changed : (r s : NamedRow)
      → r.id ≡ id
      → Free r
      → Free s
      → s.id ≢ id
      → Apart r s
      → Apart (change r) s × Apart s (change r)) where
  Apart-from_changed :
      (r : NamedRow) (rows : List NamedRow)
      → r.id ≡ id
      → Free r
      → All Free rows
      → All (Apart r) rows
      → All (Apart (change r)) rows
  Apart-from_changed r [] e own f h = tt
  Apart-from_changed r (s ∷ rows) e own (g, f) (a, h) = (
    (from_changed r s e own g (λ same. a.1 (same ∙ sym e)) a).0,
    Apart-from_changed r rows e own f h,
  )

  Apart-to_changed :
      (r : NamedRow) (rows : List NamedRow)
      → r.id ≢ id
      → Free r
      → All Free rows
      → All (Apart r) rows
      → All (Apart r) (update_row id change rows)
  unfolding update_row
  Apart-to_changed r [] ne own f h = tt
  Apart-to_changed r (s ∷ rows) ne own (g, f) (a, h) = elim (Bool-cases (str_eq s.id id)) [
    | inl t ↦ rw t ((from_changed s r ((eq_iff s.id id).0 t) g own ne (Apart-flip r s a)).1, h)
    | inr t ↦ rw t (a, Apart-to_changed r rows ne own f h)
  ]

  update_row-IsUnique :
      (rows : List NamedRow) → All Free rows → IsUnique rows → IsUnique (update_row id change rows)
  unfolding update_row
  update_row-IsUnique [] f u = tt
  update_row-IsUnique (r ∷ rows) (g, f) (a, u) = elim (Bool-cases (str_eq r.id id)) [
    | inl t ↦ rw t (Apart-from_changed r rows ((eq_iff r.id id).0 t) g f a, u)
    | inr t ↦ rw t (
      Apart-to_changed r rows (λ e. let back = (eq_iff r.id id).1 e in cc) g f a,
      update_row-IsUnique rows f u,
    )
  ]

-- What the checks of an update tell of a row: it does not have the name already, and the row of the
-- id is the organization's.
abbrev IsFree : String → String → String → NamedRow → Type 0
IsFree id org name r =
    ((has_name org name r && not (str_eq r.id id)) ≡ false)
    × ((r.id ≡ id) → r.organization_id ≡ org)

owned :
    (id org : String) (rows : List NamedRow) (x : NamedRow)
    → IsUnique rows
    → find (has_id id org) rows ≡ some x
    → All (λ (r : NamedRow). (r.id ≡ id) → r.organization_id ≡ org) rows
owned id org [] x u e = tt
owned id org (r ∷ rows) x (a, u) e = elim (Bool-cases (has_id id org r)) [
  | inl t ↦
      let own_id : r.id ≡ id = (eq_iff r.id id).0 (ground arith) in
      (
        (λ _. (eq_iff r.organization_id org).0 (ground arith)),
        vacuous id org rows (others-Apart r id rows own_id a),
      )
  | inr f ↦ (
    (λ own. absurd (find_id-absent id org rows x (others-Apart r id rows own a) (ground arith))),
    owned id org rows x u (ground arith),
  )
]
  where
    vacuous :
        (id org : String) (rows : List NamedRow)
        → All (λ (s : NamedRow). s.id ≢ id) rows
        → All (λ (r : NamedRow). (r.id ≡ id) → r.organization_id ≡ org) rows
    vacuous id org [] h = tt
    vacuous id org (s ∷ rows) (ne, h) = ((λ e. absurd (ne e)), vacuous id org rows h)

both :
    (P Q : NamedRow → Type 0) (rows : List NamedRow)
    → All P rows
    → All Q rows
    → All (λ r. P r × Q r) rows
both P Q [] h k = tt
both P Q (r ∷ rows) (p, h) (q, k) = ((p, q), both P Q rows h k)

free_name :
    (id org name : String) (r : NamedRow)
    → IsFree id org name r
    → r.id ≢ id
    → (r.organization_id ≡ org)
    → (r.name ≡ name)
    → ⊥
free_name id org name r (f, _) ne e g =
    let s = (eq_iff r.organization_id org).1 e in
    let t = (eq_iff r.name name).1 g in let never = eq_iff r.id id in ground arith

renamed-Apart :
    (id org name : String) (r s : NamedRow)
    → r.id ≡ id
    → IsFree id org name r
    → IsFree id org name s
    → s.id ≢ id
    → Apart r s
    → Apart (renamed name r) s × Apart s (renamed name r)
renamed-Apart id org name r s e own f ne (_, ids) =
    let mine = own.1 e in
    (
      ((λ o n. free_name id org name s f ne (o ∙ mine) n), ids),
      ((λ o n. free_name id org name s f ne (sym o ∙ mine) (sym n)), λ i. ids (sym i)),
    )

update_named-IsUnique :
    (type id org name : String) (store after : NamedStore)
    → update_named type id org name store ≡ ok after
    → IsUnique store.rows
    → IsUnique after.rows
unfolding update_named
update_named-IsUnique type id org name store after h u =
    let (row, loaded, h') = >>=-eq-ok (or_throw (find (has_id id org) store.rows) _) _ h in
    let clash =
      is_some (find (λ (r : NamedRow). has_name org name r && not (str_eq r.id id)) store.rows) in
    let (_, checked, done) = >>=-eq-ok (throw_if clash _) _ h' in
    let free =
      find-none (λ (r : NamedRow). has_name org name r && not (str_eq r.id id)) store.rows
        (throw_if-eq-ok clash _ checked) in
    let mine =
      owned id org store.rows row u (or_throw-eq-ok (find (has_id id org) store.rows) _ loaded) in
    subst (λ (s : NamedStore). IsUnique s.rows) (ok-injective done)
      (update_row-IsUnique id (renamed name) (IsFree id org name) (renamed-Apart id org name)
        store.rows (both _ _ store.rows free mine) u)

anything : (rows : List NamedRow) → All (λ _. Unit {0}) rows
anything [] = tt
anything (r ∷ rows) = (tt, anything rows)

deactivate_named-IsUnique :
    (type id org actor : String) (store after : NamedStore)
    → deactivate_named type id org actor store ≡ ok after
    → IsUnique store.rows
    → IsUnique after.rows
unfolding deactivate_named
deactivate_named-IsUnique type id org actor store after h u =
    let (row, _, done) = >>=-eq-ok (or_throw (find (has_id id org) store.rows) _) _ h in
    subst (λ (s : NamedStore). IsUnique s.rows) (ok-injective done)
      (update_row-IsUnique id deactivated (λ _. Unit {0}) (λ r s _ _ _ _ a. (a, Apart-flip r s a))
        store.rows (anything store.rows) u)

-- What the handlers of a type may do to its table, one after another.
pub data NamedSteps (type : String) (start : NamedStore) : NamedStore → Type 0 where
  begin : NamedSteps type start start
  create :
      {store after : NamedStore} (id org name : String)
      → NamedSteps type start store
      → All (λ (r : NamedRow). r.id ≢ id) store.rows
      → create_named type id org name store ≡ ok after
      → NamedSteps type start after
  update :
      {store after : NamedStore} (id org name : String)
      → NamedSteps type start store
      → update_named type id org name store ≡ ok after
      → NamedSteps type start after
  deactivate :
      {store after : NamedStore} (id org actor : String)
      → NamedSteps type start store
      → deactivate_named type id org actor store ≡ ok after
      → NamedSteps type start after

-- In every table that the handlers reach from one where no two rows share an id, or an organization
-- and a name, no two rows do, when each created row gets an id that no row has.
pub NamedSteps-IsUnique :
    (type : String) (start after : NamedStore)
    → NamedSteps type start after
    → IsUnique start.rows
    → IsUnique after.rows
NamedSteps-IsUnique type start after begin u = u
NamedSteps-IsUnique type start after (create {store} id org name steps fresh h) u =
    create_named-IsUnique type id org name store after h fresh
      (NamedSteps-IsUnique type start store steps u)
NamedSteps-IsUnique type start after (update {store} id org name steps h) u =
    update_named-IsUnique type id org name store after h
      (NamedSteps-IsUnique type start store steps u)
NamedSteps-IsUnique type start after (deactivate {store} id org actor steps h) u =
    deactivate_named-IsUnique type id org actor store after h
      (NamedSteps-IsUnique type start store steps u)
