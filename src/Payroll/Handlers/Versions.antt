-- ===== src/Payroll/Handlers/Versions.antt =====
-- How the versions of a salary structure follow one another.
use mathlib.Core.Path.{subst}
use mathlib.Core.List.{Memᴰ}
use mathlib.Core.List.Memᴰ
use ratel_financial_platform.Prelude.{
  ℕ, ◌+◌, ◌≤◌, ◌≢◌, ◌⊎◌, inl, inr, ltb, All, Bool-cases, Option-cases, Option, some, sym, ap,
  if◌then◌else◌, String, not, none, some, List, [], ◌∷◌, ◌++◌, str_eq, eq_iff, ◌≡◌, refl, ◌∙◌,
  arith,
}
use ratel_financial_platform.Errors.{Failure, ok, throw_if, or_throw, >>=-eq-ok, or_throw-eq-ok}
use ratel_financial_platform.Events.{DomainEvent}
use ratel_financial_platform.Database.{to_date}
use ratel_financial_platform.Payroll.Payslip.{SalaryLineItem}
use ratel_financial_platform.Payroll.SalaryStructure
use ratel_financial_platform.Payroll.SalaryStructure.{SalaryStructureProps, Detail}
use ratel_financial_platform.Payroll.Tables.{
  PayrollDatabase, active_row, set_effective_to, structure_row, find_active_for_employee,
  save_structure, save_next_version,
}
use ratel_financial_platform.Payroll.Handlers.{create_salary_structure_version, enqueue_on}

active_loaded :
    (employee : String) (db : PayrollDatabase) (s : SalaryStructure.SalaryStructure)
    → find_active_for_employee employee db ≡ some s
    → (active_row employee db.structures ≡ some s.props) × (s.events ≡ [])
unfolding find_active_for_employee SalaryStructure.reconstitute
active_loaded employee db s h = ground arith

-- The versions before and after a new one, by the code's own tables.
record Succeeds (org employee : String) (from : ℕ) (db db' : PayrollDatabase) : Type 0 where
  pub previous : SalaryStructureProps
  pub next : SalaryStructureProps
  pub active : active_row employee db.structures ≡ some previous
  pub own : previous.organization_id ≡ org
  pub version : next.version ≡ previous.version + 1
  pub organization : next.organization_id ≡ org
  pub employee_is : next.employee_id ≡ previous.employee_id
  pub starts : next.effective_from ≡ to_date from
  pub is_open : next.effective_to ≡ none
  pub structures :
      db'.structures
      ≡ set_effective_to (record previous { effective_to = some from }) db.structures ++ next ∷ []

saved_structures :
    (shut next : SalaryStructure.SalaryStructure) (db db' : PayrollDatabase)
    → save_next_version shut next db ≡ ok db'
    → db'.structures ≡ set_effective_to shut.props db.structures ++ structure_row next.props ∷ []
unfolding save_next_version save_structure
saved_structures shut next db db' h = ground arith

same_text_required :
    (a b : String) (f : Failure) {u : Unit {0}} → throw_if (not (str_eq a b)) f ≡ ok u → a ≡ b
same_text_required a b f h = let e = eq_iff a b in ground arith

kept_structures :
    (id : String) (events : List DomainEvent) (saved : PayrollDatabase)
    (r : String × PayrollDatabase)
    → ok (id, enqueue_on events saved) ≡ ok r
    → r.1.structures ≡ saved.structures
kept_structures id events saved r h = ground arith

version_added :
    (org employee : String) (from : ℕ) (items : List SalaryLineItem) (new_id : String) (now : ℕ)
    (db db' : PayrollDatabase) (previous : SalaryStructure.SalaryStructure)
    → active_row employee db.structures ≡ some previous.props
    → previous.props.organization_id ≡ org
    → let next = SalaryStructure.create_next_version previous from items new_id now in
      db'.structures
        ≡ set_effective_to
            (SalaryStructure.close next.props.effective_from previous).props
            db.structures
          ++ structure_row next.props ∷ []
      → Succeeds org employee from db db'
unfolding SalaryStructure.create_next_version SalaryStructure.close
version_added org employee from items new_id now db db' previous active own stored = record {
  previous = previous.props;
  next = structure_row (SalaryStructure.create_next_version previous from items new_id now).props;
  active = active;
  own = own;
  version = refl;
  organization = own;
  employee_is = refl;
  starts = refl;
  is_open = refl;
  structures = stored;
}

version_effect :
    (org employee : String) (from : ℕ) (items : List SalaryLineItem) (new_id : String) (now : ℕ)
    (db : PayrollDatabase) (r : String × PayrollDatabase)
    → create_salary_structure_version org employee from items new_id now db ≡ ok r
    → Succeeds org employee from db r.1
unfolding create_salary_structure_version
version_effect org employee from items new_id now db r h =
    let (previous, e0, h0) = >>=-eq-ok (or_throw (find_active_for_employee employee db) _) _ h in
    let (_, e1, h1) =
      >>=-eq-ok (throw_if (not (str_eq previous.props.organization_id org)) _) _ h0 in
    let (saved, e2, h2) = >>=-eq-ok (save_next_version _ _ db) _ h1 in
    let (active, _) = active_loaded employee db previous (or_throw-eq-ok _ _ e0) in
    version_added org employee from items new_id now db r.1 previous active
      (same_text_required previous.props.organization_id org _ e1)
      (kept_structures _ _ saved r h2 ∙ saved_structures _ _ db saved e2)

-- An open version of the employee's, and of those the one with the highest number.
pub record IsActive (employee : String) (rows : List SalaryStructureProps)
    (p : SalaryStructureProps) : Type 0 where
  pub stored : Memᴰ p rows
  pub employee_is : p.employee_id ≡ employee
  pub is_open : p.effective_to ≡ none
  pub highest :
      (q : SalaryStructureProps)
      → Memᴰ q rows
      → q.employee_id ≡ employee
      → q.effective_to ≡ none
      → q.version ≤ p.version

-- Ids are the rows' key: a row is the first one of its id.
abbrev pub IsKeyed : List SalaryStructureProps → Type 0
IsKeyed [] = Unit
IsKeyed (r ∷ rs) = All (λ (q : SalaryStructureProps). q.id ≢ r.id) rs × IsKeyed rs

active-stored :
    (employee : String) (rows : List SalaryStructureProps) (p : SalaryStructureProps)
    → active_row employee rows ≡ some p
    → Memᴰ p rows × (p.employee_id ≡ employee) × (p.effective_to ≡ none)
unfolding active_row
active-stored employee [] p h = absurd (ground (arith, h))
active-stored employee (r ∷ rs) p h = elim (either_row (active_row employee rs) h) [
  | inl (same, own, shut) ↦ (Memᴰ.head same, own, shut)
  | inr e ↦ let (m, own, shut) = active-stored employee rs p e in (Memᴰ.tail m, own, shut)
]
  where
    either_row :
        (rest : Option SalaryStructureProps)
        → (if str_eq r.employee_id employee
            then (elim r.effective_to [
              | some _ ↦ rest
              | none ↦ elim rest [
                | none ↦ some r
                | some s ↦ some (if ltb r.version s.version then s else r)
              ]
            ])
            else rest)
          ≡ some p
        → ((p ≡ r) × (p.employee_id ≡ employee) × (p.effective_to ≡ none)) ⊎ (rest ≡ some p)
    either_row rest h = let e = eq_iff r.employee_id employee in ground arith

active-none :
    (employee : String) (rows : List SalaryStructureProps) (q : SalaryStructureProps)
    → active_row employee rows ≡ none
    → Memᴰ q rows
    → q.employee_id ≡ employee
    → q.effective_to ≢ none
unfolding active_row
active-none employee [] q h m own shut = absurd (Memᴰ.not-nil m)
active-none employee (r ∷ rs) q h (Memᴰ.head same) own shut =
    let e =
      (eq_iff r.employee_id employee).1
        (ap (λ (z : SalaryStructureProps). z.employee_id) (sym same) ∙ own) in
    let f = ap (λ (z : SalaryStructureProps). z.effective_to) (sym same) ∙ shut in
    elim (Option-cases (active_row employee rs)) [
      | inl g ↦ absurd (ground arith)
      | inr (s, g) ↦ absurd (ground arith)
    ]
active-none employee (r ∷ rs) q h (Memᴰ.tail m) own shut =
    elim (Option-cases (active_row employee rs)) [
      | inl g ↦ active-none employee rs q g m own shut
      | inr (s, g) ↦ absurd (ground arith)
    ]

active-highest :
    (employee : String) (rows : List SalaryStructureProps) (p q : SalaryStructureProps)
    → active_row employee rows ≡ some p
    → Memᴰ q rows
    → q.employee_id ≡ employee
    → q.effective_to ≡ none
    → q.version ≤ p.version
unfolding active_row
active-highest employee [] p q h m own shut = absurd (Memᴰ.not-nil m)
active-highest employee (r ∷ rs) p q h (Memᴰ.head same) own shut =
    let e =
      (eq_iff r.employee_id employee).1
        (ap (λ (z : SalaryStructureProps). z.employee_id) (sym same) ∙ own) in
    let f = ap (λ (z : SalaryStructureProps). z.effective_to) (sym same) ∙ shut in
    let g = ap (λ (z : SalaryStructureProps). z.version) same in
    elim (Option-cases (active_row employee rs)) [
      | inl k ↦ ground arith
      | inr (s, k) ↦ ground arith
    ]
active-highest employee (r ∷ rs) p q h (Memᴰ.tail m) own shut =
    elim (Option-cases (active_row employee rs)) [
      | inl k ↦ absurd (active-none employee rs q k m own shut)
      | inr (s, k) ↦ let le = active-highest employee rs s q k m own shut in ground arith
    ]

other_id :
    (rs : List SalaryStructureProps) (r p : SalaryStructureProps)
    → All (λ (q : SalaryStructureProps). q.id ≢ r.id) rs
    → Memᴰ p rs
    → r.id ≢ p.id
other_id [] r p h m e = Memᴰ.not-nil m
other_id (q ∷ rs) r p (ne, h) (Memᴰ.head same) e =
    ne (ap (λ (z : SalaryStructureProps). z.id) (sym same) ∙ sym e)
other_id (q ∷ rs) r p (ne, h) (Memᴰ.tail m) e = other_id rs r p h m e

abbrev ended : ℕ → SalaryStructureProps → SalaryStructureProps
ended from p = record p { effective_to = some (to_date from) }

ended_stored :
    (rows : List SalaryStructureProps) (p : SalaryStructureProps) (from : ℕ)
    → IsKeyed rows
    → Memᴰ p rows
    → Memᴰ (ended from p) (set_effective_to (record p { effective_to = some from }) rows)
unfolding set_effective_to
ended_stored [] p from k m = absurd (Memᴰ.not-nil m)
ended_stored (r ∷ rs) p from (f, k) (Memᴰ.head same) =
    let e = (eq_iff r.id p.id).1 (ap (λ (z : SalaryStructureProps). z.id) (sym same)) in
    rw (set_effective_to, e) (Memᴰ.head (ap (ended from) same))
ended_stored (r ∷ rs) p from (f, k) (Memᴰ.tail m) = elim (Bool-cases (str_eq r.id p.id)) [
  | inl t ↦ absurd (other_id rs r p f m ((eq_iff r.id p.id).0 t))
  | inr t ↦ rw (set_effective_to, t) (Memᴰ.tail (ended_stored rs p from k m))
]

other_kept :
    (rows : List SalaryStructureProps) (p q : SalaryStructureProps)
    → Memᴰ q rows
    → q.id ≢ p.id
    → Memᴰ q (set_effective_to p rows)
unfolding set_effective_to
other_kept [] p q m ne = absurd (Memᴰ.not-nil m)
other_kept (r ∷ rs) p q (Memᴰ.head same) ne = elim (Bool-cases (str_eq r.id p.id)) [
  | inl t ↦ absurd (ne (ap (λ (z : SalaryStructureProps). z.id) same ∙ (eq_iff r.id p.id).0 t))
  | inr t ↦ rw (set_effective_to, t) (Memᴰ.head same)
]
other_kept (r ∷ rs) p q (Memᴰ.tail m) ne = elim (Bool-cases (str_eq r.id p.id)) [
  | inl t ↦ rw (set_effective_to, t) (Memᴰ.tail m)
  | inr t ↦ rw (set_effective_to, t) (Memᴰ.tail (other_kept rs p q m ne))
]

in_front :
    {q : SalaryStructureProps} (xs ys : List SalaryStructureProps) → Memᴰ q xs → Memᴰ q (xs ++ ys)
in_front [] ys m = absurd (Memᴰ.not-nil m)
in_front (x ∷ xs) ys (Memᴰ.head e) = Memᴰ.head e
in_front (x ∷ xs) ys (Memᴰ.tail m) = Memᴰ.tail (in_front xs ys m)

at_end : (xs : List SalaryStructureProps) (q : SalaryStructureProps) → Memᴰ q (xs ++ q ∷ [])
at_end [] q = Memᴰ.head refl
at_end (x ∷ xs) q = Memᴰ.tail (at_end xs q)

-- The rows before and after a new version.
pub record Follows (org employee : String) (from : ℕ) (rows after : List SalaryStructureProps)
    : Type 0 where
  pub previous : SalaryStructureProps
  pub next : SalaryStructureProps
  pub active : IsActive employee rows previous
  pub own : previous.organization_id ≡ org
  pub stored : Memᴰ next after
  pub version : next.version ≡ previous.version + 1
  pub organization : next.organization_id ≡ org
  pub employee_is : next.employee_id ≡ employee
  pub starts : next.effective_from ≡ to_date from
  pub is_open : next.effective_to ≡ none
  pub ends : Memᴰ (record previous { effective_to = some (to_date from) }) after
  pub others : (q : SalaryStructureProps) → Memᴰ q rows → q.id ≢ previous.id → Memᴰ q after

-- A new version of a salary structure, if it is accepted, follows the employee's active version, which is
-- the open one with the highest number and of the organization: the new version is stored, its number is
-- one higher, it is open and starts on the given day, and the version before it is stored as ended on
-- that day, otherwise as it was. All other versions stay as they are. (No two rows share an id.)
pub create_salary_structure_version-eq-ok :
    (org employee : String) (from : ℕ) (items : List SalaryLineItem) (new_id : String) (now : ℕ)
    (db : PayrollDatabase) (r : String × PayrollDatabase)
    → IsKeyed db.structures
    → create_salary_structure_version org employee from items new_id now db ≡ ok r
    → Follows org employee from db.structures r.1.structures
create_salary_structure_version-eq-ok org employee from items new_id now db r keyed h =
    let s = version_effect org employee from items new_id now db r h in
    let (m, own, shut) = active-stored employee db.structures s.previous s.active in
    let shut_rows =
      set_effective_to (record (s.previous) { effective_to = some from }) db.structures in
    record {
      previous = s.previous;
      next = s.next;
      active = record {
        stored = m;
        employee_is = own;
        is_open = shut;
        highest = λ q n e o. active-highest employee db.structures s.previous q s.active n e o;
      };
      own = s.own;
      stored = subst (Memᴰ s.next) (sym s.structures) (at_end shut_rows s.next);
      version = s.version;
      organization = s.organization;
      employee_is = s.employee_is ∙ own;
      starts = s.starts;
      is_open = s.is_open;
      ends =
          subst (Memᴰ (ended from s.previous)) (sym s.structures)
            (in_front shut_rows (s.next ∷ []) (ended_stored db.structures s.previous from keyed m));
      others = λ q n ne. subst (Memᴰ q) (sym s.structures) (
          in_front shut_rows (s.next ∷ [])
            (other_kept db.structures (record (s.previous) { effective_to = some from }) q n ne));
    }
