-- ===== src/Database/Periods/Current.antt =====
-- The current open period, in terms of the rows.
use mathlib.Core.List.{Memᴰ}
use mathlib.Core.List.Memᴰ
use ratel_financial_platform.Prelude.{
  ◌≤◌, String, Bool, true, ◌&&◌, none, some, List, [], ◌∷◌, ◌≡◌, ◌⊎◌, inl, inr, refl, sym, ap, ◌∙◌,
  arith, str_eq, eq_iff, ltb, keep, keep-mem, mem-keep, Bool-cases, Option-cases, All, All-weaken,
}
use ratel_financial_platform.Period.{
  PeriodProps, PeriodStatus, open_status, reopened, reconstitute, includes, open_statuses,
}
use ratel_financial_platform.Database.{Database}
use ratel_financial_platform.Database.Periods.{
  latest, keep_open, find_current_open, current_open_period,
}

abbrev pub IsOpenStatus : PeriodStatus → Type 0
IsOpenStatus s = (s ≡ open_status) ⊎ (s ≡ reopened)

-- A period of the organization that is open or was reopened, and of those one that starts last.
pub record IsCurrent (org id : String) (db : Database) (period : PeriodProps) : Type 0 where
  pub stored : Memᴰ period db.periods
  pub id_is : period.id ≡ id
  pub own : period.organization_id ≡ org
  pub is_open : IsOpenStatus period.status
  pub last :
      (q : PeriodProps)
      → Memᴰ q db.periods
      → q.organization_id ≡ org
      → IsOpenStatus q.status
      → q.start_date ≤ period.start_date

open-IsOpenStatus : (s : PeriodStatus) → includes open_statuses s ≡ true → IsOpenStatus s
open-IsOpenStatus s h = ground arith

IsOpenStatus-open : (s : PeriodStatus) → IsOpenStatus s → includes open_statuses s ≡ true
IsOpenStatus-open s h = ground arith

abbrev is_candidate : String → PeriodProps → Bool
is_candidate org r = str_eq r.organization_id org && includes open_statuses r.status

kept_open :
    (org : String) (rows : List PeriodProps) → keep_open org rows ≡ keep (is_candidate org) rows
kept_open org [] = refl
kept_open org (r ∷ rows) = ground (arith, kept_open org rows)

latest-mem : (rows : List PeriodProps) (r : PeriodProps) → latest rows ≡ some r → Memᴰ r rows
unfolding latest
latest-mem [] r h = absurd (ground (arith, h))
latest-mem (x ∷ xs) r h = elim (Option-cases (latest xs)) [
  | inl e ↦ let same : r ≡ x = ground arith in Memᴰ.head same
  | inr (s, e) ↦ elim (Bool-cases (ltb x.start_date s.start_date)) [
    | inl t ↦ let same : s ≡ r = ground arith in Memᴰ.tail (latest-mem xs r (e ∙ ap some same))
    | inr t ↦ let same : r ≡ x = ground arith in Memᴰ.head same
  ]
]

latest-le :
    (rows : List PeriodProps) (r : PeriodProps)
    → latest rows ≡ some r
    → All (λ (q : PeriodProps). q.start_date ≤ r.start_date) rows
unfolding latest
latest-le [] r h = tt
latest-le (x ∷ xs) r h = elim (Option-cases (latest xs)) [
  | inl e ↦
      let same : x ≡ r = ground arith in
      (ground arith, All-weaken (λ q g. absurd g) xs (none_left xs e))
  | inr (s, e) ↦
      let rest = latest-le xs s e in
      elim (Bool-cases (ltb x.start_date s.start_date)) [
        | inl t ↦
            let same : s ≡ r = ground arith in
            (ground arith, All-weaken (λ q g. ground arith) xs rest)
        | inr t ↦
            let same : x ≡ r = ground arith in
            (ground arith, All-weaken (λ q g. ground arith) xs rest)
      ]
]
  where
    none_left : (rows : List PeriodProps) → latest rows ≡ none → All (λ (q : PeriodProps). ⊥) rows
    none_left [] h = tt
    none_left (y ∷ ys) h = absurd (ground arith)

All-mem :
    {P : PeriodProps → Type 0} (rows : List PeriodProps) (q : PeriodProps)
    → All P rows
    → ((x y : PeriodProps) → x ≡ y → P y → P x)
    → Memᴰ q rows
    → P q
All-mem [] q h move m = absurd (Memᴰ.not-nil m)
All-mem (x ∷ xs) q (p, h) move (Memᴰ.head e) = move q x e p
All-mem (x ∷ xs) q (p, h) move (Memᴰ.tail n) = All-mem xs q h move n

found_latest :
    (org id : String) (db : Database)
    → current_open_period org db ≡ some id
    → (r : PeriodProps) × (latest (keep_open org db.periods) ≡ some r) × (r.id ≡ id)
unfolding current_open_period find_current_open reconstitute
found_latest org id db h = elim (Option-cases (latest (keep_open org db.periods))) [
  | inl e ↦ absurd (ground arith)
  | inr (r, e) ↦ (r, e, ground arith)
]

pub current_open_period-IsCurrent :
    (org id : String) (db : Database)
    → current_open_period org db ≡ some id
    → (period : PeriodProps) × IsCurrent org id db period
current_open_period-IsCurrent org id db h =
    let (r, e, at) = found_latest org id db h in
    let e' : latest (keep (is_candidate org) db.periods) ≡ some r =
      ap latest (sym (kept_open org db.periods)) ∙ e in
    let (m, t) = keep-mem (is_candidate org) db.periods (latest-mem _ r e') in
    (
      r,
      record {
        stored = m;
        id_is = at;
        own = (eq_iff r.organization_id org).0 (ground arith);
        is_open = open-IsOpenStatus r.status (ground arith);
        last = λ q n own open_now.
            let u = (eq_iff q.organization_id org).1 own in
            let v = IsOpenStatus-open q.status open_now in
            All-mem (keep (is_candidate org) db.periods) q (latest-le _ r e')
              (λ x y same le.
                let at' = ap (λ (z : PeriodProps). z.start_date) same in omega (arith, le, at'))
              (mem-keep (is_candidate org) db.periods n (ground arith));
      },
    )
