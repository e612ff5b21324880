-- ===== src/Database/Periods.antt =====
-- contexts/financial-period/infrastructure: persistence/prisma-financial-period.repository.ts and
-- adapters/period-status.adapter.ts, over the rows of `financial_periods`.
pub mod Laws
pub mod Current
use ratel_financial_platform.Prelude.{
  ℕ, String, Bool, true, false, not, ◌&&◌, Option, none, some, List, [], ◌∷◌, str_eq, ◌==◌, ltb,
  find, any, if◌then◌else◌,
}
use ratel_financial_platform.Errors.{
  Result, ok, err, ◌>>=◌, ◌>>◌, throw_if, unique_violation, check_violation,
}
use ratel_financial_platform.Period.{
  PeriodProps, FinancialPeriod, reconstitute, is_open, includes, open_statuses,
}
use ratel_financial_platform.Database.{Database, to_date}

unfoldable pub find_row : String → List PeriodProps → Option PeriodProps
find_row id rows = find (λ (r : PeriodProps). str_eq r.id id) rows

-- `toDomain` on a row that may be missing
abbrev pub to_domain : Option PeriodProps → Option FinancialPeriod
to_domain none = none
to_domain (some row) = some (reconstitute row)

unfoldable pub find_by_id : String → Database → Option FinancialPeriod
find_by_id id db = to_domain (find_row id db.periods)

unfoldable pub find_by_id_for_organization : String → String → Database → Option FinancialPeriod
find_by_id_for_organization id org db =
    to_domain
      (find (λ (r : PeriodProps). str_eq r.id id && str_eq r.organization_id org) db.periods)

-- `orderBy: { startDate: 'desc' }` and the first
unfoldable pub latest : List PeriodProps → Option PeriodProps
latest [] = none
latest (r ∷ rs) = elim (latest rs) [
  | none ↦ some r
  | some s ↦ some (if ltb r.start_date s.start_date then s else r)
]

abbrev pub keep_open : String → List PeriodProps → List PeriodProps
keep_open org [] = []
keep_open org (r ∷ rs) = elim (str_eq r.organization_id org && includes open_statuses r.status) [
  | true ↦ r ∷ keep_open org rs
  | false ↦ keep_open org rs
]

unfoldable pub find_current_open : String → Database → Option FinancialPeriod
find_current_open org db = to_domain (latest (keep_open org db.periods))

-- `update` sets the status and who closed the period when; `create` stores the days.
abbrev pub updated : PeriodProps → PeriodProps → PeriodProps
updated p row = record row {
  status = p.status;
  closed_by_id = p.closed_by_id;
  closed_at = p.closed_at;
}

abbrev pub to_row : PeriodProps → PeriodProps
to_row p = record p { start_date = to_date p.start_date; end_date = to_date p.end_date }

unfoldable pub upsert : PeriodProps → List PeriodProps → List PeriodProps
upsert p [] = to_row p ∷ []
upsert p (row ∷ rows) = elim (str_eq row.id p.id) [
  | true ↦ updated p row ∷ rows
  | false ↦ row ∷ upsert p rows
]

-- Another row of the organization has the same two days (the index `uq_org_period`).
unfoldable pub is_taken : PeriodProps → List PeriodProps → Bool
is_taken p rows =
    any
      (λ (r : PeriodProps).
        not (str_eq r.id p.id)
        && (str_eq r.organization_id p.organization_id
            && (r.start_date == to_date p.start_date && r.end_date == to_date p.end_date)))
      rows

-- An update does not change the columns of the index, so only a `create` can violate it.
abbrev pub is_stored : String → List PeriodProps → Bool
is_stored id rows = any (λ (r : PeriodProps). str_eq r.id id) rows

-- `chk_period_dates`, on the two days that a `create` stores
abbrev pub has_days : PeriodProps → Bool
has_days p = ltb (to_date p.start_date) (to_date p.end_date)

unfoldable pub save : FinancialPeriod → Database → Result Database
save p db = do
  throw_if (not (is_stored p.props.id db.periods) && not (has_days p.props))
      (check_violation "chk_period_dates")
  throw_if (not (is_stored p.props.id db.periods) && is_taken p.props db.periods)
      (unique_violation "uq_org_period")
  ok (record db { periods = upsert p.props db.periods })

-- `PeriodStatusAdapter.isOpen`
unfoldable pub period_is_open : String → String → Database → Bool
period_is_open org period_id db = elim (find_by_id period_id db) [
  | none ↦ false
  | some p ↦ if not (str_eq p.props.organization_id org) then false else is_open p
]

-- `PeriodStatusAdapter.currentOpenPeriod`; its callers use the id only.
unfoldable pub current_open_period : String → Database → Option String
current_open_period org db = elim (find_current_open org db) [
  | none ↦ none
  | some p ↦ some p.props.id
]
