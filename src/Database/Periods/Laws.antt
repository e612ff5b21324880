-- ===== src/Database/Periods/Laws.antt =====
-- What a saved period is found as, and that saving it leaves the other periods alone.
use ratel_financial_platform.Prelude.{
  String, true, ◌&&◌, some, List, [], ◌∷◌, str_eq, eq_iff, ◌≡◌, ◌≢◌, arith, find,
}
use ratel_financial_platform.Errors.{ok}
use ratel_financial_platform.Period.{
  PeriodProps, FinancialPeriod, reconstitute, is_open, includes, open_statuses,
}
use ratel_financial_platform.Database.{Database}
use ratel_financial_platform.Database.Periods.{
  find_row, find_by_id, to_domain, updated, upsert, save, period_is_open,
}

-- Saving a period leaves what is found under any other id as it was.
pub find_row-upsert_other :
    (p : PeriodProps) (id : String) (rows : List PeriodProps)
    → p.id ≢ id
    → find_row id (upsert p rows) ≡ find_row id rows
unfolding find_row upsert
find_row-upsert_other p id [] ne = let e = eq_iff p.id id in ground arith
find_row-upsert_other p id (row ∷ rows) ne =
    let e = eq_iff row.id id in
    let f = eq_iff row.id p.id in let rest = find_row-upsert_other p id rows ne in ground arith

-- Saving a period over the row that its id finds changes the columns of an update there.
pub find_row-upsert_same :
    (p : PeriodProps) (rows : List PeriodProps) (row : PeriodProps)
    → find_row p.id rows ≡ some row
    → find_row p.id (upsert p rows) ≡ some (updated p row)
unfolding find_row upsert
find_row-upsert_same p [] row h = ground arith
find_row-upsert_same p (first ∷ rows) row h =
    let rest = find_row-upsert_same p rows row in ground arith

pub find_row-id :
    (id : String) (rows : List PeriodProps) (row : PeriodProps)
    → find_row id rows ≡ some row
    → row.id ≡ id
unfolding find_row
find_row-id id [] row h = ground arith
find_row-id id (first ∷ rows) row h =
    let e = eq_iff first.id id in let rest = find_row-id id rows row in ground arith

pub save-eq-ok :
    (p : FinancialPeriod) (db db' : Database)
    → save p db ≡ ok db'
    → db' ≡ record db { periods = upsert p.props db.periods }
unfolding save
save-eq-ok p db db' h = ground arith

-- A period is reported open exactly if its row is of the organization and its status is open.
pub period_is_open-eq-true :
    (org id : String) (db : Database) (row : PeriodProps)
    → find_row id db.periods ≡ some row
    → period_is_open org id db ≡ true
    → (row.organization_id ≡ org) × (includes open_statuses row.status ≡ true)
unfolding period_is_open find_by_id is_open reconstitute
period_is_open-eq-true org id db row h k = let e = eq_iff row.organization_id org in ground arith

-- What the lookup within an organization finds is a row of that id and organization.
pub find_for_organization :
    (id org : String) (rows : List PeriodProps) (p : FinancialPeriod)
    → to_domain (find (λ (r : PeriodProps). str_eq r.id id && str_eq r.organization_id org) rows)
      ≡ some p
    → (p.props.id ≡ id) × (p.props.organization_id ≡ org) × (p.events ≡ [])
unfolding reconstitute
find_for_organization id org [] p h = ground arith
find_for_organization id org (r ∷ rows) p h =
    let e = eq_iff r.id id in
    let f = eq_iff r.organization_id org in
    let rest = find_for_organization id org rows p in ground arith
