-- ===== src/Handlers/Periods.antt =====
-- contexts/financial-period/application/handlers: open-period, close-period and reopen-period.
pub mod Laws
use ratel_financial_platform.Prelude.{ℕ, String}
use ratel_financial_platform.Errors.{Result, ok, err, ◌>>=◌, ◌>>◌, or_throw, entity_not_found}
use ratel_financial_platform.Period
use ratel_financial_platform.Period.{FinancialPeriod}
use ratel_financial_platform.Database.{Database, enqueue}
use ratel_financial_platform.Database.Periods

-- `repo.save` and `outbox.enqueue(period.pullDomainEvents())`
unfoldable pub commit : FinancialPeriod → Database → Result Database
commit p db = do saved ← Periods.save p db; ok (enqueue p.events saved)

-- `findByIdForOrganization`, or `EntityNotFoundError`
unfoldable pub load : String → String → Database → Result FinancialPeriod
load period_id org db =
    or_throw (Periods.find_by_id_for_organization period_id org db)
      (entity_not_found "FinancialPeriod" period_id)

-- `OpenPeriodHandler.execute`
unfoldable pub open_period : String → ℕ → ℕ → String → ℕ → Database → Result (String × Database)
open_period org start_date end_date new_id now db = do
  p ← Period.create org start_date end_date new_id now
  saved ← commit p db
  ok (p.props.id, saved)

-- `ClosePeriodHandler.execute`
unfoldable pub close_period : String → String → String → ℕ → Database → Result Database
close_period period_id org closed_by now db = do
  p ← load period_id org db
  closed ← Period.close closed_by now p
  commit closed db

-- `ReopenPeriodHandler.execute`
unfoldable pub reopen_period : String → String → String → String → Database → Result Database
reopen_period period_id org reopened_by reason db = do
  p ← load period_id org db
  reopened ← Period.reopen reopened_by reason p
  commit reopened db
