-- ===== src/Money/Json.antt =====
-- The JSON form of an amount: `toJSON` and `fromJSON` of shared-kernel/money/money.vo.ts.
use ratel_financial_platform.Prelude.{String, ◌≡◌}
use ratel_financial_platform.Errors.{Result, ok, ◌>>=◌, or_throw, syntax_error}
use ratel_financial_platform.Serialization.Decimal.{
  print_integer, read_integer, read_integer-print_integer,
}
use ratel_financial_platform.Money.{Money, currency_name, of}
use ratel_financial_platform.Money.Laws.{of-currency_name}

pub record MoneyJson : Type 0 where
  pub minor_units : String
  pub currency : String

unfoldable pub to_json : Money → MoneyJson
to_json m = record {
  minor_units = print_integer m.minor_units;
  currency = currency_name m.currency;
}

-- A text that `BigInt` cannot read throws a `SyntaxError`.
unfoldable pub from_json : MoneyJson → Result Money
from_json json = do
  amount ← or_throw (read_integer json.minor_units) (syntax_error json.minor_units)
  of amount json.currency

-- Reading the JSON form of an amount gives the amount back, whatever its size, sign and currency.
pub from_json-to_json : (m : Money) → from_json (to_json m) ≡ ok m
unfolding from_json to_json
from_json-to_json m =
    rw (read_integer-print_integer m.minor_units) (of-currency_name m.minor_units m.currency)
