-- ===== src/Money.antt =====
-- The money value object: shared-kernel/money/money.vo.ts and currency-code.ts. An amount is an
-- integer of any size in minor units. `of` takes the `bigint` form of its argument.
pub mod Json
pub mod Laws
use ratel_financial_platform.Prelude.{
  String, Bool, true, false, ◌&&◌, Option, none, some, str_eq, if◌then◌else◌,
}
use ratel_financial_platform.Prelude.Int.{ℤ, pos, ◌+ℤ◌, neg, ltb_ℤ, eqb_ℤ}
use ratel_financial_platform.Errors.{
  Result, ok, err, ◌>>=◌, ◌>>◌, throw_if, or_throw, invalid_currency, currency_mismatch,
}

-- SUPPORTED_CURRENCIES
pub data CurrencyCode : Type 0 where
  ngn usd eur gbp : CurrencyCode

abbrev pub currency_name : CurrencyCode → String
currency_name ngn = "NGN"
currency_name usd = "USD"
currency_name eur = "EUR"
currency_name gbp = "GBP"

-- `isSupportedCurrency`, as the member of the closed union that it narrows to
unfoldable pub supported_currency : String → Option CurrencyCode
supported_currency value =
    if str_eq value "NGN"
    then some ngn
    else if str_eq value "USD"
    then some usd
    else if str_eq value "EUR"
    then some eur
    else if str_eq value "GBP"
    then some gbp
    else none

pub record Money : Type 0 where
  pub minor_units : ℤ
  pub currency : CurrencyCode

-- `===` on currency codes
abbrev pub same_currency : CurrencyCode → CurrencyCode → Bool
same_currency ngn ngn = true
same_currency usd usd = true
same_currency eur eur = true
same_currency gbp gbp = true
same_currency _ _ = false

unfoldable pub of : ℤ → String → Result Money
of amount currency = do
  code ← or_throw (supported_currency currency) (invalid_currency currency)
  ok (record { minor_units = amount; currency = code })

unfoldable pub is_zero : Money → Bool
is_zero m = eqb_ℤ m.minor_units (pos 0)

unfoldable pub is_negative : Money → Bool
is_negative m = ltb_ℤ m.minor_units (pos 0)

unfoldable pub assert_same_currency : Money → Money → Result (Unit {0})
assert_same_currency m other =
    if same_currency m.currency other.currency
    then ok tt
    else err (currency_mismatch (currency_name m.currency) (currency_name other.currency))

unfoldable pub add : Money → Money → Result Money
unfolding assert_same_currency
add m other = do
  assert_same_currency m other
  ok (record { minor_units = m.minor_units +ℤ other.minor_units; currency = m.currency })

unfoldable pub negate : Money → Money
negate m = record { minor_units = neg m.minor_units; currency = m.currency }

unfoldable pub equals : Money → Money → Bool
equals m other = eqb_ℤ m.minor_units other.minor_units && same_currency m.currency other.currency
