-- ===== src/Money/Laws.antt =====
-- Laws of money arithmetic: currencies never mix, and sums of one currency form a group.
use ratel_financial_platform.Prelude.{
  String, Option-cases, inl, inr, ◌≡◌, refl, ◌≢◌, ◌↔◌, true, some, arith,
}
use ratel_financial_platform.Prelude.Int.{ℤ, ◌+ℤ◌}
use ratel_financial_platform.Errors.{ok, err, currency_mismatch}
use ratel_financial_platform.Money.{
  CurrencyCode, ngn, usd, eur, gbp, currency_name, supported_currency, Money, same_currency, of,
  add,
}

pub supported_currency-currency_name :
    (c : CurrencyCode) → supported_currency (currency_name c) ≡ some c
unfolding supported_currency
supported_currency-currency_name ngn = refl
supported_currency-currency_name usd = refl
supported_currency-currency_name eur = refl
supported_currency-currency_name gbp = refl

pub of-currency_name :
    (n : ℤ) (c : CurrencyCode)
    → of n (currency_name c) ≡ ok (record { minor_units = n; currency = c })
unfolding of
of-currency_name n c = rw (supported_currency-currency_name c)

pub same_currency_iff : (c d : CurrencyCode) → (same_currency c d ≡ true) ↔ (c ≡ d)
same_currency_iff c d = ground arith

pub add-same_currency :
    (a b : Money)
    → a.currency ≡ b.currency
    → add a b ≡ ok (record { minor_units = a.minor_units +ℤ b.minor_units; currency = a.currency })
unfolding add
add-same_currency a b e = rw ((same_currency_iff a.currency b.currency).1 e)

pub add-currency_mismatch :
    (a b : Money)
    → a.currency ≢ b.currency
    → add a b ≡ err (currency_mismatch (currency_name a.currency) (currency_name b.currency))
unfolding add
add-currency_mismatch a b e = ground (arith, same_currency_iff a.currency b.currency)

-- A sum exists only of amounts in one currency.
pub add-eq-ok :
    (a b : Money) {m : Money}
    → add a b ≡ ok m
    → (b.currency ≡ a.currency)
      × (m.minor_units ≡ a.minor_units +ℤ b.minor_units)
      × (m.currency ≡ a.currency)
unfolding add
add-eq-ok a b h = (ground arith, ground arith, ground arith)

pub of-eq-ok :
    (n : ℤ) (name : String) {m : Money}
    → of n name ≡ ok m
    → (supported_currency name ≡ some m.currency) × (m.minor_units ≡ n)
unfolding of
of-eq-ok n name h = elim (Option-cases (supported_currency name)) [
  | inl none_such ↦ absurd (ground arith)
  | inr (c, e) ↦ (ground arith, ground arith)
]
