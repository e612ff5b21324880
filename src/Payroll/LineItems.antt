-- ===== src/Payroll/LineItems.antt =====
-- The stored forms of line items and tax computations: serializeLineItems, deserializeLineItems,
-- serializeTaxComputation and deserializeTaxComputation of contexts/payroll/domain/value-objects.
use ratel_financial_platform.Prelude.{String, List, [], ◌∷◌, map, ◌≡◌, refl}
use ratel_financial_platform.Errors.{Result, ok, ◌>>=◌}
use ratel_financial_platform.Money.Json.{MoneyJson, to_json, from_json, from_json-to_json}
use ratel_financial_platform.Payroll.Payslip.{LineItemKind, SalaryLineItem, TaxComputation}

pub record SerializedSalaryLineItem : Type 0 where
  pub kind : LineItemKind
  pub label : String
  pub amount : MoneyJson

pub record SerializedTaxComputation (J : Type 0) : Type 0 where
  pub strategy : String
  pub computed_tax : MoneyJson
  pub breakdown : J

unfoldable pub serialize_line_items : List SalaryLineItem → List SerializedSalaryLineItem
serialize_line_items items =
    map (λ item. record { kind = item.kind; label = item.label; amount = to_json item.amount })
      items

unfoldable pub deserialize_line_items : List SerializedSalaryLineItem → Result (List SalaryLineItem)
deserialize_line_items [] = ok []
deserialize_line_items (item ∷ items) = do
  amount ← from_json item.amount
  rest ← deserialize_line_items items
  ok (record { kind = item.kind; label = item.label; amount = amount } ∷ rest)

module _ {J : Type 0} where
  unfoldable pub serialize_tax_computation : TaxComputation J → SerializedTaxComputation J
  serialize_tax_computation tc = record {
    strategy = tc.strategy;
    computed_tax = to_json tc.computed_tax;
    breakdown = tc.breakdown;
  }

  unfoldable pub deserialize_tax_computation :
      SerializedTaxComputation J → Result (TaxComputation J)
  deserialize_tax_computation tc = do
    tax ← from_json tc.computed_tax
    ok (record { strategy = tc.strategy; computed_tax = tax; breakdown = tc.breakdown })

  deserialize-serialize_tax :
      (tc : TaxComputation J) → deserialize_tax_computation (serialize_tax_computation tc) ≡ ok tc
  unfolding serialize_tax_computation deserialize_tax_computation
  deserialize-serialize_tax tc = rw (from_json-to_json tc.computed_tax)

deserialize-serialize_items :
    (items : List SalaryLineItem) → deserialize_line_items (serialize_line_items items) ≡ ok items
unfolding serialize_line_items deserialize_line_items
deserialize-serialize_items [] = refl
deserialize-serialize_items (item ∷ items) =
    rw (from_json-to_json item.amount, deserialize-serialize_items items)

-- What a salary structure or a payslip stores of its line items and of its tax computation is read
-- back as it was: every list of line items, and every tax computation, survives the two
-- conversions, with every amount exact.
pub deserialize-serialize :
    {J : Type 0} (items : List SalaryLineItem) (tc : TaxComputation J)
    → (deserialize_line_items (serialize_line_items items) ≡ ok items)
      × (deserialize_tax_computation (serialize_tax_computation tc) ≡ ok tc)
deserialize-serialize items tc = (deserialize-serialize_items items, deserialize-serialize_tax tc)
