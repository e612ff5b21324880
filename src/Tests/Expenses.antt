-- ===== src/Tests/Expenses.antt =====
-- An expense through its life, and its corrections.
use ratel_financial_platform.Prelude.{◌≡◌, refl, ◌≢◌, ◌↔◌, true, false, Bool, none, some, [], ◌∷◌}
use ratel_financial_platform.Prelude.Int.{ℤ, pos, negsuc, ◌+ℤ◌, neg}
use ratel_financial_platform.Prelude.Texts.{trim, is_empty_text}
use ratel_financial_platform.Errors.{ok}
use ratel_financial_platform.Money
use ratel_financial_platform.Money.{Money, ngn}
use ratel_financial_platform.Expense.Status.{
  ExpenseStatus, draft, pending_approval, approved, employee,
}
use ratel_financial_platform.Expense.Aggregate.{
  Expense, AdjustmentInput, adjustment_props, adjustment_events, create_adjustment,
}
use ratel_financial_platform.Expense.Lifecycle.{
  cancel_call, approve_call, perform_all, Outcome, perform-Outcome, left_draft_frozen, SameContent,
}
use ratel_financial_platform.Expense.Adjustment.{
  IsAcceptable, create_adjustment_iff, second_adjustment_drifts,
}

abbrev lunch : ExpenseStatus → Expense
lunch status = record {
  props = record {
    id = "e1";
    organization_id = "org";
    expense_number = "EXP-000001";
    status = status;
    source = record { kind = employee; actor_id = "ann"; import_job_id = none };
    amount = record { minor_units = pos 50_000; currency = ngn };
    category_id = "meals";
    vendor_id = none;
    department_id = "sales";
    project_id = none;
    period_id = "p1";
    parent_expense_id = none;
    adjustment_reason = none;
    expense_date = 86_400_000;
    description = some "lunch";
    created_at = 90_000_000;
    updated_at = 90_000_000;
  };
  events = [];
}

perform-Outcome_example : Outcome (cancel_call "ann") 5 (lunch pending_approval)
perform-Outcome_example = perform-Outcome (cancel_call "ann") 5 (lunch pending_approval)

left_draft_frozen_example :
    let e' = perform_all ((cancel_call "ann", 5) ∷ (approve_call "bob", 6) ∷ []) (lunch approved) in
    (e'.props.status ≢ draft) × SameContent (lunch approved).props e'.props
left_draft_frozen_example =
    left_draft_frozen ((cancel_call "ann", 5) ∷ (approve_call "bob", 6) ∷ []) (lunch approved)
      (λ e. cc)

abbrev correction : ℤ → Bool → AdjustmentInput
correction to needed = record {
  original = lunch approved;
  reason = "typo";
  current_open_period_id = "p2";
  expense_number = "EXP-000002";
  new_amount_minor_units = to;
  requires_approval = needed;
}

abbrev down : AdjustmentInput
down = correction (pos 20_000) false

abbrev up : AdjustmentInput
up = correction (pos 60_000) true

abbrev made : AdjustmentInput → ℤ → Expense
made input delta = record {
  props = adjustment_props input (record { minor_units = delta; currency = ngn }) "e2" 7;
  events = adjustment_events input "e2";
}

lowers : create_adjustment down "e2" 7 ≡ ok (made down (negsuc 29_999))
unfolding create_adjustment trim is_empty_text Money.of Money.supported_currency Money.add
    Money.negate Money.is_zero ◌+ℤ◌ neg
lowers = refl

raises : create_adjustment up "e2" 7 ≡ ok (made up (pos 10_000))
unfolding create_adjustment trim is_empty_text Money.of Money.supported_currency Money.add
    Money.negate Money.is_zero ◌+ℤ◌ neg
raises = refl

create_adjustment_iff_example : (create_adjustment down "e2" 7 ≡ ok (made down (negsuc 29_999))) ↔ (
    IsAcceptable down "e2" 7
    × (made down (negsuc 29_999) ≡ record {
      props = record (lunch approved).props {
        id = "e2";
        expense_number = "EXP-000002";
        amount = record { minor_units = negsuc 29_999; currency = ngn };
        period_id = "p2";
        parent_expense_id = some "e1";
        adjustment_reason = some "typo";
        expense_date = 7;
        description = some "Adjustment for EXP-000001: typo";
        created_at = 7;
        updated_at = 7;
      };
      events = adjustment_events down "e2";
    }))
unfolding ◌+ℤ◌ neg
create_adjustment_iff_example = create_adjustment_iff down "e2" 7 (made down (negsuc 29_999))

second_adjustment_drifts_example : pos 50_000 +ℤ negsuc 29_999 +ℤ pos 10_000 ≢ pos 60_000
second_adjustment_drifts_example =
    second_adjustment_drifts down up "e2" "e2" 7 7 (made down (negsuc 29_999))
      (made up (pos 10_000)) refl lowers raises
