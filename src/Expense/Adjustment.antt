-- ===== src/Expense/Adjustment.antt =====
-- What an adjustment corrects, when it needs approval, and what a second one does.
use ratel_financial_platform.Prelude.{
  ℕ, String, some, [], ◌∷◌, ◌≡◌, refl, sym, ap, ◌∙◌, ◌≢◌, ◌↔◌, true, false, arith, if◌then◌else◌,
}
use ratel_financial_platform.Prelude.Int.{
  pos, ◌+ℤ◌, neg, ◌≤ℤ◌, ◌<ℤ◌, ltb_ℤ, int_laws, diff-zero_iff, diff_sign, cancel_middle,
}
use ratel_financial_platform.Prelude.Texts.{trim, is_empty_text, concat}
use ratel_financial_platform.Errors.{Failure, ok, ◌>>◌, throw_if}
use ratel_financial_platform.Money.{Money, is_zero, negate}
use ratel_financial_platform.Money.Laws.{of-currency_name, add-same_currency}
use ratel_financial_platform.Expense.Status.{pending_approval, approved}
use ratel_financial_platform.Expense.Aggregate.{
  Expense, AdjustmentInput, adjustment_props, adjustment_events, create_adjustment,
}
use ratel_financial_platform.Workflow.Policies.{requires_approval}

abbrev pub original_amount : AdjustmentInput → Money
original_amount input = input.original.props.amount

-- The delta that is stored: the corrected amount less the original one.
abbrev pub delta_of : AdjustmentInput → Money
delta_of input = record {
  minor_units = input.new_amount_minor_units +ℤ neg (original_amount input).minor_units;
  currency = (original_amount input).currency;
}

module _ (input : AdjustmentInput) (new_id : String) (now : ℕ) where
  create_adjustment_lem : create_adjustment input new_id now ≡ (do
    throw_if (is_empty_text (trim input.reason)) Failure.adjustment_reason_required
    throw_if (ltb_ℤ input.new_amount_minor_units (pos 0)) Failure.invalid_adjustment_amount
    throw_if (is_zero (delta_of input)) (Failure.no_op_adjustment input.original.props.id)
    ok (record {
      props = adjustment_props input (delta_of input) new_id now;
      events = adjustment_events input new_id;
    }))
  unfolding create_adjustment negate
  create_adjustment_lem =
      rw (of-currency_name input.new_amount_minor_units (original_amount input).currency) (
        rw (
          add-same_currency
            (record {
              minor_units = input.new_amount_minor_units;
              currency = (original_amount input).currency;
            })
            (record {
              minor_units = neg (original_amount input).minor_units;
              currency = (original_amount input).currency;
            })
            refl))

  -- When a correction is accepted: the reason is not blank, the corrected amount is not negative and
  -- not the recorded one.
  pub record IsAcceptable : Type 0 where
    pub has_reason : is_empty_text (trim input.reason) ≡ false
    pub not_negative : pos 0 ≤ℤ input.new_amount_minor_units
    pub is_change : input.new_amount_minor_units ≢ (original_amount input).minor_units

  delta-zero_iff :
      (is_zero (delta_of input) ≡ true)
      ↔ (input.new_amount_minor_units ≡ (original_amount input).minor_units)
  unfolding is_zero
  delta-zero_iff = diff-zero_iff input.new_amount_minor_units (original_amount input).minor_units

  abbrev adjusted : Expense
  adjusted = record {
    props = adjustment_props input (delta_of input) new_id now;
    events = adjustment_events input new_id;
  }

  -- A correction is accepted exactly if it is acceptable, and it then produces a new expense: linked to
  -- the original, filed in the given open period, with the corrected amount less the original one, in
  -- its currency; waiting for approval or approved, as asked; with the original's source, category,
  -- vendor, department and project; dated and created now, with the reason recorded.
  pub create_adjustment_iff :
      (a : Expense)
      → (create_adjustment input new_id now ≡ ok a) ↔ (
          IsAcceptable
          × (a ≡ record {
            props = record {
              id = new_id;
              organization_id = input.original.props.organization_id;
              expense_number = input.expense_number;
              status = if input.requires_approval then pending_approval else approved;
              source = input.original.props.source;
              amount = record {
                minor_units =
                    input.new_amount_minor_units +ℤ neg input.original.props.amount.minor_units;
                currency = input.original.props.amount.currency;
              };
              category_id = input.original.props.category_id;
              vendor_id = input.original.props.vendor_id;
              department_id = input.original.props.department_id;
              project_id = input.original.props.project_id;
              period_id = input.current_open_period_id;
              parent_expense_id = some input.original.props.id;
              adjustment_reason = some input.reason;
              expense_date = now;
              description = some (
                  concat (
                    "Adjustment for " ∷ input.original.props.expense_number ∷ ": " ∷ input.reason
                    ∷ []));
              created_at = now;
              updated_at = now;
            };
            events = adjustment_events input new_id;
          }))
  create_adjustment_iff a = rw create_adjustment_lem (
    (λ h. (
      record {
        has_reason = ground arith;
        not_negative = ground arith;
        is_change = ground (arith, delta-zero_iff);
      },
      ground arith,
    )),
    (λ h.
        let e1 = h.0.has_reason in
        let e2 = h.0.not_negative in let e3 = h.0.is_change in ground (arith, delta-zero_iff)),
  )

  -- The original and its adjustment sum to the corrected amount, in one currency.
  pub adjustment_nets :
      (a : Expense)
      → create_adjustment input new_id now ≡ ok a
      → (a.props.amount.minor_units +ℤ (original_amount input).minor_units
          ≡ input.new_amount_minor_units)
        × (a.props.amount.currency ≡ (original_amount input).currency)
  adjustment_nets a h =
      let (_, same) = (create_adjustment_iff a).0 h in rw same (omega int_laws, refl)

  -- Under the adjustment policy an adjustment skips approval exactly if it lowers the amount.
  pub adjustment_auto_approved_iff :
      (a : Expense)
      → input.requires_approval
        ≡ requires_approval input.new_amount_minor_units
            (original_amount input).minor_units
            input.reason
      → create_adjustment input new_id now ≡ ok a
      → (a.props.status ≡ approved) ↔ (a.props.amount.minor_units <ℤ pos 0)
  unfolding requires_approval
  adjustment_auto_approved_iff a policy h =
      let (accepted, same) = (create_adjustment_iff a).0 h in
      let (net, _) = adjustment_nets a h in
      let sign = diff_sign a.props.amount.minor_units _ _ net accepted.is_change in
      let status_is : a.props.status
          ≡ (if input.requires_approval then pending_approval else approved) =
        ap (λ (e : Expense). e.props.status) same in
      (λ e. sign.0 (ground arith), λ lt. let e = sign.1 lt in ground arith)

-- A second adjustment of the same expense is again taken from the original amount: the expense and
-- its two adjustments never sum to the corrected amount that was given last.
pub second_adjustment_drifts :
    (first second : AdjustmentInput) (id1 id2 : String) (now1 now2 : ℕ) (a b : Expense)
    → second.original ≡ first.original
    → create_adjustment first id1 now1 ≡ ok a
    → create_adjustment second id2 now2 ≡ ok b
    → (original_amount first).minor_units
        +ℤ a.props.amount.minor_units
        +ℤ b.props.amount.minor_units
      ≢ second.new_amount_minor_units
second_adjustment_drifts first second id1 id2 now1 now2 a b same h k total =
    let (fine, made) = (create_adjustment_iff first id1 now1 a).0 h in
    let (net1, _) = adjustment_nets first id1 now1 a h in
    let (net2, _) = adjustment_nets second id2 now2 b k in
    let net2' = rw same at net2 in
    fine.is_change (
      sym net1
      ∙ cancel_middle _ a.props.amount.minor_units b.props.amount.minor_units _ total net2')
