-- ===== src/Tests/Books.antt =====
-- A database with a closed and an open period, four expenses and one progress.
use ratel_financial_platform.Prelude.{true, none, String, List, [], ◌∷◌}
use ratel_financial_platform.Prelude.Int.{pos}
use ratel_financial_platform.Errors.{Result, ok, err}
use ratel_financial_platform.Money.{ngn}
use ratel_financial_platform.Workflow.Policies.{step}
use ratel_financial_platform.Workflow.Chain.{department}
use ratel_financial_platform.Expense.Status.{
  ExpenseStatus, draft, pending_approval, approved, employee,
}
use ratel_financial_platform.Expense.Aggregate.{ExpenseProps}
use ratel_financial_platform.Period.{PeriodProps, PeriodStatus, open_status, closed}
use ratel_financial_platform.Database.{Database, ReferenceRow, ApprovalRow}

abbrev pub period : String → PeriodStatus → PeriodProps
period id status = record {
  id = id;
  organization_id = "org";
  start_date = 0;
  end_date = 864_000_000;
  status = status;
  closed_by_id = none;
  closed_at = none;
  created_at = 1;
}

abbrev pub expense : String → String → ExpenseStatus → String → ExpenseProps
expense id org status period_id = record {
  id = id;
  organization_id = org;
  expense_number = id;
  status = status;
  source = record { kind = employee; actor_id = "ann"; import_job_id = none };
  amount = record { minor_units = pos 50_000; currency = ngn };
  category_id = "meals";
  vendor_id = none;
  department_id = "sales";
  project_id = none;
  period_id = period_id;
  parent_expense_id = none;
  adjustment_reason = none;
  expense_date = 86_400_000;
  description = none;
  created_at = 2;
  updated_at = 2;
}

abbrev pub active : String → List ReferenceRow
active id = record { id = id; organization_id = "org"; is_active = true } ∷ []

abbrev pub waiting : ApprovalRow
waiting = record {
  item_id = "e2";
  item_type = "Expense";
  chain = step 1 "department_head" department ∷ [];
  records = [];
}

abbrev pub books : Database
books = record {
  expenses =
      expense "e1" "org" draft "p2"
      ∷ expense "e2" "org" pending_approval "p2"
      ∷ expense "e3" "org" approved "p1"
      ∷ expense "e4" "else" draft "p3"
      ∷ [];
  sequences = record { organization_id = "org"; next_value = 5 } ∷ [];
  periods = period "p1" closed ∷ period "p2" open_status ∷ [];
  approvals = waiting ∷ [];
  outbox = [];
  departments = active "sales";
  categories = active "meals";
  vendors = [];
  projects = [];
  roles = record {
    department_rows =
        record {
          user_id = "bob";
          role = "department_head";
          department_id = "sales";
          organization_id = "org";
        }
        ∷ [];
    organization_rows = [];
  };
}

-- The database that a run leaves, or else the one it started from.
abbrev pub left : Result Database → Database
left (ok db) = db
left (err _) = books

abbrev pub left_with : {A : Type 0} → A → Result (A × Database) → A × Database
left_with a (ok r) = r
left_with a (err _) = (a, books)
