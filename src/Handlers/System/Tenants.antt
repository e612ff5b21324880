-- ===== src/Handlers/System/Tenants.antt =====
-- No command reaches the expenses of another organization.
use ratel_financial_platform.Prelude.{String, none, some, ◌≡◌, ◌≢◌, sym, ap, ◌∙◌}
use ratel_financial_platform.Expense.Aggregate.{ExpenseProps}
use ratel_financial_platform.Database.{Database}
use ratel_financial_platform.Database.Expenses.{find_row, upsert}
use ratel_financial_platform.Database.Expenses.Laws.{find_row-upsert_other, find_row-id}
use ratel_financial_platform.Handlers.System.{Command, organization_of, Steps, unchanged, commits}
use ratel_financial_platform.Handlers.Expenses.Laws.{Touches}
use ratel_financial_platform.Handlers.Expenses.Creation.{Files}
use ratel_financial_platform.Handlers.System.Effect.{
  Effect, files, touches, opens, closes, reopens, execute-Effect,
}

-- An expense found before a save under another id is found after it.
pub survives :
    (id : String) (p row : ExpenseProps) (db db' : Database)
    → db'.expenses ≡ upsert p db.expenses
    → p.id ≢ id
    → find_row id db.expenses ≡ some row
    → find_row id db'.expenses ≡ some row
survives id p row db db' stored ne found =
    ap (find_row id) stored ∙ (find_row-upsert_other p id db.expenses ne ∙ found)

-- The id of a touched expense finds the row that was touched.
pub touched_row :
    {org id : String} {db db' : Database} {r p : ExpenseProps} (x : String) (row : ExpenseProps)
    → Touches org id db db' r p
    → p.id ≡ x
    → find_row x db.expenses ≡ some row
    → r ≡ row
touched_row {org} {id} {db} {db'} {r} x row t same found =
    let at : id ≡ x = sym (find_row-id id db.expenses r t.found) ∙ (sym t.identity.id ∙ same) in
    let both : some r ≡ some row = sym t.found ∙ (ap (λ z. find_row z db.expenses) at ∙ found) in cc

-- A new expense has an id that finds nothing yet.
pub filed_elsewhere :
    {org id : String} {db db' : Database} {p : ExpenseProps} (x : String) (row : ExpenseProps)
    → find_row id db.expenses ≡ none
    → Files org id db db' p
    → find_row x db.expenses ≡ some row
    → p.id ≢ x
filed_elsewhere {org} {id} {db} x row fresh f found same =
    let none_found : none ≡ some row =
      sym fresh ∙ (ap (λ z. find_row z db.expenses) (sym f.id ∙ same) ∙ found) in
    cc

isolated :
    (c : Command) (db db' : Database) (x : String) (row : ExpenseProps)
    → Effect c db db'
    → row.organization_id ≢ organization_of c
    → find_row x db.expenses ≡ some row
    → find_row x db'.expenses ≡ some row
isolated c db db' x row (files {id} {p} fresh f) other found =
    survives x p row db db' f.stored (filed_elsewhere x row fresh f found) found
isolated c db db' x row (touches {id} {row = r} {p} t) other found =
    survives x p row db db' t.stored
      (λ same. other (
        ap (λ (q : ExpenseProps). q.organization_id) (sym (touched_row x row t same found))
        ∙ t.own))
      found
isolated c db db' x row (opens _ s) other found = ap (find_row x) s.expenses ∙ found
isolated c db db' x row (closes _ s) other found = ap (find_row x) s.expenses ∙ found
isolated c db db' x row (reopens _ s) other found = ap (find_row x) s.expenses ∙ found

-- No sequence of commands given for other organizations, in which the ids that handlers make up are
-- new to their tables, changes an expense of this one in any way.
pub tenants_isolated :
    (org : String) (before after : Database) (x : String) (row : ExpenseProps)
    → row.organization_id ≡ org
    → Steps (λ c. organization_of c ≢ org) before after
    → find_row x before.expenses ≡ some row
    → find_row x after.expenses ≡ some row
tenants_isolated org before after x row own unchanged found = found
tenants_isolated org before after x row own (commits {between} steps c other fresh h) found =
    isolated c between after x row (execute-Effect c between after fresh h)
      (λ same. other (sym same ∙ own)) (tenants_isolated org before between x row own steps found)
