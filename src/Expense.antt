-- ===== src/Expense.antt =====
-- The Expense context: contexts/expense.
pub mod Status
pub mod Events
pub mod Aggregate
pub mod Lifecycle
pub mod Adjustment
