-- ===== src/Handlers.antt =====
-- The command handlers. Each runs in one transaction: `execute` takes the database as it is when the
-- transaction starts, and what it returns is committed, or it throws and nothing is. Other parameters
-- are the values that `randomUUID()` and `new Date()` return.
pub mod Expenses
pub mod Periods
pub mod System
