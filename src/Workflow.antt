-- ===== src/Workflow.antt =====
-- The approval framework of shared-kernel/workflow, which Expense and Payroll share.
pub mod Chain
pub mod Progress
pub mod Roles
pub mod Engine
pub mod Policies
pub mod Reach
