-- ===== src/Payroll.antt =====
-- The Payroll context: contexts/payroll.
pub mod LineItems
pub mod Payslip
pub mod Run
pub mod SalaryStructure
pub mod Tables
pub mod Handlers
