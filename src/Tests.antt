-- ===== src/Tests.antt =====
-- Runs of the code on concrete data, where each theorem's hypotheses hold.
mod Approval
mod Expenses
mod Periods
mod Payrolls
mod PayrollRuns
mod Books
mod Creations
mod Acceptances
mod Systems
mod Audits
mod Deliveries
mod Keys
mod Permissions
