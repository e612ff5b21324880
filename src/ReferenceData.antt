-- ===== src/ReferenceData.antt =====
-- Reference data: reference-data/application and contexts/payroll/application/employee. Departments,
-- vendors, projects and categories have the same columns and handlers, so one definition, given the
-- type's name, stands behind the four of each.
pub mod Named
pub mod Tables
pub mod Employees
pub mod Unique
pub mod Steps
