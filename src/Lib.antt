-- ===== src/Lib.antt =====
-- The core of the Ratel financial platform (a NestJS service): expenses, their approval, the
-- financial periods that they are filed in, payroll runs, and what carries and keeps the record of
-- them: the outbox, the audit trail, and the answers kept for repeated requests.
--
-- The parts and their files, from the repository's root:
--   Money                 src/shared-kernel/money: amounts in minor units, integers of any size; Json:
--                         their JSON form.
--   Errors                src/shared-kernel/errors and the error classes beside each component, as
--                         values; `Result` is a call that returns or throws.
--   Serialization         src/shared-kernel/serialization: Json (toJsonSafe, sortKeysDeep), Canonical
--                         (the text of a value, canonicalStringify), with the JavaScript texts of
--                         numbers (Decimal) and dates (Dates); Parse (JSON.parse), ReadBack and
--                         RoundTrip: reading back; KeyOrder, KeyFree, Lookup and Faithful: values up to
--                         the order of keys.
--   Authorization         src/auth/authorization and src/shared-kernel/auth: the permission guard (Guard),
--                         and whom it lets in (Permitted).
--   Workflow              src/shared-kernel/workflow: Chain (ApprovalChain), Progress
--                         (ApprovalProgress), Engine (WorkflowEngine); Roles
--                         (src/auth/authorization/prisma-user-role.service.ts); Policies (the approval
--                         policies of the contexts); Reach: what the engine can bring about.
--   Events                src/shared-kernel/events/domain-event.ts: the events that an aggregate
--                         records, and the before/after diff it adds to them (Diff); Audited: what of it
--                         the audit subscriber lifts out again.
--   Expense               src/contexts/expense/domain: the aggregate (Aggregate), its state machine
--                         (Lifecycle) and corrections (Adjustment).
--   Period                src/contexts/financial-period/domain.
--   Payroll               src/contexts/payroll/domain: Payslip, Run, SalaryStructure and the stored
--                         forms of line items (LineItems); its tables (Tables,
--                         infrastructure/persistence) and command handlers (Handlers, application); Steps,
--                         Versions: what they leave in the tables.
--   ReferenceData         src/reference-data: the handlers of departments, vendors, projects and
--                         categories (Named, Tables), and those of employees (Employees,
--                         src/contexts/payroll/application/employee); Unique and Steps: names.
--   Database              prisma/schema.prisma and the repositories that read and write it: Expenses,
--                         Periods (with the adapter PeriodStatusAdapter; Current: the open one)
--                         and Approvals.
--   Handlers              the command handlers of src/contexts/expense/application and
--                         src/contexts/financial-period/application; Expenses.Outcomes and
--                         Expenses.Filed: the rows that they leave; System: all of them on one
--                         database, in any order.
--   Delivery              src/shared-kernel/outbox and src/shared-kernel/events: the relay of stored
--                         events (Outbox), the registry of subscribers (Dispatcher), the failed
--                         deliveries (Deliveries), their job (Redelivery, with
--                         src/jobs/processors/event-redelivery.processor.ts) and the operator's calls
--                         (Operator, src/event-deliveries); Recorded, Settles and Names.
--   Audit                 src/shared-kernel/audit and src/audit-log: HashChain (the hashed texts), Log
--                         (AuditLogService), Subscriber, Listing, Verifier (ChainVerifierService);
--                         Order, Stored, Chain, Growth, Covered and Tampering: chains of entries.
--   Idempotency           src/idempotency: Store (over Redis), Interceptor, whose writes land later or
--                         never; Once.
--   Tests                 runs on concrete data.
--
-- How they meet: a handler enqueues the events of its aggregates in the outbox; the relay gives them to
-- the subscribers, one of which writes the audit trail; a subscriber that throws leaves a row that the
-- redelivery job works off. Where a part needs another only through what it gives back, the other is a
-- parameter.
--
-- A method that mutates an aggregate returns the new aggregate. A handler takes the database that its
-- transaction starts from and returns the one that it commits, or throws, and then nothing is
-- committed. Whole transactions follow one another: the interleaving of two transactions under READ
-- COMMITTED is not modelled, nor is that of two subscribers of one event. The ids and times that
-- `randomUUID()`, the database and `new Date()` give are parameters; times are milliseconds.
--
-- Parameters that stand for other code: `sha256` (node's digest of a text), `jsonb` (what PostgreSQL
-- gives back for a stored JSON value: the same but for the order of keys), `run` (the subscribers),
-- `add_job` (the queue's `add`, which may throw), `fault` (where the database throws in a poll of the
-- outbox), `handle` (the rest of a request's handling) and
-- `scope_of` (what the registered provider says of a resource).
--
-- Fuel: printing a whole number has one step more than the number is large; `parse` has two steps for
-- each character; a redelivery job has as many runs as BullMQ is told to give it.
--
-- Limits of the serialization: JSON numbers are whole; no key of an object is an array index (those
-- JavaScript lists first) or `__proto__` (`result[key] = ...` does not make that an own key, so
-- toJsonSafe and sortKeysDeep lose what stands under it); a date is in the years 1970 to 9999, and
-- `BigInt` reads decimal texts only. What is said of texts and hashes is said of such values.
--
-- Limits of the events: the payload of an event is what the aggregate gives to `recordEvent`; the
-- `changes` that `recordEvent` adds for an aggregate that was read back are in Events, and are not in
-- the events that the aggregates' operations and the outbox carry here.
--
-- Prelude holds the shared helpers: native numbers, integers over them, texts and lists.
--
-- Not modelled: foreign keys, the CHECK constraints of expenses and payslips, the queries and listings of expenses, periods and payroll runs,
-- attachments, the encryption of columns, logging and the counts that are only logged, and the parts
-- around this core (sign-in and tokens, imports, reporting, notifications, controllers with their
-- DTOs).
pub mod Prelude
pub mod Errors
pub mod Money
pub mod Serialization
pub mod Audit
pub mod Delivery
pub mod ReferenceData
pub mod Idempotency
pub mod Authorization
pub mod Workflow
pub mod Events
pub mod Expense
pub mod Period
pub mod Payroll
pub mod Database
pub mod Handlers
mod Tests
