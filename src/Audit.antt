-- ===== src/Audit.antt =====
-- The audit trail: shared-kernel/audit and audit-log. The entries are rows of `audit_log_entries`, each
-- tied to the one before it of its organization by a hash.
pub mod HashChain
pub mod Log
pub mod Verifier
pub mod Order
pub mod Stored
pub mod Chain
pub mod Growth
pub mod Covered
pub mod Tampering
pub mod Subscriber
pub mod Listing
