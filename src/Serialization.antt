-- ===== src/Serialization.antt =====
-- Values as JSON: shared-kernel/serialization/canonical-json.ts, and what JavaScript does when it
-- prints numbers, dates and JSON.
pub mod Decimal
pub mod Dates
pub mod Json
pub mod Canonical
pub mod KeyOrder
pub mod KeyFree
pub mod Parse
pub mod RoundTrip
pub mod ReadBack
pub mod Faithful
pub mod Lookup
