-- ===== src/Domain.antt =====
-- The domain records of crates/atelia-core/src/domain.rs, by kind of record.
pub mod Time
pub mod Ids
pub mod Repository
pub mod Policy
pub mod Job
pub mod Lock
pub mod Migration
pub mod Tool
pub mod Event
pub mod Tests
