-- ===== src/Store.antt =====
-- The in-memory ledger store, crates/atelia-core/src/store.rs, by kind of operation. A mutator
-- takes the draft of the state and returns the next state with its result, or an error, upon
-- which the draft is dropped (Store/Mutate.antt).
pub mod State
pub mod Checks
pub mod JobUpdate
pub mod Subjects
pub mod EventRefs
pub mod Publish
pub mod Paths
pub mod Mutate
pub mod Ledger
pub mod Repositories
pub mod Locks
pub mod Migrations
pub mod Tools
pub mod Query
pub mod Snapshot
pub mod Loaded
pub mod Calls
pub mod Tests
