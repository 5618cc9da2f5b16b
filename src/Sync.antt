-- ===== src/Sync.antt =====
-- The synchronisation of tasks and time entries: src/tasks and src/time-entries.
pub mod Store
pub mod Tasks
pub mod TimeEntries
pub mod Service
pub mod Handlers
pub mod Replacement
pub mod Batches
pub mod Reconciliation
pub mod Steps
pub mod Kept
pub mod Jobs
pub mod JobTests
pub mod Removal
pub mod Once
pub mod Found
pub mod Slices
pub mod Outside
pub mod Untouched
pub mod Stale
pub mod Pruned
pub mod Tests
pub mod ReplacementTests
