-- ===== src/Store.antt =====
-- src/client/data/store.ts: the browser's projection of the collaboration ledger.
pub mod Merge
pub mod State
pub mod Activation
pub mod Channels
pub mod Changes
pub mod Reload
pub mod Events
pub mod Histories
pub mod Fences
pub mod Retries
pub mod Paging
pub mod Removal
pub mod Tests
