-- ===== src/Runtime.antt =====
-- src/runtime.ts: `RuntimeManager`, the owner of every Agent Session of the process.
pub mod Policy
pub mod Host
pub mod Manager
pub mod Locks
pub mod Queue
pub mod Held
pub mod Release
pub mod Exclusion
pub mod Turns
pub mod Lifecycle
pub mod Frame
pub mod Leases
pub mod Isolation
pub mod Outcomes
pub mod Fences
pub mod Tests
