-- ===== src/Service.antt =====
-- src/index.ts: `CollabService`.
pub mod Core
pub mod State
pub mod Writes
pub mod Reads
pub mod Agents
pub mod Serve
pub mod Publication
pub mod Operations
pub mod Requests
pub mod Visibility
pub mod Creation
pub mod Lifetime
pub mod Shutdown
pub mod Deletion
mod Tests
