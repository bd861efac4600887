-- ===== src/Workspace.antt =====
-- src/agent-workspace.ts: the files of an Agent's workspace.
pub mod Files
pub mod Paths
pub mod Preview
pub mod Seeds
pub mod Confinement
pub mod Contents
pub mod Listing
pub mod Seeding
mod Tests
