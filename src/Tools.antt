-- ===== src/Tools.antt =====
-- src/tools.ts: the tools that an Agent calls.
pub mod Target
pub mod Resolve
pub mod Reading
pub mod Inbox
pub mod Prompt
pub mod Reference
pub mod Tests
