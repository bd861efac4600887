-- ===== src/Remote.antt =====
-- src/remote.ts: the browser's RPC endpoint and its change stream.
pub mod Payload
pub mod Request
pub mod Dispatch
pub mod Checks
pub mod Validity
pub mod Handler
pub mod Stream
pub mod Errors
pub mod Tags
pub mod Guards
pub mod Admission
pub mod Principal
pub mod Tests
