-- ===== src/Client.antt =====
-- src/client/data/api.ts: the calls of the browser.
pub mod Calls
pub mod Meaning
pub mod Agreement
mod Tests
pub mod Feed
pub mod Sockets
