-- ===== src/Delivery.antt =====
-- src/delivery.ts: the level-triggered bridge from durable wakes to the current Agents.
pub mod Scan
pub mod Bridge
pub mod Wakes
pub mod Levels
pub mod Tests
