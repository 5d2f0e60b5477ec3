-- ===== src/Realtime.antt =====
-- The delivery of events: packages/contracts/src/realtime.ts and apps/worker/src/realtime.
pub mod Deduplicator
pub mod Window
pub mod Relay
pub mod Acknowledged
mod Tests
