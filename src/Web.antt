-- ===== src/Web.antt =====
-- The web client, apps/web/src/a6.
pub mod Timeline
pub mod History
pub mod CatchUp
mod Tests
