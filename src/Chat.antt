-- ===== src/Chat.antt =====
-- The message history of the API, apps/api/src/message-flow.
pub mod Failures
pub mod Validation
pub mod History
