-- ===== src/Auth/Service/Properties.antt =====
-- What the methods of `AuthService` promise to their callers.
pub mod Limits
pub mod Revocations
pub mod Challenges
pub mod Errors
