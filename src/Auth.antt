-- ===== src/Auth.antt =====
-- The authentication service, apps/auth/src/a2.
pub mod Types
pub mod Repository
pub mod RateLimiter
pub mod Service
pub mod PasskeyService
pub mod SessionCookie
mod Tests
