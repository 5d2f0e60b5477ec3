-- ===== src/Auth/Service.antt =====
-- `AuthService` of apps/auth/src/a2/auth-service.ts.
pub mod Policy
pub mod Inputs
pub mod World
pub mod Limits
pub mod Sessions
pub mod Administration
pub mod Properties
