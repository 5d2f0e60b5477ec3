-- ===== src/Auth/Repository.antt =====
-- `LocalAuthRepository` of apps/auth/src/a2/local-adapters.ts.
pub mod State
pub mod Administration
pub mod Sessions
pub mod Challenges
pub mod Passkeys
pub mod Calls
pub mod Cases
pub mod Closure
pub mod Invariants
pub mod Evolution
pub mod Properties
