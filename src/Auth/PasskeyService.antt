-- ===== src/Auth/PasskeyService.antt =====
-- `PasskeyService` of apps/auth/src/a2/passkey-service.ts.
pub mod World
pub mod Inputs
pub mod CredentialIds
pub mod Errors
pub mod Steps
pub mod Registration
pub mod Authentication
pub mod Ceremonies
pub mod Logins
pub mod Properties
