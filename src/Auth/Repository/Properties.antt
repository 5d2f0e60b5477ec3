-- ===== src/Auth/Repository/Properties.antt =====
-- What the methods of the repository promise, over whole histories of calls.
pub mod Revocation
pub mod Validation
pub mod OneTimeCodes
pub mod Authority
pub mod PasskeyLogins
