-- ===== src/Auth/Tests.antt =====
-- The theorems at concrete inputs, and runs of the code.
mod Data
mod Repository
mod Invariants
mod Service
mod Passkeys
mod PasskeyService
mod SessionCookie
