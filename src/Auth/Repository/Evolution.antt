-- ===== src/Auth/Repository/Evolution.antt =====
-- How each method of the repository may change the objects that the maps hold. No method removes
-- a session, an account or a passkey, and none undoes a revocation.
pub mod Relations
pub mod Writes
pub mod Histories
pub mod Challenges
pub mod Credentials
