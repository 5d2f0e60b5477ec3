-- ===== src/Auth/Repository/Invariants.antt =====
-- What holds of the repository's maps after any history.
pub mod WellFormed
pub mod Owners
pub mod OwnerWrites
pub mod LiveOwners
pub mod Addresses
pub mod Ownership
