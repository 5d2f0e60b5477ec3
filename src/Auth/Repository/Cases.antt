-- ===== src/Auth/Repository/Cases.antt =====
-- One rule for each method: what holds of the state it was called in, and of each state that one
-- of its branches writes, holds of the state it leaves.
pub mod Guards
pub mod Methods
pub mod Administrative
