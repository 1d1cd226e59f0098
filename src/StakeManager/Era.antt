-- ===== src/StakeManager/Era.antt =====
-- The era process of a pool: update, bond, collect, rebond, active.
pub mod Update
pub mod Allocate
pub mod Bond
pub mod Collect
pub mod Rebond
pub mod Active
