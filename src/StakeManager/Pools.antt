-- ===== src/StakeManager/Pools.antt =====
-- The invariant of the stored pools, and the calls that change a pool that is set up.
pub mod Invariant
pub mod Era
pub mod EraEnd
pub mod Between
pub mod Admin
pub mod Acts
pub mod Staking
pub mod Steps
