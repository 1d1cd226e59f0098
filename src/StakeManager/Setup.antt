-- ===== src/StakeManager/Setup.antt =====
-- How pools are registered, set up and configured, and the queries on them.
pub mod Icq
pub mod Config
pub mod Validators
pub mod Register
pub mod DealPool
pub mod InitPool
pub mod StakeLsm
