-- ===== src/StakeManager.antt =====
-- The contract contracts/stake_manager.
pub mod Types
pub mod Errors
pub mod Messages
pub mod Storage
pub mod Helper
pub mod Stake
pub mod Era
pub mod Withdraw
pub mod Validators
pub mod Lsm
pub mod Setup
pub mod Callbacks
pub mod Contract
pub mod Pools
pub mod Tests
