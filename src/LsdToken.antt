-- ===== src/LsdToken.antt =====
-- contracts/lsd_token: the token of a pool's shares, with minters, a cap and allowances.
pub mod State
pub mod Balances
pub mod Allowances
pub mod Books
pub mod Supply
pub mod Mirror
pub mod Ledger
pub mod Marketing
pub mod Instantiate
pub mod Queries
pub mod Contract
pub mod Tests
