-- ===== src/Bridge.antt =====
-- contracts/bridge: relayers vote on deposits of another chain, and enough votes mint a token.
pub mod State
pub mod Calls
pub mod Relayers
pub mod Votes
pub mod ProposalId
pub mod Once
pub mod Stuck
pub mod Tests
