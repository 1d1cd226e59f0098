-- ===== src/Lib.antt =====
-- A model of the contracts of neutron-contracts, and what holds of it.
--
-- The repository has four CosmWasm contracts: `contracts/stake_manager`, which runs liquid staking
-- pools on a remote chain through interchain accounts; `contracts/lsd_token`, the token of the
-- pools' shares; `contracts/bridge`, which mints tokens for deposits on other chains that its relayers
-- vote for; and `contracts/cw20-ics20`. The model is about the first three.
--
-- A user stakes and is minted share tokens at the pool's rate, unstakes by burning them, which
-- records a claim, and withdraws a claim when its unbonding is over. In each era of a pool anybody
-- may run the steps update, bond, collect, rebond and active, in this order, which the pool's status
-- keeps. Most steps send an interchain transaction, whose acknowledgement, error or timeout comes
-- back later through `sudo`: the reply of the sent message saves a payload under the packet's
-- channel and sequence, and the callback of the payload's type takes it up.
--
-- Base holds what the files share: the outcome of a call (a value, an error, or a panic, which
-- aborts the transaction), association lists for storage maps, `Uint128` and `u64` arithmetic with
-- its bounds and panics, and the texts of payloads.
--
-- StakeManager, about contracts/stake_manager/src:
--   Types, Errors, Storage     state.rs and error_conversion.rs: a record with a field for each
--                              storage item
--   Messages                   what the contract receives and sends; a message is its fields
--   Helper                     helper.rs, query.rs; the neutron SDK is the record `Sdk` of the
--                              functions that the contract calls, a parameter of every handler
--   Stake, Withdraw            execute_stake.rs, execute_unstake.rs, execute_withdraw.rs
--   Era.Update .. Era.Active   execute_era_update.rs, execute_era_bond.rs,
--                              execute_era_collect_withdraw.rs, execute_era_rebond.rs and
--                              execute_era_active.rs, each with its callbacks; Era.Allocate is the
--                              choice of the delegations to undelegate
--   Validators, Lsm            execute_pool_rm_validator.rs, execute_pool_update_validator.rs,
--                              execute_redeem_token_for_share.rs, callbacks of execute_stake_lsm.rs
--   Setup.Icq                  query_callback.rs and the queries in helper.rs; the record `Icq` is
--                              what the SDK and the chain answer when a pool is set up
--   Setup.Register             execute_register_pool.rs, execute_open_channel.rs
--   Setup.InitPool, DealPool   execute_init_pool.rs, execute_migrate_pool.rs, and what helper.rs has
--                              for both
--   Setup.Config               execute_config_pool.rs, execute_config_stack.rs,
--                              execute_icq_update_period.rs
--   Setup.Validators           execute_pool_add_validator.rs, execute_pool_delegate.rs,
--                              execute_update_validators_icq.rs
--   Setup.StakeLsm             the handler of execute_stake_lsm.rs
--   Callbacks, Contract        tx_callback.rs and the entry points of contract.rs
--   Pools                      the invariant of the stored pools, and runs of the calls on a pool that
--                              is set up: the registration, initialisation and migration of pools
--                              are not among them
--   Tests                      a pool, a storage and an SDK to run the model on
--
-- LsdToken, about contracts/lsd_token/src:
--   State                      state.rs and error.rs; `Cw20` is what the contract calls of the cw20
--                              packages and of the chain, a parameter
--   Balances, Allowances       the calls of contract.rs on balances, supply and minters, and
--                              allowances.rs
--   Marketing, Instantiate     marketing data, logo, instantiation and migration, of contract.rs and
--                              msg.rs
--   Contract, Queries          the entry point `execute`; the queries, and the listings of
--                              enumerable.rs
--   Books, Supply              the sum of the balances against the supply
--   Mirror                     the two maps of allowances against each other
--   Ledger                     the token as an abstract ledger, of which every call is a step
--   Tests                      a token to run the model on
--
-- Bridge, about contracts/bridge/src:
--   State                      state.rs and error.rs; `Crates` is the digest, the bytes of a text and
--                              the check of addresses, a parameter
--   Calls                      contract.rs
--   Relayers, Votes, Once      what the calls keep, what a vote does, and the log of all mints
--   ProposalId, Stuck          which proposals have one id, and which are never executed
--   Tests                      a bridge to run the model on
--
-- The stake manager mints and burns the token by the messages `mint`, `burn_from` and
-- `transfer_from` of Messages; the two contracts' storages are apart.
--
-- A handler has the name of its function, takes the storage and gives the storage and the messages
-- that it sends, or the error. A call that fails changes nothing, as the chain rolls it back.
-- Attributes of responses are left out. Addresses are texts, which the stake manager does not
-- validate; the token and the bridge validate them by a parameter. All loops are structural recursions
-- on lists; the only fuel is that of decimal printing, which prints at most 40 digits, while a `u128`
-- has at most 39. The order in which a hash set is read is a parameter.
--
-- Not modelled: the entry points `query`, which encode stored values, the contract cw20-ics20, scripts
-- and schemas.
pub mod Base
pub mod StakeManager
pub mod LsdToken
pub mod Bridge
