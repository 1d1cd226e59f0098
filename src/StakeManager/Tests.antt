-- ===== src/StakeManager/Tests.antt =====
-- A pool, its storage and an SDK to run the model on, and the theorems at them.
pub mod Opening
pub mod Era
pub mod Setup
pub mod Callbacks
use neutron_contracts.Base.{
  IsOk, Outcome, [], contains, err, false, may_load, nat_eq, none, ok, pair_eq, refl, retain, save,
  string_eq, true, ℕ, ◌∷◌, ◌≡◌,
}
use neutron_contracts.Base.Uint128
use neutron_contracts.Base.U64
use neutron_contracts.Base.Int.{pos}
use neutron_contracts.StakeManager.Types.{
  Addr, Coin, EraSnapshot, EraStatus, IcaInfo, PoolInfo, UnstakeInfo, active_ended, coin_eq,
  default, end, era_status_eq, validator_update_status_eq,
}
use neutron_contracts.StakeManager.Errors.{ContractError, not_found, std}
use neutron_contracts.StakeManager.Messages.{MessageInfo, Response, update_interchain_query}
use neutron_contracts.StakeManager.Storage.{Storage, get_next_reply_id, save_reply_payload}
use neutron_contracts.StakeManager.Helper.{
  Sdk, check_ibc_fee, load_ica, min_ntrn_ibc_fee, msg_with_sudo_callback, total_ibc_fee,
}
use neutron_contracts.StakeManager.Stake.{execute_stake, execute_unstake, unbond_fee}
use neutron_contracts.StakeManager.Stake.Value.{
  Stakes, Unstakes, execute_stake-Stakes, execute_unstake-Unstakes, staked_pool,
}
use neutron_contracts.StakeManager.Withdraw.{check_unstake, execute_withdraw, take_unstakes}
use neutron_contracts.StakeManager.Withdraw.Paid.{
  Paid, execute_withdraw-Paid, execute_withdraw_once,
}

abbrev pub snapshot : EraSnapshot
snapshot = record {
  era = 10;
  bond = 300;
  unbond = 100;
  active = 1000000;
  restake_amount = 20001;
  last_step_height = 50;
}

abbrev pub pool_in : EraStatus → PoolInfo
pool_in status = record {
  bond = 400;
  unbond = 100;
  active = 1000000;
  lsd_token = "token";
  ica_id = "ica";
  ibc_denom = "ibc/atom";
  channel_id_of_ibc_denom = "channel-1";
  remote_denom = "uatom";
  validator_addrs = "val1" ∷ "val2" ∷ [];
  era = 10;
  rate = 1100000;
  era_seconds = 86400;
  offset = pos 0;
  minimal_stake = 100;
  unstake_times_limit = 20;
  next_unstake_index = 1;
  unbonding_period = 4;
  status = status;
  validator_update_status = end;
  unbond_commission = 10000;
  platform_fee_commission = 100000;
  total_platform_fee = 0;
  total_lsd_token_amount = 900000;
  platform_fee_receiver = "treasury";
  admin = "admin";
  share_tokens = [];
  redeemming_share_token_denom = [];
  era_snapshot = snapshot;
  paused = false;
  lsm_support = true;
  lsm_pending_limit = 10;
  rate_change_limit = 0;
  sdk_greater_or_equal_v047 = true;
}

abbrev pub ica_info : IcaInfo
ica_info = record {
  ctrl_connection_id = "connection-0";
  host_connection_id = "connection-1";
  ctrl_channel_id = "channel-2";
  host_channel_id = "channel-3";
  ctrl_port_id = "icacontroller-1";
  ica_addr = "cosmos1pool";
}

abbrev claim : UnstakeInfo
claim = record {
  era = 5;
  pool_addr = "pool";
  unstaker = "alice";
  amount = 250;
  status = default;
  index = 1;
}

abbrev pub storage_in : EraStatus → Storage
storage_in status = record {
  stack = none;
  total_stack_fee = [];
  pools = ("pool", pool_in status) ∷ [];
  unstakes_of_index = (("pool", 1), claim) ∷ [];
  unstakes_index_for_user = (("alice", "pool"), 1 ∷ []) ∷ [];
  info_of_ica_id = ("ica", (ica_info, ica_info, "admin")) ∷ [];
  latest_reply_id = none;
  latest_query_reply_id = none;
  reply_id_to_payload = [];
  sudo_payload = [];
  address_to_reply_id = [];
  reply_id_to_query_id = [];
  reply_id_to_need_update = [];
  query_id_to_reply_id = [];
  validators_unbonds_time = [];
  era_rate = [];
}

abbrev pub ntrn : ℕ → Coin
ntrn n = record { denom = "untrn"; amount = n }

abbrev pub test_sdk : Sdk
test_sdk = record {
  query_min_ibc_fee =
      ok (record { recv_fee = []; ack_fee = ntrn 1000 ∷ []; timeout_fee = ntrn 1000 ∷ [] });
  get_registered_query = λ _. err (std not_found);
  check_query_type = λ _ _. ok tt;
  query_kv_balances = λ _ _. ok [];
  query_kv_delegations = λ _ _. ok [];
  update_interchain_query = λ _ _. err (std not_found);
}

abbrev pub from : Addr → Coin → MessageInfo
from sender coin = record { sender = sender; funds = coin ∷ [] }

abbrev pub atom : ℕ → Coin
atom n = record { denom = "ibc/atom"; amount = n }

abbrev pub value_or {ℓ} : {A : Type ℓ} → A → Outcome ContractError A → A
value_or a (ok b) = b
value_or a _ = a

abbrev pub run : Storage → Outcome ContractError (Storage × Response) → Storage × Response
run s = value_or (s, [])

abbrev pub active_storage : Storage
active_storage = storage_in active_ended

abbrev pub withdrawn : Storage × Response
withdrawn = run active_storage (
    execute_withdraw test_sdk (from "alice" (ntrn 2000)) "pool" "cosmos1alice" (1 ∷ [])
      active_storage)

execute_withdraw-Paid_example :
    Paid
      (from "alice" (ntrn 2000))
      "pool"
      "cosmos1alice"
      (1 ∷ [])
      active_storage
      withdrawn.0
      withdrawn.1
unfolding execute_withdraw take_unstakes check_unstake Uint128.add U64.add check_ibc_fee
    total_ibc_fee min_ntrn_ibc_fee load_ica msg_with_sudo_callback save_reply_payload
    get_next_reply_id may_load save retain
execute_withdraw-Paid_example =
    execute_withdraw-Paid test_sdk (from "alice" (ntrn 2000)) "pool" "cosmos1alice" (1 ∷ [])
      active_storage withdrawn.0 withdrawn.1 refl

execute_withdraw_once_example : ¬ IsOk (
    execute_withdraw test_sdk
      (from "alice" (ntrn 3000))
      "pool"
      "cosmos1bob"
      (7 ∷ 1 ∷ [])
      withdrawn.0)
unfolding execute_withdraw take_unstakes check_unstake Uint128.add U64.add check_ibc_fee
    total_ibc_fee min_ntrn_ibc_fee load_ica msg_with_sudo_callback save_reply_payload
    get_next_reply_id may_load save retain contains
execute_withdraw_once_example =
    execute_withdraw_once test_sdk test_sdk (from "alice" (ntrn 2000)) (from "alice" (ntrn 3000))
      "pool" "cosmos1alice" "cosmos1bob" (1 ∷ []) (7 ∷ 1 ∷ []) 1 active_storage withdrawn.0
      withdrawn.0 withdrawn.1 refl refl refl refl

abbrev staked : Storage × Response
staked = run active_storage (execute_stake "alice" "pool" (from "alice" (atom 1000)) active_storage)

execute_stake-Stakes_example :
    (c : Coin) × ((from "alice" (atom 1000)).funds ≡ c ∷ [])
    × (c.denom ≡ "ibc/atom")
    × Stakes "alice" "pool" (pool_in active_ended) c active_storage staked.0 staked.1
unfolding execute_stake may_load save Uint128.add Uint128.mul Uint128.div
execute_stake-Stakes_example =
    execute_stake-Stakes "alice" "pool" (from "alice" (atom 1000)) active_storage staked.0 staked.1
      (pool_in active_ended) refl refl

abbrev unstaked : Storage × Response
unstaked = run active_storage (execute_unstake (from "alice" (ntrn 1)) 909 "pool" staked.0)

execute_unstake-Unstakes_example :
    Unstakes
      (from "alice" (ntrn 1))
      909
      "pool"
      (staked_pool (pool_in active_ended) 1000)
      staked.0
      unstaked.0
      unstaked.1
unfolding execute_stake execute_unstake unbond_fee may_load save Uint128.add Uint128.mul Uint128.div
    Uint128.sub U64.add
execute_unstake-Unstakes_example =
    execute_unstake-Unstakes (from "alice" (ntrn 1)) 909 "pool" staked.0 unstaked.0 unstaked.1
      (staked_pool (pool_in active_ended) 1000) refl refl
