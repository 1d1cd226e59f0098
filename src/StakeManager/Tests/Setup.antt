-- ===== src/StakeManager/Tests/Setup.antt =====
-- The theorems on the set up of pools, at concrete values.
use neutron_contracts.Base.{
  String, [], arith, may_load, nat_eq, none, ok, pair_eq, refl, save, some, string_eq, true, ℕ, ◌∷◌,
  ◌≡◌,
}
use neutron_contracts.StakeManager.Setup.Icq.Registered.{
  Others, answers, get_query_id_registered, nothing, registers,
}
use neutron_contracts.StakeManager.Messages.{Env, Msg, SubMsg, register_interchain_query}
use neutron_contracts.StakeManager.Setup.InitPool.Ready.{IsNew, initial_pool-current_era}
use neutron_contracts.Base.Int.{negsuc, saturating_add_signed, sub_i64}
use neutron_contracts.Base.U64
use neutron_contracts.Base.Uint128
use neutron_contracts.StakeManager.Types.{
  PoolInfo, QueryKind, active_ended, coin_eq, era_status_eq, query_kind_to_string,
  validator_update_status_eq,
}
use neutron_contracts.StakeManager.Storage.{Storage, get_next_query_reply_id, load_pool, save_pool}
use neutron_contracts.StakeManager.Helper.{get_query_id}
use neutron_contracts.StakeManager.Era.Update.{current_era}
use neutron_contracts.StakeManager.Era.Rebond.{split_stake}
use neutron_contracts.StakeManager.Setup.Icq.{register_query_submsg, write_reply_id_to_query_id}
use neutron_contracts.StakeManager.Setup.Config.{
  ConfigPoolParams, execute_config_pool, set_era_seconds,
}
use neutron_contracts.StakeManager.Setup.Config.Eras.{execute_config_pool-current_era}
use neutron_contracts.StakeManager.Setup.Validators.{pool_delegations}
use neutron_contracts.StakeManager.Setup.Validators.Delegate.{pool_delegations-split_stake}
use neutron_contracts.StakeManager.Setup.InitPool.{
  InitPoolParams, MigratePoolParams, initial_era_seconds, initial_pool, taken_over,
}
use neutron_contracts.StakeManager.Setup.Register.{registered_pool}
use neutron_contracts.StakeManager.Tests.{active_storage, from, ntrn, pool_in}

-- Twelve days after the epoch.
abbrev day_twelve : Env
day_twelve = record { height = 100; nanos = 1036800000000000; contract_address = "manager" }

abbrev shorter_eras : ConfigPoolParams
shorter_eras = record {
  pool_addr = "pool";
  platform_fee_receiver = none;
  minimal_stake = none;
  unstake_times_limit = none;
  unbonding_period = none;
  unbond_commission = none;
  platform_fee_commission = none;
  era_seconds = some 43200;
  paused = none;
  lsm_support = none;
  lsm_pending_limit = none;
  rate_change_limit = none;
  new_admin = none;
}

-- Twice as many half days have passed as days, so that the offset falls by twelve.
abbrev with_shorter_eras : PoolInfo
with_shorter_eras = record (pool_in active_ended) {
  era_seconds = 43200;
  offset = negsuc 11;
  unbonding_period = 43;
}

execute_config_pool-current_era_example :
    (◌≡◌ {A = String} "admin" "admin")
    × (new : PoolInfo) × (load_pool "pool" (save_pool "pool" with_shorter_eras active_storage)
        ≡ ok new)
    × (current_era day_twelve new ≡ ok 12)
unfolding execute_config_pool set_era_seconds current_era U64.div sub_i64 saturating_add_signed
    may_load save
execute_config_pool-current_era_example =
    execute_config_pool-current_era (from "admin" (ntrn 1)) day_twelve shorter_eras active_storage
      (save_pool "pool" with_shorter_eras active_storage) [] (pool_in active_ended) 12 refl refl
      (omega arith) (omega arith) refl

pool_delegations-split_stake_example :
    pool_delegations (pool_in active_ended) "pool" 1001
    ≡ split_stake (pool_in active_ended) "pool" 1001 ("val1" ∷ "val2" ∷ [])
pool_delegations-split_stake_example =
    pool_delegations-split_stake (pool_in active_ended) "pool" 1001

abbrev register_msg : Msg
register_msg =
    register_interchain_query
      (record { keys = []; connection_id = "connection-0"; update_period = 6 })

-- The storage after the registration of a query on validators, after that of another one on
-- balances, and after the replies to both, the second one first.
abbrev registering : Storage
registering = record active_storage {
  latest_query_reply_id = some 2000000001;
  address_to_reply_id = (("pool", "validators"), 2000000000) ∷ [];
  reply_id_to_need_update = (2000000000, true) ∷ [];
}

abbrev registering_both : Storage
registering_both = record registering {
  latest_query_reply_id = some 2000000002;
  address_to_reply_id =
      (("pool", "validators"), 2000000000) ∷ (("pool", "balances"), 2000000001) ∷ [];
}

abbrev answered_second : Storage
answered_second = record registering_both {
  reply_id_to_query_id = (2000000001, 8) ∷ [];
  query_id_to_reply_id = (8, 2000000001) ∷ [];
}

abbrev answered_both : Storage
answered_both = record answered_second {
  reply_id_to_query_id = (2000000001, 8) ∷ (2000000000, 7) ∷ [];
  query_id_to_reply_id = (8, 2000000001) ∷ (7, 2000000000) ∷ [];
}

abbrev submsg_at : ℕ → SubMsg
submsg_at id = record { reply_on_success = some id; msg = register_msg }

second-Others : Others ("pool", "validators") registering answered_second
unfolding register_query_submsg get_next_query_reply_id write_reply_id_to_query_id U64.add save
    query_kind_to_string may_load
second-Others =
    answers ("pool", "balances") 2000000001 8 []
      (registers register_msg "pool" QueryKind.balances (submsg_at 2000000001) nothing refl
        (omega arith) refl)
      refl refl refl

get_query_id_registered_example : get_query_id answered_both "pool" QueryKind.validators ≡ ok 7
unfolding register_query_submsg get_next_query_reply_id write_reply_id_to_query_id U64.add save
    query_kind_to_string may_load
get_query_id_registered_example =
    get_query_id_registered register_msg "pool" QueryKind.validators active_storage registering
      answered_second answered_both answered_both (submsg_at 2000000000) 2000000000 7 []
      (λ k n e. absurd cc) (omega arith) refl refl second-Others refl nothing

abbrev init_params : InitPoolParams
init_params = record {
  interchain_account_id = "ica";
  ibc_denom = "ibc/atom";
  channel_id_of_ibc_denom = "channel-1";
  remote_denom = "uatom";
  validator_addrs = "val1" ∷ [];
  platform_fee_receiver = "treasury";
  lsd_code_id = some 5;
  lsd_token_name = "shares";
  lsd_token_symbol = "rATOM";
  minimal_stake = 100;
  unbonding_period = 22;
  platform_fee_commission = none;
  era_seconds = none;
  sdk_greater_or_equal_v047 = true;
}

-- The pool on the twelfth day.
abbrev new_pool : PoolInfo
new_pool = record (registered_pool "ica" "admin") {
  ibc_denom = "ibc/atom";
  channel_id_of_ibc_denom = "channel-1";
  remote_denom = "uatom";
  validator_addrs = "val1" ∷ [];
  platform_fee_receiver = "treasury";
  unbonding_period = 22;
  minimal_stake = 100;
  sdk_greater_or_equal_v047 = true;
  platform_fee_commission = 100000;
  era_seconds = 86400;
  offset = negsuc 11;
  rate = 1000000;
  unstake_times_limit = 20;
  lsm_pending_limit = 100;
}

initial_pool-current_era_example : IsNew day_twelve new_pool
unfolding initial_pool initial_era_seconds U64.div sub_i64
initial_pool-current_era_example =
    initial_pool-current_era day_twelve init_params (registered_pool "ica" "admin") new_pool refl
      (omega arith)

abbrev migrate_params : MigratePoolParams
migrate_params = record {
  interchain_account_id = "ica";
  unbond = 0;
  bond = 0;
  active = 1100000;
  ibc_denom = "ibc/atom";
  channel_id_of_ibc_denom = "channel-1";
  remote_denom = "uatom";
  validator_addrs = "val1" ∷ [];
  era = 3;
  rate = 1222222;
  total_platform_fee = 0;
  total_lsd_token_amount = 900000;
  platform_fee_receiver = "treasury";
  share_tokens = [];
  lsd_code_id = some 5;
  lsd_token_name = "shares";
  lsd_token_symbol = "rATOM";
  minimal_stake = 100;
  unbonding_period = 22;
  platform_fee_commission = none;
  era_seconds = 86400;
  offset = negsuc 8;
  sdk_greater_or_equal_v047 = true;
}

abbrev migrated : PoolInfo
migrated = taken_over migrate_params (registered_pool "ica" "admin")
