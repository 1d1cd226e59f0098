-- ===== src/StakeManager/Contract.antt =====
-- The entry points of contracts/stake_manager/src/contract.rs.
use neutron_contracts.Base.{[], List, Outcome, String, err, if◌then◌else◌, leb, ok, ℕ, ◌&&◌}
use neutron_contracts.StakeManager.Types.{Addr, Coin}
use neutron_contracts.StakeManager.Errors.{ContractError, unsupported_reply_id}
use neutron_contracts.StakeManager.Messages.{Env, MessageInfo, Response}
use neutron_contracts.StakeManager.Storage.{
  Storage, query_reply_id_range_end, query_reply_id_range_start, reply_id_range_start,
  reply_id_range_end,
}
use neutron_contracts.StakeManager.Helper.{Sdk}
use neutron_contracts.StakeManager.Stake.{execute_stake, execute_unstake}
use neutron_contracts.StakeManager.Withdraw.{execute_withdraw}
use neutron_contracts.StakeManager.Validators.{
  execute_rm_pool_validator, execute_pool_update_validator,
}
use neutron_contracts.StakeManager.Lsm.{execute_redeem_token_for_share}
use neutron_contracts.StakeManager.Callbacks.{
  Reply, RequestPacket, prepare_sudo_payload, sudo_response, sudo_error, sudo_timeout,
}
use neutron_contracts.StakeManager.Era.Update.{execute_era_update}
use neutron_contracts.StakeManager.Era.Bond.{execute_era_bond}
use neutron_contracts.StakeManager.Era.Collect.{execute_era_collect_withdraw}
use neutron_contracts.StakeManager.Era.Rebond.{execute_era_rebond}
use neutron_contracts.StakeManager.Era.Active.{execute_era_active}
use neutron_contracts.StakeManager.Setup.Icq.{Icq, sudo_kv_query_result, write_reply_id_to_query_id}
use neutron_contracts.StakeManager.Setup.Config.{
  ConfigPoolParams, ConfigStackParams, execute_config_pool, execute_config_stack,
}
use neutron_contracts.StakeManager.Setup.Config
use neutron_contracts.StakeManager.Setup.Validators.{
  execute_add_pool_validators, execute_update_validators_icq, execute_pool_delegate,
}
use neutron_contracts.StakeManager.Setup.Register.{
  execute_register_pool, execute_open_channel, sudo_open_ack,
}
use neutron_contracts.StakeManager.Setup.InitPool.{
  InitPoolParams, MigratePoolParams, execute_init_pool, execute_migrate_pool,
}
use neutron_contracts.StakeManager.Setup.StakeLsm.{execute_stake_lsm}

pub data ExecuteMsg : Type 0 where
  register_pool : (connection_id interchain_account_id : String) → ExecuteMsg
  init_pool : (param : InitPoolParams) → ExecuteMsg
  migrate_pool : (param : MigratePoolParams) → ExecuteMsg
  config_pool : (param : ConfigPoolParams) → ExecuteMsg
  config_stack : (param : ConfigStackParams) → ExecuteMsg
  open_channel : (pool_addr closed_channel_id : String) → ExecuteMsg
  redeem_token_for_share : (pool_addr : String) (tokens : List Coin) → ExecuteMsg
  stake : (neutron_address pool_addr : String) → ExecuteMsg
  unstake : (amount : ℕ) (pool_addr : String) → ExecuteMsg
  withdraw : (pool_addr : String) (receiver : Addr) (unstake_index_list : List ℕ) → ExecuteMsg
  pool_rm_validator : (pool_addr validator_addr : String) → ExecuteMsg
  pool_add_validator : (pool_addr validator_addr : String) → ExecuteMsg
  pool_update_validators_icq : (pool_addr : String) → ExecuteMsg
  pool_delegate : (pool_addr : String) (stake_amount : ℕ) → ExecuteMsg
  pool_update_validator : (pool_addr old_validator new_validator : String) → ExecuteMsg
  era_update : (pool_addr : String) → ExecuteMsg
  era_bond : (pool_addr : String) (select_vals : List String) → ExecuteMsg
  era_collect_withdraw : (pool_addr : String) → ExecuteMsg
  era_rebond : (pool_addr : String) (select_vals : List String) → ExecuteMsg
  era_active : (pool_addr : String) → ExecuteMsg
  stake_lsm : (neutron_address pool_addr : String) → ExecuteMsg
  update_icq_update_period : (pool_addr : String) (new_update_period : ℕ) → ExecuteMsg

pub data SudoMsg : Type 0 where
  response error timeout : RequestPacket → SudoMsg
  kv_query_result : (query_id : ℕ) → SudoMsg
  open_ack : (port_id channel_id counterparty_channel_id counterparty_version : String) → SudoMsg
  other : SudoMsg

module _ (sdk : Sdk) (icq : Icq) (hash_order : List String → List String) where
  unfoldable pub execute :
      Env → MessageInfo → ExecuteMsg → Storage → Outcome ContractError (Storage × Response)
  execute env info (ExecuteMsg.register_pool connection id) s =
      execute_register_pool icq env info connection id s
  execute env info (ExecuteMsg.init_pool param) s = execute_init_pool sdk icq env info param s
  execute env info (ExecuteMsg.migrate_pool param) s = execute_migrate_pool sdk icq env info param s
  execute env info (ExecuteMsg.config_pool param) s = execute_config_pool info env param s
  execute env info (ExecuteMsg.config_stack param) s = execute_config_stack info param s
  execute env info (ExecuteMsg.open_channel a closed) s = execute_open_channel info a closed s
  execute env info (ExecuteMsg.pool_add_validator a v) s =
      execute_add_pool_validators icq info a v s
  execute env info (ExecuteMsg.pool_update_validators_icq a) s =
      execute_update_validators_icq icq info a s
  execute env info (ExecuteMsg.pool_delegate a amount) s = execute_pool_delegate sdk info a amount s
  execute env info (ExecuteMsg.stake_lsm user a) s = execute_stake_lsm sdk icq env info user a s
  execute env info (ExecuteMsg.update_icq_update_period a period) s =
      Config.update_icq_update_period sdk info a period s
  execute env info (ExecuteMsg.redeem_token_for_share a tokens) s =
      execute_redeem_token_for_share sdk info a tokens s
  execute env info (ExecuteMsg.stake user a) s = execute_stake user a info s
  execute env info (ExecuteMsg.unstake amount a) s = execute_unstake info amount a s
  execute env info (ExecuteMsg.withdraw a receiver indices) s =
      execute_withdraw sdk info a receiver indices s
  execute env info (ExecuteMsg.pool_rm_validator a v) s = execute_rm_pool_validator sdk info a v s
  execute env info (ExecuteMsg.pool_update_validator a old new) s =
      execute_pool_update_validator sdk info a old new s
  execute env info (ExecuteMsg.era_update a) s = execute_era_update sdk env info a s
  execute env info (ExecuteMsg.era_bond a vals) s =
      execute_era_bond sdk hash_order env info a vals s
  execute env info (ExecuteMsg.era_collect_withdraw a) s = execute_era_collect_withdraw sdk info a s
  execute env info (ExecuteMsg.era_rebond a vals) s = execute_era_rebond sdk info a vals s
  execute env info (ExecuteMsg.era_active a) s = execute_era_active sdk a s

unfoldable pub sudo :
    Sdk → Icq → Env → SudoMsg → Storage → Outcome ContractError (Storage × Response)
sudo sdk icq env (SudoMsg.response req) s = sudo_response env req s
sudo sdk icq env (SudoMsg.error req) s = sudo_error req s
sudo sdk icq env (SudoMsg.timeout req) s = sudo_timeout req s
sudo sdk icq env (SudoMsg.kv_query_result query_id) s = sudo_kv_query_result sdk query_id s
sudo sdk icq env (SudoMsg.open_ack port channel counterparty version) s =
    sudo_open_ack icq port channel counterparty version s
sudo sdk icq env SudoMsg.other s = ok (s, [])

-- The replies to submitted messages, and those to registrations of queries, whose data is parsed
-- as the id of a query.
unfoldable pub reply :
    Reply → Outcome ContractError ℕ → Storage → Outcome ContractError (Storage × Response)
reply msg query_id s =
    if leb reply_id_range_start msg.id && leb msg.id reply_id_range_end
    then prepare_sudo_payload msg s
    else (if leb query_reply_id_range_start msg.id && leb msg.id query_reply_id_range_end
        then write_reply_id_to_query_id msg.id query_id s
        else err (unsupported_reply_id msg.id))
