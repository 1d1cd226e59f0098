-- ===== src/StakeManager/Pools/Acts.antt =====
-- The calls on a pool apart from the steps of its era, stakes and unstakes: withdrawals, changes of
-- validators, the liquid staking module and the configuration of a pool.
use neutron_contracts.Base.{List, String, inl, inr, nat_eq, ok, pair_eq, string_eq, ℕ, ◌≡◌}
use neutron_contracts.StakeManager.Types.{
  Addr, Coin, SudoPayload, coin_eq, era_status_eq, validator_update_status_eq,
}
use neutron_contracts.StakeManager.Messages.{Env, MessageInfo, Response}
use neutron_contracts.StakeManager.Storage.{Storage}
use neutron_contracts.StakeManager.Helper.{Sdk}
use neutron_contracts.StakeManager.Withdraw.{
  execute_withdraw, sudo_withdraw_callback, sudo_withdraw_failed_callback,
}
use neutron_contracts.StakeManager.Validators.{
  execute_pool_update_validator, execute_rm_pool_validator, sudo_rm_validator_callback,
  sudo_rm_validator_failed_callback, sudo_update_validator_callback,
  sudo_update_validator_failed_callback,
}
use neutron_contracts.StakeManager.Lsm.{
  execute_redeem_token_for_share, sudo_redeem_token_for_share_callback,
  sudo_redeem_token_for_share_failed_callback, sudo_stake_lsm_callback,
  sudo_stake_lsm_failed_callback,
}
use neutron_contracts.StakeManager.Setup.Icq.{Icq}
use neutron_contracts.StakeManager.Setup.StakeLsm.{execute_stake_lsm}
use neutron_contracts.StakeManager.Setup.Config.{ConfigPoolParams, execute_config_pool}
use neutron_contracts.StakeManager.Setup.Validators.{
  execute_add_pool_validators, execute_update_validators_icq,
}
use neutron_contracts.StakeManager.Pools.Invariant.{
  AllValid, Always, Changes-AllValid, same_pools-AllValid,
}
use neutron_contracts.StakeManager.Pools.Between.{
  execute_pool_update_validator-Changes, execute_redeem_token_for_share-Changes,
  execute_stake_lsm-pools, execute_withdraw-pools, sudo_redeem_token_for_share_callback-Changes,
  sudo_rm_validator_callback-Changes, sudo_stake_lsm_callback-Changes,
  sudo_stake_lsm_failed_callback-pools, sudo_update_validator_callback-Changes,
  sudo_withdraw_callback-pools,
}
use neutron_contracts.StakeManager.Pools.Admin.{
  execute_add_pool_validators-Changes, execute_config_pool-Changes,
  execute_rm_pool_validator-Changes, execute_update_validators_icq-Changes,
}

-- One call that succeeds, an acknowledgement or a failure.
pub data Act (sdk : Sdk) : Storage → Storage → Type 0 where
  withdraws :
      {s s' : Storage} (info : MessageInfo) (a : String) (receiver : Addr) (is : List ℕ)
      (r : Response)
      → execute_withdraw sdk info a receiver is s ≡ ok (s', r)
      → Act sdk s s'
  withdrawn :
      {s s' : Storage} (payload : SudoPayload) (r : Response)
      → sudo_withdraw_callback payload s ≡ ok (s', r)
      → Act sdk s s'
  withdraw_failed :
      {s s' : Storage} (payload : SudoPayload) (r : Response)
      → sudo_withdraw_failed_callback payload s ≡ ok (s', r)
      → Act sdk s s'
  removes :
      {s s' : Storage} (info : MessageInfo) (a validator : String) (r : Response)
      → execute_rm_pool_validator sdk info a validator s ≡ ok (s', r)
      → Act sdk s s'
  removed :
      {s s' : Storage} (payload : SudoPayload) (r : Response)
      → sudo_rm_validator_callback payload s ≡ ok (s', r)
      → Act sdk s s'
  remove_failed :
      {s s' : Storage} (payload : SudoPayload) (r : Response)
      → sudo_rm_validator_failed_callback payload s ≡ ok (s', r)
      → Act sdk s s'
  replaces :
      {s s' : Storage} (info : MessageInfo) (a old new : String) (r : Response)
      → execute_pool_update_validator sdk info a old new s ≡ ok (s', r)
      → Act sdk s s'
  replaced :
      {s s' : Storage} (payload : SudoPayload) (r : Response)
      → sudo_update_validator_callback payload s ≡ ok (s', r)
      → Act sdk s s'
  replace_failed :
      {s s' : Storage} (payload : SudoPayload) (r : Response)
      → sudo_update_validator_failed_callback payload s ≡ ok (s', r)
      → Act sdk s s'
  adds :
      {s s' : Storage} (icq : Icq) (info : MessageInfo) (a validator : String) (r : Response)
      → execute_add_pool_validators icq info a validator s ≡ ok (s', r)
      → Act sdk s s'
  requeries :
      {s s' : Storage} (icq : Icq) (info : MessageInfo) (a : String) (r : Response)
      → execute_update_validators_icq icq info a s ≡ ok (s', r)
      → Act sdk s s'
  redeems :
      {s s' : Storage} (info : MessageInfo) (a : String) (tokens : List Coin) (r : Response)
      → execute_redeem_token_for_share sdk info a tokens s ≡ ok (s', r)
      → Act sdk s s'
  redeemed :
      {s s' : Storage} (payload : SudoPayload) (r : Response)
      → sudo_redeem_token_for_share_callback payload s ≡ ok (s', r)
      → Act sdk s s'
  redeem_failed :
      {s s' : Storage} (payload : SudoPayload) (r : Response)
      → sudo_redeem_token_for_share_failed_callback payload s ≡ ok (s', r)
      → Act sdk s s'
  sends_shares :
      {s s' : Storage} (icq : Icq) (env : Env) (info : MessageInfo) (user a : String) (r : Response)
      → execute_stake_lsm sdk icq env info user a s ≡ ok (s', r)
      → Act sdk s s'
  sent_shares :
      {s s' : Storage} (payload : SudoPayload) (r : Response)
      → sudo_stake_lsm_callback payload s ≡ ok (s', r)
      → Act sdk s s'
  send_failed :
      {s s' : Storage} (payload : SudoPayload) (r : Response)
      → sudo_stake_lsm_failed_callback payload s ≡ ok (s', r)
      → Act sdk s s'
  configures :
      {s s' : Storage} (info : MessageInfo) (env : Env) (param : ConfigPoolParams) (r : Response)
      → execute_config_pool info env param s ≡ ok (s', r)
      → Act sdk s s'

pub Act-AllValid : (sdk : Sdk) (s s' : Storage) → Act sdk s s' → AllValid s → AllValid s'
Act-AllValid sdk s s' (withdraws info a receiver is r h) =
    same_pools-AllValid s s' (execute_withdraw-pools sdk info a receiver is s s' r h)
Act-AllValid sdk s s' (withdrawn payload r h) =
    same_pools-AllValid s s' (sudo_withdraw_callback-pools payload s s' r (inl h))
Act-AllValid sdk s s' (withdraw_failed payload r h) =
    same_pools-AllValid s s' (sudo_withdraw_callback-pools payload s s' r (inr h))
Act-AllValid sdk s s' (removes info a validator r h) =
    Changes-AllValid Always a s s' (execute_rm_pool_validator-Changes sdk info a validator s s' r h)
      tt
Act-AllValid sdk s s' (removed payload r h) =
    Changes-AllValid Always payload.pool_addr s s'
      (sudo_rm_validator_callback-Changes payload s s' r (inl h)) tt
Act-AllValid sdk s s' (remove_failed payload r h) =
    Changes-AllValid Always payload.pool_addr s s'
      (sudo_rm_validator_callback-Changes payload s s' r (inr h)) tt
Act-AllValid sdk s s' (replaces info a old new r h) =
    Changes-AllValid Always a s s'
      (execute_pool_update_validator-Changes sdk info a old new s s' r h) tt
Act-AllValid sdk s s' (replaced payload r h) =
    Changes-AllValid Always payload.pool_addr s s'
      (sudo_update_validator_callback-Changes payload s s' r (inl h)) tt
Act-AllValid sdk s s' (replace_failed payload r h) =
    Changes-AllValid Always payload.pool_addr s s'
      (sudo_update_validator_callback-Changes payload s s' r (inr h)) tt
Act-AllValid sdk s s' (adds icq info a validator r h) =
    Changes-AllValid Always a s s'
      (execute_add_pool_validators-Changes icq info a validator s s' r h) tt
Act-AllValid sdk s s' (requeries icq info a r h) =
    Changes-AllValid Always a s s' (execute_update_validators_icq-Changes icq info a s s' r h) tt
Act-AllValid sdk s s' (redeems info a tokens r h) =
    Changes-AllValid Always a s s'
      (execute_redeem_token_for_share-Changes sdk info a tokens s s' r h) tt
Act-AllValid sdk s s' (redeemed payload r h) =
    Changes-AllValid Always payload.pool_addr s s'
      (sudo_redeem_token_for_share_callback-Changes payload s s' r (inl h)) tt
Act-AllValid sdk s s' (redeem_failed payload r h) =
    Changes-AllValid Always payload.pool_addr s s'
      (sudo_redeem_token_for_share_callback-Changes payload s s' r (inr h)) tt
Act-AllValid sdk s s' (sends_shares icq env info user a r h) =
    same_pools-AllValid s s' (execute_stake_lsm-pools sdk icq env info user a s s' r h)
Act-AllValid sdk s s' (sent_shares payload r h) =
    Changes-AllValid Always payload.pool_addr s s'
      (sudo_stake_lsm_callback-Changes payload s s' r h) tt
Act-AllValid sdk s s' (send_failed payload r h) =
    same_pools-AllValid s s' (sudo_stake_lsm_failed_callback-pools payload s s' r h)
Act-AllValid sdk s s' (configures info env param r h) =
    Changes-AllValid Always param.pool_addr s s'
      (execute_config_pool-Changes info env param s s' r h) tt
