-- ===== src/StakeManager/Callbacks.antt =====
-- contracts/stake_manager/src/tx_callback.rs: the way of a payload from a submitted message over
-- the reply to the acknowledgement, and the callbacks that it then runs.
use neutron_contracts.Base.{
  Option, Outcome, String, [], may_load, nat_eq, ok, ok_or, pair_eq, remove, string_eq, ℕ, ◌>>=◌,
}
use neutron_contracts.StakeManager.Types.{
  SudoPayload, TxType, active_ended, coin_eq, era_bond, era_collect_withdraw, era_rebond,
  era_status_eq, era_update, init_failed, redeem_token_for_share, rm_validator, set_withdraw_addr,
  stake_lsm, update_validator, user_withdraw, validator_update_status_eq,
}
use neutron_contracts.StakeManager.Errors.{
  ContractError, call_back_err_channel_id_not_found, call_back_err_error_msg,
  call_back_err_sequence_not_found,
}
use neutron_contracts.StakeManager.Messages.{Env, Response}
use neutron_contracts.StakeManager.Storage.{
  Storage, load_pool, read_reply_payload, save_pool, save_sudo_payload,
}
use neutron_contracts.StakeManager.Withdraw.{sudo_withdraw_callback, sudo_withdraw_failed_callback}
use neutron_contracts.StakeManager.Validators.{
  sudo_rm_validator_callback, sudo_rm_validator_failed_callback, sudo_update_validator_callback,
  sudo_update_validator_failed_callback,
}
use neutron_contracts.StakeManager.Lsm.{
  sudo_redeem_token_for_share_callback, sudo_redeem_token_for_share_failed_callback,
  sudo_stake_lsm_callback, sudo_stake_lsm_failed_callback,
}
use neutron_contracts.StakeManager.Era.Update.{
  sudo_era_update_callback, sudo_era_update_failed_callback,
}
use neutron_contracts.StakeManager.Era.Bond.{sudo_era_bond_callback, sudo_era_bond_failed_callback}
use neutron_contracts.StakeManager.Era.Collect.{
  sudo_era_collect_withdraw_callback, sudo_era_collect_withdraw_failed_callback,
}
use neutron_contracts.StakeManager.Era.Rebond.{
  sudo_era_rebond_callback, sudo_era_rebond_failed_callback,
}

-- The reply to a submitted message: the channel and sequence of its packet, read from the data.
pub record Reply : Type 0 where
  pub id : ℕ
  pub result : Outcome ContractError (String × ℕ)

unfoldable pub prepare_sudo_payload : Reply → Storage → Outcome ContractError (Storage × Response)
prepare_sudo_payload msg s = do
  payload ← read_reply_payload s msg.id
  (channel_id, seq_id) ← msg.result
  ok (save_sudo_payload channel_id seq_id payload s, [])

-- The two callbacks of helper.rs for `MsgSetWithdrawAddress`
unfoldable pub sudo_set_withdraw_addr_callback :
    SudoPayload → Storage → Outcome ContractError (Storage × Response)
sudo_set_withdraw_addr_callback payload s = do
  p ← load_pool payload.pool_addr s
  ok (save_pool payload.pool_addr (record p { status = active_ended }) s, [])

unfoldable pub sudo_set_withdraw_addr_failed_callback :
    SudoPayload → Storage → Outcome ContractError (Storage × Response)
sudo_set_withdraw_addr_failed_callback payload s = do
  p ← load_pool payload.pool_addr s
  ok (save_pool payload.pool_addr (record p { status = init_failed }) s, [])

unfoldable pub dispatch :
    TxType → Env → SudoPayload → Storage → Outcome ContractError (Storage × Response)
dispatch set_withdraw_addr env payload s = sudo_set_withdraw_addr_callback payload s
dispatch era_update env payload s = sudo_era_update_callback env payload s
dispatch era_bond env payload s = sudo_era_bond_callback env payload s
dispatch era_collect_withdraw env payload s = sudo_era_collect_withdraw_callback env payload s
dispatch era_rebond env payload s = sudo_era_rebond_callback env payload s
dispatch user_withdraw env payload s = sudo_withdraw_callback payload s
dispatch update_validator env payload s = sudo_update_validator_callback payload s
dispatch rm_validator env payload s = sudo_rm_validator_callback payload s
dispatch stake_lsm env payload s = sudo_stake_lsm_callback payload s
dispatch redeem_token_for_share env payload s = sudo_redeem_token_for_share_callback payload s

unfoldable pub dispatch_failed :
    TxType → SudoPayload → Storage → Outcome ContractError (Storage × Response)
dispatch_failed set_withdraw_addr payload s = sudo_set_withdraw_addr_failed_callback payload s
dispatch_failed era_update payload s = sudo_era_update_failed_callback payload s
dispatch_failed era_bond payload s = sudo_era_bond_failed_callback payload s
dispatch_failed era_collect_withdraw payload s = sudo_era_collect_withdraw_failed_callback payload s
dispatch_failed era_rebond payload s = sudo_era_rebond_failed_callback payload s
dispatch_failed user_withdraw payload s = sudo_withdraw_failed_callback payload s
dispatch_failed update_validator payload s = sudo_update_validator_failed_callback payload s
dispatch_failed rm_validator payload s = sudo_rm_validator_failed_callback payload s
dispatch_failed stake_lsm payload s = sudo_stake_lsm_failed_callback payload s
dispatch_failed redeem_token_for_share payload s =
    sudo_redeem_token_for_share_failed_callback payload s

unfoldable pub sudo_callback :
    Env → SudoPayload → Storage → Outcome ContractError (Storage × Response)
unfolding dispatch
sudo_callback env payload s = dispatch payload.tx_type env payload s

unfoldable pub sudo_failed_callback :
    SudoPayload → Storage → Outcome ContractError (Storage × Response)
unfolding dispatch_failed
sudo_failed_callback payload s = dispatch_failed payload.tx_type payload s

-- The packet that an acknowledgement or a timeout is about.
pub record RequestPacket : Type 0 where
  pub sequence : Option ℕ
  pub source_channel : Option String

-- The payload of the packet, taken out of the storage.
unfoldable pub take_payload :
    RequestPacket → Storage → Outcome ContractError (SudoPayload × Storage)
take_payload req s = do
  seq_id ← ok_or req.sequence call_back_err_sequence_not_found
  channel_id ← ok_or req.source_channel call_back_err_channel_id_not_found
  payload ← ok_or (may_load (channel_id, seq_id) s.sudo_payload) call_back_err_error_msg
  ok (payload, record s { sudo_payload = remove (channel_id, seq_id) s.sudo_payload })

unfoldable pub sudo_response :
    Env → RequestPacket → Storage → Outcome ContractError (Storage × Response)
unfolding take_payload
sudo_response env req s = do (payload, s') ← take_payload req s; sudo_callback env payload s'

-- `sudo_error`; `sudo_timeout` has the same body.
unfoldable pub sudo_error : RequestPacket → Storage → Outcome ContractError (Storage × Response)
unfolding take_payload
sudo_error req s = do (payload, s') ← take_payload req s; sudo_failed_callback payload s'

unfoldable pub sudo_timeout : RequestPacket → Storage → Outcome ContractError (Storage × Response)
unfolding take_payload
sudo_timeout req s = do (payload, s') ← take_payload req s; sudo_failed_callback payload s'
