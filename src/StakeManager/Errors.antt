-- ===== src/StakeManager/Errors.antt =====
-- contracts/stake_manager/src/error_conversion.rs: the errors of the contract, with those of the
-- standard library (`std`) and of the neutron SDK (`sdk_error`) that its calls pass on.
use neutron_contracts.Base.{ℕ, String}

pub data StdError : Type 0 where
  not_found overflow generic_err : StdError

pub data ContractError : Type 0 where
  std : StdError → ContractError
  sdk_error : ContractError
  unauthorized status_not_allow pending_share_not_empty delegations_not_exist : ContractError
  rate_change_over_limit : ContractError
  encode_error : String → ContractError
  validator_for_unbond_not_enough delegation_submission_height : ContractError
  withdraw_addr_balance_submission_height pool_is_paused already_latest_era : ContractError
  validator_address_list_size rate_is_zero : ContractError
  instantiate2_address_failed : String → ContractError
  rate_not_match closed_channel_id_unmatch era_process_not_end validator_already_exit :
      ContractError
  validators_empty old_validator_not_exist new_validator_already_exist : ContractError
  tokens_len_not_match share_token_not_exist duplicate_token : ContractError
  invalid_interchain_account_id interchain_account_id_already_exist : ContractError
  counterparty_version_not_match cant_parse_counterparty_version : ContractError
  lsm_stake_not_support lsm_pending_stake_over_limit pool_icq_not_updated : ContractError
  params_error_funds_not_match less_than_minimal_stake less_than_minimal_era_seconds : ContractError
  exceed_max_era_seconds denom_not_match denom_path_not_match denom_trace_not_match : ContractError
  validator_not_support token_amount_zero no_validator_info : ContractError
  unsupported_message : String → ContractError
  unsupported_reply_id : ℕ → ContractError
  encode_err_lsd_token_amount_zero encode_err_unstake_times_limit_reached : ContractError
  encode_err_zero_withdraw_amount burn_lsd_token_amount_is_zero empty_unstake_list : ContractError
  unstake_index_pool_not_match unstake_index_unstaker_not_match : ℕ → ContractError
  unstake_index_status_not_match unstake_index_not_withdrawable : ℕ → ContractError
  icq_err_reply_no_result : ContractError
  icq_err_failed_parse : String → ContractError
  icq_new_key_build_failed call_back_err_sequence_not_found : ContractError
  call_back_err_channel_id_not_found call_back_err_error_msg period_too_small : ContractError
