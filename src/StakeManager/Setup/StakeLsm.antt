-- ===== src/StakeManager/Setup/StakeLsm.antt =====
-- `execute_stake_lsm` of contracts/stake_manager/src/execute_stake_lsm.rs.
use neutron_contracts.Base.{
  List, Option, Outcome, String, [], contains, eqb, fail_if, if◌then◌else◌, leb, length, ltb,
  nat_eq, none, not, ok, ok_or, pair_eq, some, string_eq, ℕ, ◌==◌, ◌>>=◌, ◌>>◌, ◌∷◌,
}
use neutron_contracts.Base.Text.{has_char, join, parse, split, to_string}
use neutron_contracts.Base.Uint128
use neutron_contracts.StakeManager.Types.{
  Coin, TxType, active_ended, coin_eq, end, era_status_eq, validator_update_status_eq,
}
use neutron_contracts.StakeManager.Errors.{
  ContractError, denom_path_not_match, denom_trace_not_match, era_process_not_end, generic_err,
  less_than_minimal_stake, lsm_pending_stake_over_limit, lsm_stake_not_support, no_validator_info,
  params_error_funds_not_match, pool_icq_not_updated, pool_is_paused, std, token_amount_zero,
  validator_not_support,
}
use neutron_contracts.StakeManager.Messages.{Env, MessageInfo, Response, ibc_transfer}
use neutron_contracts.StakeManager.Storage.{Storage, load_pool}
use neutron_contracts.StakeManager.Helper.{Sdk, load_ica, min_ntrn_ibc_fee, msg_with_sudo_callback}
use neutron_contracts.StakeManager.Era.Update.{timeout_timestamp}
use neutron_contracts.StakeManager.Setup.Icq.{
  Icq, Validator, query_denom_trace_from_ibc_denom, query_validator_by_addr, second_of_two,
}

abbrev pub first_of_two : List String → Option String
first_of_two (a ∷ b ∷ []) = some a
first_of_two _ = none

-- The one coin that was sent, whose denomination has a slash.
unfoldable pub share_token : List Coin → Option Coin
share_token (c ∷ []) = if has_char "/" c.denom then some c else none
share_token _ = none

-- `validators.into_iter().find(|val| val.operator_address == validator_addr)`
unfoldable pub find_validator : String → List Validator → Option Validator
find_validator v [] = none
find_validator v (d ∷ ds) = if d.operator_address == v then some d else find_validator v ds

-- `Uint128::from_str(text)?`
abbrev pub parse_amount : String → Outcome ContractError ℕ
parse_amount text = ok_or (parse Uint128.modulus text) (std generic_err)

-- What the shares are worth in the staked token.
unfoldable pub token_amount_of : Validator → ℕ → Outcome ContractError ℕ
token_amount_of validator share_token_amount = do
  val_token_amount ← parse_amount validator.tokens
  val_shares ← parse_amount validator.delegator_shares
  val_share_amount ← Uint128.div val_shares 1000000000000000000
  product ← Uint128.mul share_token_amount val_token_amount
  token_amount ← Uint128.div product val_share_amount
  fail_if (eqb token_amount 0) token_amount_zero
  ok token_amount

unfoldable pub execute_stake_lsm :
    Sdk
    → Icq
    → Env
    → MessageInfo
    → String
    → String
    → Storage
    → Outcome ContractError (Storage × Response)
unfolding token_amount_of share_token find_validator
execute_stake_lsm sdk icq env info neutron_address pool_addr s = do
  p ← load_pool pool_addr s
  fail_if (not p.lsm_support) lsm_stake_not_support
  fail_if (leb p.lsm_pending_limit (length p.share_tokens)) lsm_pending_stake_over_limit
  fail_if (not (p.status == active_ended)) era_process_not_end
  fail_if (not (p.validator_update_status == end)) pool_icq_not_updated
  (pool_ica_info, _, _) ← load_ica p.ica_id s
  fail_if p.paused pool_is_paused
  token ← ok_or (share_token info.funds) params_error_funds_not_match
  fail_if (ltb token.amount p.minimal_stake) less_than_minimal_stake
  trace ← query_denom_trace_from_ibc_denom icq token.denom
  channel ← ok_or (second_of_two (split "/" trace.path)) denom_path_not_match
  validator_addr ← ok_or (first_of_two (split "/" trace.base_denom)) denom_trace_not_match
  fail_if (not (contains p.validator_addrs validator_addr)) validator_not_support
  validators ← query_validator_by_addr sdk icq s pool_addr
  validator ← ok_or (find_validator validator_addr validators) no_validator_info
  token_amount ← token_amount_of validator token.amount
  min_fee ← sdk.query_min_ibc_fee
  timeout ← timeout_timestamp env
  (sub_msg, s') ←
      msg_with_sudo_callback
        (ibc_transfer (record {
          source_port = "transfer";
          source_channel = channel;
          sender = env.contract_address;
          receiver = pool_addr;
          token = token;
          timeout_timestamp = timeout;
          memo = "";
          fee = min_ntrn_ibc_fee min_fee;
        }))
        (record {
          message = join "_" (
              neutron_address
              ∷ to_string token_amount
              ∷ to_string token.amount
              ∷ token.denom
              ∷ trace.base_denom
              ∷ []);
          pool_addr = pool_addr;
          port_id = pool_ica_info.ctrl_port_id;
          tx_type = TxType.stake_lsm;
        })
        s
  ok (s', sub_msg ∷ [])
