-- ===== src/StakeManager/Setup/Validators.antt =====
-- contracts/stake_manager/src/execute_pool_add_validator.rs, execute_update_validators_icq.rs and
-- execute_pool_delegate.rs.
pub mod Delegate
use neutron_contracts.Base.{
  List, Outcome, String, [], contains, eqb, fail_if, leb, length, map, nat_eq, not, ok, pair_eq,
  push, string_eq, ℕ, ◌==◌, ◌>>=◌, ◌>>◌, ◌∷◌,
}
use neutron_contracts.Base.Uint128
use neutron_contracts.StakeManager.Types.{
  PoolInfo, active_ended, coin_eq, end, era_status_eq, validator_update_status_eq,
  wait_query_update,
}
use neutron_contracts.StakeManager.Errors.{
  ContractError, era_process_not_end, status_not_allow, unauthorized, validator_address_list_size,
  validator_already_exit, validators_empty,
}
use neutron_contracts.StakeManager.Messages.{MessageInfo, ProtobufAny, Response, message, submit_tx}
use neutron_contracts.StakeManager.Storage.{Storage, load_pool, save_pool}
use neutron_contracts.StakeManager.Helper.{
  Sdk, check_ibc_fee, default_timeout_seconds, gen_delegation_txs, load_ica,
}
use neutron_contracts.StakeManager.Setup.Icq.{Icq, deal_validators_icq_update, validater_len_limit}

unfoldable pub execute_add_pool_validators :
    Icq → MessageInfo → String → String → Storage → Outcome ContractError (Storage × Response)
execute_add_pool_validators icq info pool_addr validator_addr s = do
  p ← load_pool pool_addr s
  fail_if (not (info.sender == p.admin)) unauthorized
  fail_if (not (p.status == active_ended)) era_process_not_end
  fail_if (leb validater_len_limit (length p.validator_addrs)) validator_address_list_size
  fail_if (contains p.validator_addrs validator_addr) validator_already_exit
  let p' = record p { validator_addrs = push p.validator_addrs validator_addr }
  let s' = save_pool pool_addr p' s
  (pool_ica_info, _, _) ← load_ica p'.ica_id s'
  deal_validators_icq_update icq pool_addr p' pool_ica_info.ctrl_connection_id s'

unfoldable pub execute_update_validators_icq :
    Icq → MessageInfo → String → Storage → Outcome ContractError (Storage × Response)
execute_update_validators_icq icq info pool_addr s = do
  p ← load_pool pool_addr s
  fail_if (not (info.sender == p.admin)) unauthorized
  fail_if (not (p.validator_update_status == wait_query_update)) status_not_allow
  let p' = record p { validator_update_status = end }
  let s' = save_pool pool_addr p' s
  (pool_ica_info, _, _) ← load_ica p'.ica_id s'
  deal_validators_icq_update icq pool_addr p' pool_ica_info.ctrl_connection_id s'

-- The loop over the validators: the first one takes the remainder as well.
unfoldable pub delegate_pool :
    PoolInfo → String → ℕ → ℕ → List String → Outcome ContractError (List ProtobufAny)
delegate_pool p pool_addr amount remainder [] = ok []
delegate_pool p pool_addr amount remainder (v ∷ vs) = do
  first ← Uint128.add amount remainder
  ok (
      gen_delegation_txs pool_addr v p.remote_denom first
      ∷ map (λ w. gen_delegation_txs pool_addr w p.remote_denom amount) vs)

-- The messages for the amount.
unfoldable pub pool_delegations : PoolInfo → String → ℕ → Outcome ContractError (List ProtobufAny)
unfolding delegate_pool
pool_delegations p pool_addr stake_amount = do
  amount_per_validator ← Uint128.div stake_amount (length p.validator_addrs)
  used ← Uint128.mul amount_per_validator (length p.validator_addrs)
  remainder ← Uint128.sub stake_amount used
  delegate_pool p pool_addr amount_per_validator remainder p.validator_addrs

unfoldable pub execute_pool_delegate :
    Sdk → MessageInfo → String → ℕ → Storage → Outcome ContractError (Storage × Response)
unfolding pool_delegations
execute_pool_delegate sdk info pool_addr stake_amount s = do
  p ← load_pool pool_addr s
  fail_if (not (p.status == active_ended)) status_not_allow
  fail_if (not (info.sender == p.admin)) unauthorized
  fail_if (eqb (length p.validator_addrs) 0) validators_empty
  msgs ← pool_delegations p pool_addr stake_amount
  (pool_ica_info, _, _) ← load_ica p.ica_id s
  ibc_fee ← check_ibc_fee sdk info
  ok (
    s,
    message (
          submit_tx (record {
            connection_id = pool_ica_info.ctrl_connection_id;
            interchain_account_id = p.ica_id;
            msgs = msgs;
            memo = "";
            timeout = default_timeout_seconds;
            fee = ibc_fee;
          }))
        ∷ [],
  )
