-- ===== src/StakeManager/Era/Rebond.antt =====
-- contracts/stake_manager/src/execute_era_rebond.rs.
pub mod Split
pub mod Repeat
use neutron_contracts.Base.{
  List, Outcome, String, [], contains, eqb, fail_if, if◌then◌else◌, length, nat_eq, not, ok,
  pair_eq, string_eq, ℕ, ◌==◌, ◌>>=◌, ◌>>◌, ◌∷◌,
}
use neutron_contracts.Base.Uint128
use neutron_contracts.StakeManager.Types.{
  PoolInfo, SudoPayload, coin_eq, era_rebond, era_status_eq, rebond_ended, rebond_started,
  validator_update_status_eq, withdraw_ended,
}
use neutron_contracts.StakeManager.Errors.{
  ContractError, status_not_allow, validator_not_support, validators_empty,
}
use neutron_contracts.StakeManager.Messages.{Env, MessageInfo, ProtobufAny, Response, submit_tx}
use neutron_contracts.StakeManager.Storage.{Storage, load_pool, save_pool}
use neutron_contracts.StakeManager.Helper.{
  Sdk, check_ibc_fee, default_timeout_seconds, gen_delegation_txs, load_ica, msg_with_sudo_callback,
}

-- The delegations of the loop's later rounds: `amount` to each validator.
unfoldable pub delegate_each :
    PoolInfo → String → ℕ → List String → Outcome ContractError (List ProtobufAny)
delegate_each p pool_addr amount [] = ok []
delegate_each p pool_addr amount (v ∷ vs) = do
  fail_if (not (contains p.validator_addrs v)) validator_not_support
  rest ← delegate_each p pool_addr amount vs
  ok (gen_delegation_txs pool_addr v p.remote_denom amount ∷ rest)

-- The loop: the first validator takes the remainder as well.
unfoldable pub delegate_evenly :
    PoolInfo → String → ℕ → ℕ → List String → Outcome ContractError (List ProtobufAny)
delegate_evenly p pool_addr amount remainder [] = ok []
delegate_evenly p pool_addr amount remainder (v ∷ vs) = do
  fail_if (not (contains p.validator_addrs v)) validator_not_support
  first ← Uint128.add amount remainder
  rest ← delegate_each p pool_addr amount vs
  ok (gen_delegation_txs pool_addr v p.remote_denom first ∷ rest)

-- Splits the amount over the validators that were chosen.
unfoldable pub split_stake :
    PoolInfo → String → ℕ → List String → Outcome ContractError (List ProtobufAny)
unfolding delegate_each delegate_evenly
split_stake p pool_addr total select_vals = do
  amount_per_validator ← Uint128.div total (length select_vals)
  used ← Uint128.mul amount_per_validator (length select_vals)
  remainder ← Uint128.sub total used
  delegate_evenly p pool_addr amount_per_validator remainder select_vals

unfoldable pub execute_era_rebond :
    Sdk → MessageInfo → String → List String → Storage → Outcome ContractError (Storage × Response)
unfolding split_stake
execute_era_rebond sdk info pool_addr select_vals s = do
  old ← load_pool pool_addr s
  fail_if (not (old.status == withdraw_ended)) status_not_allow
  let p = record old { status = rebond_started }
  (pool_ica_info, _, _) ← load_ica p.ica_id s
  let restake_amount = p.era_snapshot.restake_amount
  if eqb restake_amount 0
      then ok (save_pool pool_addr (record p { status = rebond_ended }) s, [])
      else (do
        fail_if (eqb (length select_vals) 0) validators_empty
        msgs ← split_stake p pool_addr restake_amount select_vals
        ibc_fee ← check_ibc_fee sdk info
        (sub_msg, s') ←
            msg_with_sudo_callback
              (submit_tx (record {
                connection_id = pool_ica_info.ctrl_connection_id;
                interchain_account_id = p.ica_id;
                msgs = msgs;
                memo = "";
                timeout = default_timeout_seconds;
                fee = ibc_fee;
              }))
              (record {
                message = "";
                pool_addr = pool_addr;
                port_id = pool_ica_info.ctrl_port_id;
                tx_type = era_rebond;
              })
              s
        -- The source ends here, without `POOLS.save`.
        ok (s', sub_msg ∷ []))

unfoldable pub sudo_era_rebond_callback :
    Env → SudoPayload → Storage → Outcome ContractError (Storage × Response)
sudo_era_rebond_callback env payload s = do
  p ← load_pool payload.pool_addr s
  let snapshot = p.era_snapshot
  let p' = record p {
    status = rebond_ended;
    era_snapshot = record snapshot { last_step_height = env.height };
  }
  ok (save_pool payload.pool_addr p' s, [])

unfoldable pub sudo_era_rebond_failed_callback :
    SudoPayload → Storage → Outcome ContractError (Storage × Response)
sudo_era_rebond_failed_callback payload s = do
  p ← load_pool payload.pool_addr s
  ok (save_pool payload.pool_addr (record p { status = withdraw_ended }) s, [])
