-- ===== src/StakeManager/Validators.antt =====
-- contracts/stake_manager/src/execute_pool_rm_validator.rs and execute_pool_update_validator.rs.
pub mod Update
pub mod Acknowledged
use neutron_contracts.Base.{
  List, Option, Outcome, String, [], contains, eqb, fail_if, if◌then◌else◌, leb, length, nat_eq,
  none, not, ok, pair_eq, push, retain, some, string_eq, unwrap, ◌==◌, ◌>>=◌, ◌>>◌, ◌∷◌,
}
use neutron_contracts.Base.Text.{join, split}
use neutron_contracts.StakeManager.Types.{
  Delegation, PoolInfo, SudoPayload, active_ended, coin_eq, end, era_status_eq, rm_validator, start,
  update_validator, validator_update_status_eq, wait_query_update,
}
use neutron_contracts.StakeManager.Errors.{
  ContractError, era_process_not_end, new_validator_already_exist, old_validator_not_exist,
  status_not_allow, unauthorized, validator_address_list_size,
}
use neutron_contracts.StakeManager.Messages.{MessageInfo, ProtobufAny, Response, submit_tx}
use neutron_contracts.StakeManager.Storage.{Storage, load_pool, save_pool}
use neutron_contracts.StakeManager.Helper.{
  Sdk, check_ibc_fee, default_timeout_seconds, gen_redelegate_txs, load_ica, msg_with_sudo_callback,
  query_delegation_by_addr,
}

-- `iter().find(|d| d.validator == validator_addr)`
unfoldable pub find_delegation : String → List Delegation → Option Delegation
find_delegation v [] = none
find_delegation v (d ∷ ds) = if d.validator == v then some d else find_delegation v ds

-- `left_validators.get(0)`
abbrev pub first : List String → Option String
first [] = none
first (v ∷ vs) = some v

-- Removes the validator at once when it holds nothing, else moves its stake to the first left.
unfoldable pub remove_or_redelegate :
    Sdk
    → MessageInfo
    → String
    → String
    → PoolInfo
    → Option Delegation
    → Storage
    → Outcome ContractError (Storage × Response)
remove_or_redelegate sdk info pool_addr validator_addr p none s = ok (
  save_pool pool_addr
      (record p {
        validator_update_status = wait_query_update;
        validator_addrs = retain (λ v. not (v == validator_addr)) p.validator_addrs;
      })
      s,
  [],
)
remove_or_redelegate sdk info pool_addr validator_addr p (some d) s =
    if eqb d.amount.amount 0
    then ok (
      save_pool pool_addr
          (record p {
            validator_update_status = wait_query_update;
            validator_addrs = retain (λ v. not (v == validator_addr)) p.validator_addrs;
          })
          s,
      [],
    )
    else (do
      ibc_fee ← check_ibc_fee sdk info
      (pool_ica_info, _, _) ← load_ica p.ica_id s
      target ← unwrap (first (retain (λ v. not (v == validator_addr)) p.validator_addrs))
      (sub_msg, s') ←
          msg_with_sudo_callback
            (submit_tx (record {
              connection_id = pool_ica_info.ctrl_connection_id;
              interchain_account_id = p.ica_id;
              msgs =
                  gen_redelegate_txs pool_addr d.validator target p.remote_denom d.amount.amount
                  ∷ [];
              memo = "";
              timeout = default_timeout_seconds;
              fee = ibc_fee;
            }))
            (record {
              message = validator_addr;
              pool_addr = pool_ica_info.ica_addr;
              port_id = pool_ica_info.ctrl_port_id;
              tx_type = rm_validator;
            })
            s
      ok (save_pool pool_addr (record p { validator_update_status = start }) s', sub_msg ∷ []))

unfoldable pub execute_rm_pool_validator :
    Sdk → MessageInfo → String → String → Storage → Outcome ContractError (Storage × Response)
unfolding remove_or_redelegate find_delegation
execute_rm_pool_validator sdk info pool_addr validator_addr s = do
  p ← load_pool pool_addr s
  fail_if (not (info.sender == p.admin)) unauthorized
  fail_if (not (p.status == active_ended)) era_process_not_end
  fail_if (not (contains p.validator_addrs validator_addr)) old_validator_not_exist
  fail_if (not (p.validator_update_status == end)) status_not_allow
  response ← query_delegation_by_addr sdk s pool_addr p.sdk_greater_or_equal_v047
  fail_if (leb (length p.validator_addrs) 1) validator_address_list_size
  remove_or_redelegate sdk info pool_addr validator_addr p
      (find_delegation validator_addr response.delegations) s

unfoldable pub sudo_rm_validator_callback :
    SudoPayload → Storage → Outcome ContractError (Storage × Response)
sudo_rm_validator_callback payload s = do
  p ← load_pool payload.pool_addr s
  let p' = record p {
    validator_addrs = retain (λ v. not (v == payload.message)) p.validator_addrs;
    validator_update_status = wait_query_update;
  }
  ok (save_pool payload.pool_addr p' s, [])

unfoldable pub sudo_rm_validator_failed_callback :
    SudoPayload → Storage → Outcome ContractError (Storage × Response)
sudo_rm_validator_failed_callback payload s = do
  p ← load_pool payload.pool_addr s
  ok (save_pool payload.pool_addr (record p { validator_update_status = end }) s, [])

-- The loop over the delegations: those of the old validator are moved, up to the first empty one.
unfoldable pub redelegate_all :
    PoolInfo → String → String → String → List Delegation → List ProtobufAny
redelegate_all p pool_addr old new [] = []
redelegate_all p pool_addr old new (d ∷ ds) =
    let rest = redelegate_all p pool_addr old new ds in
    if not (d.validator == old)
    then rest
    else (if eqb d.amount.amount 0
        then []
        else gen_redelegate_txs pool_addr d.validator new p.remote_denom d.amount.amount ∷ rest)

unfoldable pub execute_pool_update_validator :
    Sdk
    → MessageInfo
    → String
    → String
    → String
    → Storage
    → Outcome ContractError (Storage × Response)
unfolding redelegate_all
execute_pool_update_validator sdk info pool_addr old_validator new_validator s = do
  p ← load_pool pool_addr s
  fail_if (not (info.sender == p.admin)) unauthorized
  fail_if (not (p.status == active_ended)) era_process_not_end
  fail_if (not (p.validator_update_status == end)) status_not_allow
  fail_if (not (contains p.validator_addrs old_validator)) old_validator_not_exist
  fail_if (contains p.validator_addrs new_validator) new_validator_already_exist
  response ← query_delegation_by_addr sdk s pool_addr p.sdk_greater_or_equal_v047
  let new_validators = push (retain (λ v. not (v == old_validator)) p.validator_addrs) new_validator
  let msgs = redelegate_all p pool_addr old_validator new_validator response.delegations
  (pool_ica_info, _, _) ← load_ica p.ica_id s
  if eqb (length msgs) 0
      then ok (
        save_pool pool_addr
            (record p {
              validator_update_status = wait_query_update;
              validator_addrs = new_validators;
            })
            s,
        [],
      )
      else (do
        ibc_fee ← check_ibc_fee sdk info
        (sub_msg, s') ←
            msg_with_sudo_callback
              (submit_tx (record {
                connection_id = pool_ica_info.ctrl_connection_id;
                interchain_account_id = p.ica_id;
                msgs = msgs;
                memo = "";
                timeout = default_timeout_seconds;
                fee = ibc_fee;
              }))
              (record {
                message = join "_" new_validators;
                pool_addr = pool_ica_info.ica_addr;
                port_id = pool_ica_info.ctrl_port_id;
                tx_type = update_validator;
              })
              s
        ok (
          save_pool pool_addr
              (record p { validator_update_status = start; validator_addrs = new_validators }) s',
          sub_msg ∷ [],
        ))

unfoldable pub sudo_update_validator_callback :
    SudoPayload → Storage → Outcome ContractError (Storage × Response)
sudo_update_validator_callback payload s = do
  p ← load_pool payload.pool_addr s
  let p' = record p {
    validator_addrs = split "_" payload.message;
    validator_update_status = wait_query_update;
  }
  ok (save_pool payload.pool_addr p' s, [])

unfoldable pub sudo_update_validator_failed_callback :
    SudoPayload → Storage → Outcome ContractError (Storage × Response)
sudo_update_validator_failed_callback payload s = do
  p ← load_pool payload.pool_addr s
  ok (save_pool payload.pool_addr (record p { validator_update_status = end }) s, [])
