-- ===== src/StakeManager/Era/Bond.antt =====
-- contracts/stake_manager/src/execute_era_bond.rs. The order in which a hash set is iterated is a
-- parameter of the contract, `hash_order`.
use neutron_contracts.Base.{
  List, Outcome, String, [], contains, eqb, fail_if, if◌then◌else◌, leb, length, ltb, map, may_load,
  nat_eq, not, ok, pair_eq, push, save, string_eq, ℕ, ◌++◌, ◌==◌, ◌>>=◌, ◌>>◌, ◌||◌, ◌∷◌,
}
use neutron_contracts.Base.Text.{is_empty, join, split}
use neutron_contracts.Base.Uint128
use neutron_contracts.Base.U64
use neutron_contracts.StakeManager.Types.{
  Delegation, PoolInfo, SudoPayload, bond_ended, bond_started, coin_eq, era_bond, era_status_eq,
  era_update_ended, validator_update_status_eq,
}
use neutron_contracts.StakeManager.Errors.{
  ContractError, delegation_submission_height, status_not_allow, validator_for_unbond_not_enough,
  validator_not_support, validators_empty,
}
use neutron_contracts.StakeManager.Messages.{
  Env, MessageInfo, ProtobufAny, Response, seconds, submit_tx,
}
use neutron_contracts.StakeManager.Storage.{Storage, load_pool, or_empty, save_pool}
use neutron_contracts.StakeManager.Helper.{
  Sdk, check_ibc_fee, default_timeout_seconds, gen_delegation_txs, load_ica, msg_with_sudo_callback,
  query_delegation_by_addr, stake_split_threshold, undelegate_msg, withdraw_msg,
}
use neutron_contracts.StakeManager.Era.Allocate.{
  UnbondTimes, ValidatorUnbondInfo, allocate_unbond_amount,
}
use neutron_contracts.StakeManager.Era.Rebond.{split_stake}

-- The set of the texts that are in the first list and not in the second.
unfoldable pub difference : List String → List String → List String
difference [] removed = []
difference (v ∷ vs) removed =
    let rest = difference vs removed in
    if contains removed v || contains rest v then rest else v ∷ rest

-- The rewards of the validators that no other message touches are withdrawn.
unfoldable pub withdraw_others :
    (List String → List String) → String → List String → List String → List ProtobufAny
unfolding difference
withdraw_others hash_order pool_addr delegating_vals op_validators =
    if eqb (length op_validators) (length delegating_vals)
    then []
    else map (withdraw_msg pool_addr) (hash_order (difference delegating_vals op_validators))

-- The messages and the validators of a pool that unbonds at least what it bonds.
unfoldable pub unbond_msgs :
    Sdk
    → (List String → List String)
    → Env
    → PoolInfo
    → String
    → Storage
    → Outcome ContractError (List ProtobufAny × List String × UnbondTimes)
unfolding withdraw_others
unbond_msgs sdk hash_order env p pool_addr s = do
  unbond_amount ← Uint128.sub p.era_snapshot.unbond p.era_snapshot.bond
  response ← query_delegation_by_addr sdk s pool_addr p.sdk_greater_or_equal_v047
  fail_if (leb response.last_submitted_local_height p.era_snapshot.last_step_height)
      delegation_submission_height
  let delegating_vals = map (λ (d : Delegation). d.validator) response.delegations
  (times, infos) ←
      (if ltb 0 unbond_amount
        then (do
          period ← U64.mul p.unbonding_period p.era_seconds
          (times, infos) ←
              allocate_unbond_amount (seconds env) response.delegations unbond_amount period
                s.validators_unbonds_time
          fail_if (eqb (length infos) 0) validator_for_unbond_not_enough
          ok (times, infos))
        else ok (s.validators_unbonds_time, []))
  let op_validators = map (λ (u : ValidatorUnbondInfo). u.validator) infos
  ok (
    map
          (λ (u : ValidatorUnbondInfo).
            undelegate_msg pool_addr u.validator p.remote_denom u.unbond_amount)
          infos
        ++ withdraw_others hash_order pool_addr delegating_vals op_validators,
    op_validators,
    times,
  )

-- Below the threshold the first validator takes all, and the others' rewards are withdrawn.
unfoldable pub withdraw_each :
    PoolInfo → String → List String → Outcome ContractError (List ProtobufAny)
withdraw_each p pool_addr [] = ok []
withdraw_each p pool_addr (v ∷ vs) = do
  fail_if (not (contains p.validator_addrs v)) validator_not_support
  rest ← withdraw_each p pool_addr vs
  ok (withdraw_msg pool_addr v ∷ rest)

unfoldable pub delegate_first :
    PoolInfo → String → ℕ → List String → Outcome ContractError (List ProtobufAny)
unfolding withdraw_each
delegate_first p pool_addr amount [] = ok []
delegate_first p pool_addr amount (v ∷ vs) = do
  fail_if (not (contains p.validator_addrs v)) validator_not_support
  rest ← withdraw_each p pool_addr vs
  ok (gen_delegation_txs pool_addr v p.remote_denom amount ∷ rest)

-- The messages of a pool that bonds more than it unbonds.
unfoldable pub bond_msgs :
    PoolInfo → String → List String → Outcome ContractError (List ProtobufAny)
unfolding delegate_first
bond_msgs p pool_addr select_vals = do
  stake_amount ← Uint128.sub p.era_snapshot.bond p.era_snapshot.unbond
  fail_if (eqb (length select_vals) 0) validators_empty
  if ltb stake_amount stake_split_threshold
      then delegate_first p pool_addr stake_amount select_vals
      else split_stake p pool_addr stake_amount select_vals

-- The messages, the text of the payload, and the unbonding times.
unfoldable pub bond_plan :
    Sdk
    → (List String → List String)
    → Env
    → PoolInfo
    → String
    → List String
    → Storage
    → Outcome ContractError (List ProtobufAny × String × UnbondTimes)
unfolding unbond_msgs bond_msgs
bond_plan sdk hash_order env p pool_addr select_vals s =
    if leb p.era_snapshot.bond p.era_snapshot.unbond
    then (do
      (msgs, op_validators, times) ← unbond_msgs sdk hash_order env p pool_addr s
      ok (msgs, join "_" op_validators, times))
    else (do msgs ← bond_msgs p pool_addr select_vals; ok (msgs, "", s.validators_unbonds_time))

unfoldable pub execute_era_bond :
    Sdk
    → (List String → List String)
    → Env
    → MessageInfo
    → String
    → List String
    → Storage
    → Outcome ContractError (Storage × Response)
execute_era_bond sdk hash_order env info pool_addr select_vals s = do
  p ← load_pool pool_addr s
  fail_if (not (p.status == era_update_ended)) status_not_allow
  (msgs, msg_str, times) ← bond_plan sdk hash_order env p pool_addr select_vals s
  (pool_ica_info, _, _) ← load_ica p.ica_id s
  ibc_fee ← check_ibc_fee sdk info
  (sub_msg, s') ←
      msg_with_sudo_callback
        (submit_tx (record {
          connection_id = pool_ica_info.ctrl_connection_id;
          interchain_account_id = p.ica_id;
          msgs = msgs;
          memo = "";
          timeout = default_timeout_seconds;
          fee = ibc_fee;
        }))
        (record {
          message = msg_str;
          pool_addr = pool_addr;
          port_id = pool_ica_info.ctrl_port_id;
          tx_type = era_bond;
        })
        (record s { validators_unbonds_time = times })
  ok (save_pool pool_addr (record p { status = bond_started }) s', sub_msg ∷ [])

-- Appends the time to the unbondings of each validator.
unfoldable pub record_unbonds : String → ℕ → List String → UnbondTimes → UnbondTimes
record_unbonds pool_addr now [] times = times
record_unbonds pool_addr now (v ∷ vs) times =
    record_unbonds pool_addr now vs
      (save (pool_addr, v) (push (or_empty (may_load (pool_addr, v) times)) now) times)

unfoldable pub sudo_era_bond_callback :
    Env → SudoPayload → Storage → Outcome ContractError (Storage × Response)
unfolding record_unbonds
sudo_era_bond_callback env payload s = do
  p ← load_pool payload.pool_addr s
  let times =
      if is_empty payload.message
      then s.validators_unbonds_time
      else record_unbonds payload.pool_addr (seconds env) (split "_" payload.message)
          s.validators_unbonds_time
  bond ← Uint128.sub p.bond p.era_snapshot.bond
  unbond ← Uint128.sub p.unbond p.era_snapshot.unbond
  let snapshot = p.era_snapshot
  let p' = record p {
    status = bond_ended;
    era_snapshot = record snapshot { last_step_height = env.height };
    bond = bond;
    unbond = unbond;
  }
  ok (save_pool payload.pool_addr p' (record s { validators_unbonds_time = times }), [])

unfoldable pub sudo_era_bond_failed_callback :
    SudoPayload → Storage → Outcome ContractError (Storage × Response)
sudo_era_bond_failed_callback payload s = do
  p ← load_pool payload.pool_addr s
  ok (save_pool payload.pool_addr (record p { status = era_update_ended }) s, [])
