-- ===== src/StakeManager/Era/Update.antt =====
-- contracts/stake_manager/src/execute_era_update.rs.
use neutron_contracts.Base.{
  Outcome, String, [], eqb, fail_if, if◌then◌else◌, leb, map, nat_eq, not, ok, pair_eq, string_eq,
  ℕ, ◌*◌, ◌++◌, ◌==◌, ◌>>=◌, ◌>>◌, ◌||◌, ◌∷◌,
}
use neutron_contracts.Base.Int.{saturating_add_signed}
use neutron_contracts.Base.U64
use neutron_contracts.StakeManager.Types.{
  EraSnapshot, PoolInfo, SudoPayload, active_ended, coin_eq, end, era_status_eq, era_update,
  era_update_ended, era_update_started, validator_update_status_eq,
}
use neutron_contracts.StakeManager.Errors.{
  ContractError, already_latest_era, pool_is_paused, status_not_allow,
}
use neutron_contracts.StakeManager.Messages.{
  Env, MessageInfo, Response, ibc_transfer, message, seconds,
}
use neutron_contracts.StakeManager.Storage.{Storage, load_pool, save_pool}
use neutron_contracts.StakeManager.Helper.{
  Sdk, check_ibc_fee, default_fast_period, default_timeout_seconds, get_update_pool_icq_msgs,
  load_ica, msg_with_sudo_callback,
}

-- `seconds.div(era_seconds).saturating_add_signed(offset)`
unfoldable pub current_era : Env → PoolInfo → Outcome ContractError ℕ
current_era env p = do
  quotient ← U64.div (seconds env) p.era_seconds
  ok (saturating_add_signed quotient p.offset)

abbrev pub empty_snapshot : EraSnapshot
empty_snapshot = record {
  era = 0;
  bond = 0;
  unbond = 0;
  active = 0;
  restake_amount = 0;
  last_step_height = 0;
}

-- The pool with the next era begun, before the status for an empty bond is set.
unfoldable pub begin_era : Env → PoolInfo → Outcome ContractError PoolInfo
begin_era env p = do
  era ← U64.add p.era 1
  let snapshot : EraSnapshot = record {
    era = era;
    bond = p.bond;
    unbond = p.unbond;
    active = p.active;
    restake_amount = 0;
    last_step_height = env.height;
  }
  ok (record p { status = era_update_started; era = era; era_snapshot = snapshot })

-- `env.block.time.nanos() + DEFAULT_TIMEOUT_SECONDS * 1_000_000_000`
unfoldable pub timeout_timestamp : Env → Outcome ContractError ℕ
timeout_timestamp env = U64.add env.nanos (default_timeout_seconds * 1000000000)

unfoldable pub execute_era_update :
    Sdk → Env → MessageInfo → String → Storage → Outcome ContractError (Storage × Response)
unfolding current_era begin_era timeout_timestamp
execute_era_update sdk env info pool_addr s = do
  old ← load_pool pool_addr s
  fail_if old.paused pool_is_paused
  fail_if (not (old.status == active_ended) || not (old.validator_update_status == end))
      status_not_allow
  era ← current_era env old
  fail_if (leb era old.era) already_latest_era
  p ← begin_era env old
  icq_msgs ← get_update_pool_icq_msgs sdk s pool_addr p.ica_id default_fast_period
  if eqb p.era_snapshot.bond 0
      then ok (save_pool pool_addr (record p { status = era_update_ended }) s, map message icq_msgs)
      else (do
        ibc_fee ← check_ibc_fee sdk info
        timeout ← timeout_timestamp env
        (pool_ica_info, _, _) ← load_ica p.ica_id s
        (sub_msg, s') ←
            msg_with_sudo_callback
              (ibc_transfer (record {
                source_port = "transfer";
                source_channel = p.channel_id_of_ibc_denom;
                sender = env.contract_address;
                receiver = pool_addr;
                token = record { denom = p.ibc_denom; amount = p.era_snapshot.bond };
                timeout_timestamp = timeout;
                memo = "";
                fee = ibc_fee;
              }))
              (record {
                message = "";
                pool_addr = pool_addr;
                port_id = pool_ica_info.ctrl_port_id;
                tx_type = era_update;
              })
              s
        ok (save_pool pool_addr p s', map message icq_msgs ++ sub_msg ∷ []))

unfoldable pub sudo_era_update_callback :
    Env → SudoPayload → Storage → Outcome ContractError (Storage × Response)
sudo_era_update_callback env payload s = do
  p ← load_pool payload.pool_addr s
  let snapshot = p.era_snapshot
  let p' = record p {
    status = era_update_ended;
    era_snapshot = record snapshot { last_step_height = env.height };
  }
  ok (save_pool payload.pool_addr p' s, [])

unfoldable pub sudo_era_update_failed_callback :
    SudoPayload → Storage → Outcome ContractError (Storage × Response)
sudo_era_update_failed_callback payload s = do
  p ← load_pool payload.pool_addr s
  era ← U64.sub p.era 1
  let p' = record p { era = era; status = active_ended; era_snapshot = empty_snapshot }
  ok (save_pool payload.pool_addr p' s, [])
