-- ===== src/StakeManager/Era/Collect.antt =====
-- contracts/stake_manager/src/execute_era_collect_withdraw.rs.
use neutron_contracts.Base.{
  List, Outcome, String, [], eqb, err, fail_if, if◌then◌else◌, leb, nat_eq, not, ok, pair_eq, panic,
  string_eq, ℕ, ◌==◌, ◌>>=◌, ◌>>◌, ◌∷◌,
}
use neutron_contracts.Base.Text.{concat}
use neutron_contracts.StakeManager.Types.{
  BalanceResponse, Coin, PoolInfo, SudoPayload, bond_ended, coin_eq, era_collect_withdraw,
  era_status_eq, validator_update_status_eq, withdraw_ended, withdraw_started,
}
use neutron_contracts.StakeManager.Errors.{
  ContractError, status_not_allow, withdraw_addr_balance_submission_height,
}
use neutron_contracts.StakeManager.Messages.{Env, MessageInfo, Response, submit_tx}
use neutron_contracts.StakeManager.Storage.{Storage, load_pool, save_pool}
use neutron_contracts.StakeManager.Helper.{
  Sdk, check_ibc_fee, default_timeout_seconds, gen_msg_send, load_ica, msg_with_sudo_callback,
  query_balance_by_addr,
}

-- `iter().find(|c| c.denom == denom).map(|c| c.amount).unwrap_or(0)`
unfoldable pub amount_of : String → List Coin → ℕ
amount_of denom [] = 0
amount_of denom (c ∷ cs) = if c.denom == denom then c.amount else amount_of denom cs

-- What the withdraw account holds. A query that fails counts as nothing held.
unfoldable pub withdraw_amount :
    PoolInfo → Outcome ContractError BalanceResponse → Outcome ContractError ℕ
unfolding amount_of
withdraw_amount p (ok response) = do
  fail_if (leb response.last_submitted_local_height p.era_snapshot.last_step_height)
      withdraw_addr_balance_submission_height
  ok (amount_of p.remote_denom response.coins)
withdraw_amount p (err e) = ok 0
withdraw_amount p panic = panic

-- `get_withdraw_ica_id` of helper.rs
abbrev pub get_withdraw_ica_id : String → String
get_withdraw_ica_id id = concat id "-withdraw_addr"

unfoldable pub execute_era_collect_withdraw :
    Sdk → MessageInfo → String → Storage → Outcome ContractError (Storage × Response)
unfolding withdraw_amount
execute_era_collect_withdraw sdk info pool_addr s = do
  old ← load_pool pool_addr s
  fail_if (not (old.status == bond_ended)) status_not_allow
  let p = record old { status = withdraw_started }
  (_, withdraw_ica_info, _) ← load_ica p.ica_id s
  amount ←
      withdraw_amount p
        (query_balance_by_addr sdk s withdraw_ica_info.ica_addr p.sdk_greater_or_equal_v047)
  if eqb amount 0
      then ok (save_pool pool_addr (record p { status = withdraw_ended }) s, [])
      else (do
        ibc_fee ← check_ibc_fee sdk info
        (sub_msg, s') ←
            msg_with_sudo_callback
              (submit_tx (record {
                connection_id = withdraw_ica_info.ctrl_connection_id;
                interchain_account_id = get_withdraw_ica_id p.ica_id;
                msgs = gen_msg_send withdraw_ica_info.ica_addr pool_addr p.remote_denom amount ∷ [];
                memo = "";
                timeout = default_timeout_seconds;
                fee = ibc_fee;
              }))
              (record {
                message = "";
                pool_addr = pool_addr;
                port_id = withdraw_ica_info.ctrl_port_id;
                tx_type = era_collect_withdraw;
              })
              s
        let snapshot = p.era_snapshot
        let p' = record p { era_snapshot = record snapshot { restake_amount = amount } }
        ok (save_pool pool_addr p' s', sub_msg ∷ []))

unfoldable pub sudo_era_collect_withdraw_callback :
    Env → SudoPayload → Storage → Outcome ContractError (Storage × Response)
sudo_era_collect_withdraw_callback env payload s = do
  p ← load_pool payload.pool_addr s
  let snapshot = p.era_snapshot
  let p' = record p {
    status = withdraw_ended;
    era_snapshot = record snapshot { last_step_height = env.height };
  }
  ok (save_pool payload.pool_addr p' s, [])

unfoldable pub sudo_era_collect_withdraw_failed_callback :
    SudoPayload → Storage → Outcome ContractError (Storage × Response)
sudo_era_collect_withdraw_failed_callback payload s = do
  p ← load_pool payload.pool_addr s
  ok (save_pool payload.pool_addr (record p { status = bond_ended }) s, [])
