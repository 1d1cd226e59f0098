-- ===== src/StakeManager/Setup/Register.antt =====
-- contracts/stake_manager/src/execute_register_pool.rs and execute_open_channel.rs.
pub mod Opened
use neutron_contracts.Base.{
  Bool, List, Option, Outcome, String, [], err, fail_if, false, has, if◌then◌else◌, ltb, nat_eq,
  none, not, ok, ok_or, pair_eq, save, some, string_eq, true, unwrap, ◌&&◌, ◌-◌, ◌/◌, ◌==◌, ◌>>=◌,
  ◌>>◌, ◌||◌, ◌∷◌,
}
use neutron_contracts.Base.Int.{pos}
use neutron_contracts.Base.Text.{is_empty, split}
use neutron_contracts.Base.Text.Search.{byte_length, has_text, is_blank, strip_suffix}
use neutron_contracts.StakeManager.Types.{
  Addr, Coin, IcaInfo, PoolInfo, coin_eq, end, era_status_eq, register_ended,
  validator_update_status_eq,
}
use neutron_contracts.StakeManager.Errors.{
  ContractError, cant_parse_counterparty_version, closed_channel_id_unmatch,
  counterparty_version_not_match, interchain_account_id_already_exist,
  invalid_interchain_account_id, params_error_funds_not_match, unauthorized,
}
use neutron_contracts.StakeManager.Messages.{
  Env, MessageInfo, Response, message, register_interchain_account,
}
use neutron_contracts.StakeManager.Storage.{Storage, load_pool, or_not_found, save_pool}
use neutron_contracts.StakeManager.Helper.{fee_denom, load_ica}
use neutron_contracts.StakeManager.Era.Update.{empty_snapshot}
use neutron_contracts.StakeManager.Era.Collect.{get_withdraw_ica_id}
use neutron_contracts.StakeManager.Setup.Icq.{
  Icq, OpenAckVersion, ica_withdraw_sufix, interchain_account_id_len_limit, second_of_two,
}

unfoldable pub invalid_ica_id : String → Bool
invalid_ica_id id =
    is_blank id
    || has_text "." id
    || has_text "-" id
    || has_text ica_withdraw_sufix id
    || ltb interchain_account_id_len_limit (byte_length id)

-- An account before the counterparty has opened its channel.
abbrev pub unopened : String → String → IcaInfo
unopened connection_id port_id = record {
  ctrl_connection_id = connection_id;
  host_connection_id = "";
  ctrl_channel_id = "";
  host_channel_id = "";
  ctrl_port_id = port_id;
  ica_addr = "";
}

-- The fee of each of the two registrations: half of the one coin that was sent.
unfoldable pub half_fee : List Coin → Option (List Coin)
half_fee (c ∷ []) =
    if c.denom == fee_denom
    then some (record { denom = c.denom; amount = c.amount / 2 } ∷ [])
    else none
half_fee _ = none

unfoldable pub execute_register_pool :
    Icq → Env → MessageInfo → String → String → Storage → Outcome ContractError (Storage × Response)
execute_register_pool icq env info connection_id interchain_account_id s = do
  stack ← or_not_found s.stack
  fail_if (not (stack.admin == info.sender)) unauthorized
  fail_if (invalid_ica_id interchain_account_id) invalid_interchain_account_id
  fail_if (has interchain_account_id s.info_of_ica_id) interchain_account_id_already_exist
  fee ← ok_or (half_fee info.funds) params_error_funds_not_match
  let withdraw_ica_id = get_withdraw_ica_id interchain_account_id
  let pool_ica = unopened connection_id (icq.get_port_id env.contract_address interchain_account_id)
  let withdraw_ica = unopened connection_id (icq.get_port_id env.contract_address withdraw_ica_id)
  ok (
    record s {
      info_of_ica_id =
          save interchain_account_id (pool_ica, withdraw_ica, info.sender) s.info_of_ica_id;
    },
    message (register_interchain_account connection_id interchain_account_id (some fee))
        ∷ message (register_interchain_account connection_id withdraw_ica_id (some fee))
        ∷ [],
  )

-- The pool of an account whose two channels are open.
abbrev pub registered_pool : String → Addr → PoolInfo
registered_pool ica_id admin = record {
  bond = 0;
  unbond = 0;
  active = 0;
  lsd_token = "";
  ica_id = ica_id;
  ibc_denom = "";
  channel_id_of_ibc_denom = "";
  remote_denom = "";
  validator_addrs = [];
  era = 0;
  rate = 0;
  minimal_stake = 0;
  unstake_times_limit = 0;
  next_unstake_index = 0;
  unbonding_period = 0;
  status = register_ended;
  validator_update_status = end;
  platform_fee_commission = 0;
  total_platform_fee = 0;
  total_lsd_token_amount = 0;
  unbond_commission = 0;
  platform_fee_receiver = "";
  admin = admin;
  era_seconds = 0;
  offset = pos 0;
  share_tokens = [];
  redeemming_share_token_denom = [];
  era_snapshot = empty_snapshot;
  paused = false;
  lsm_support = false;
  lsm_pending_limit = 0;
  rate_change_limit = 0;
  sdk_greater_or_equal_v047 = false;
}

-- The account with the channel that was opened.
abbrev pub opened : OpenAckVersion → String → String → String → IcaInfo → IcaInfo
opened version port_id channel_id counterparty_channel_id ica = record ica {
  ctrl_channel_id = channel_id;
  ctrl_port_id = port_id;
  host_connection_id = version.host_connection_id;
  host_channel_id = counterparty_channel_id;
  ica_addr = version.address;
}

-- The account's id, and whether it is the pool's own account.
unfoldable pub account_of : String → Outcome ContractError (Bool × String)
account_of raw =
    if has_text ica_withdraw_sufix raw
    then (do ica_id ← unwrap (strip_suffix ica_withdraw_sufix raw); ok (false, ica_id))
    else ok (true, raw)

-- Stores both accounts, and the pool when both are open for the first time.
unfoldable pub open_account : String → IcaInfo → IcaInfo → Addr → Storage → Storage
open_account ica_id pool_ica withdraw_ica admin s =
    let s' =
      (if not (is_empty pool_ica.ica_addr)
          && not (is_empty withdraw_ica.ica_addr)
          && not (has pool_ica.ica_addr s.pools)
        then save_pool pool_ica.ica_addr (registered_pool ica_id admin) s
        else s) in
    record s' { info_of_ica_id = save ica_id (pool_ica, withdraw_ica, admin) s'.info_of_ica_id }

unfoldable pub sudo_open_ack :
    Icq → String → String → String → String → Storage → Outcome ContractError (Storage × Response)
unfolding account_of open_account
sudo_open_ack icq port_id channel_id counterparty_channel_id counterparty_version s = do
  version ← ok_or (icq.parse_version counterparty_version) cant_parse_counterparty_version
  raw ← ok_or (second_of_two (split "." port_id)) counterparty_version_not_match
  (is_pool, ica_id) ← account_of raw
  (pool_ica, withdraw_ica, admin) ← load_ica ica_id s
  let new = opened version port_id channel_id counterparty_channel_id
  ok (
    if is_pool
        then open_account ica_id (new pool_ica) withdraw_ica admin s
        else open_account ica_id pool_ica (new withdraw_ica) admin s,
    [],
  )

-- `if !info.funds.is_empty() { Some(info.funds) } else { None }`
abbrev pub fee_of : List Coin → Option (List Coin)
fee_of [] = none
fee_of (c ∷ cs) = some (c ∷ cs)

unfoldable pub execute_open_channel :
    MessageInfo → String → String → Storage → Outcome ContractError (Storage × Response)
execute_open_channel info pool_addr closed_channel_id s = do
  p ← load_pool pool_addr s
  fail_if (not (info.sender == p.admin)) unauthorized
  (pool_ica, withdraw_ica, _) ← load_ica p.ica_id s
  if closed_channel_id == pool_ica.ctrl_channel_id
      then ok (
        s,
        message
              (register_interchain_account pool_ica.ctrl_connection_id p.ica_id (fee_of info.funds))
            ∷ [],
      )
      else (if closed_channel_id == withdraw_ica.ctrl_channel_id
          then ok (
            s,
            message (
                  register_interchain_account withdraw_ica.ctrl_connection_id
                    (get_withdraw_ica_id p.ica_id) (fee_of info.funds))
                ∷ [],
          )
          else err closed_channel_id_unmatch)
