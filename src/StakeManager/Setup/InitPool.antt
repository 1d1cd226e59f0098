-- ===== src/StakeManager/Setup/InitPool.antt =====
-- contracts/stake_manager/src/execute_init_pool.rs and execute_migrate_pool.rs.
pub mod Ready
use neutron_contracts.Base.{
  Bool, List, Option, Outcome, String, [], eqb, fail_if, false, if◌then◌else◌, length, ltb, nat_eq,
  none, not, ok, pair_eq, panic, some, string_eq, true, ℕ, ◌==◌, ◌>>=◌, ◌>>◌, ◌||◌, ◌∷◌,
}
use neutron_contracts.Base.Int.{as_i64, pos, sub_i64, ℤ}
use neutron_contracts.Base.U64
use neutron_contracts.Base.Uint128
use neutron_contracts.StakeManager.Types.{
  Coin, IcaInfo, PoolInfo, coin_eq, end, era_status_eq, init_failed, register_ended,
  validator_update_status_eq,
}
use neutron_contracts.StakeManager.Errors.{
  ContractError, less_than_minimal_era_seconds, params_error_funds_not_match, rate_is_zero,
  rate_not_match, status_not_allow, unauthorized, validator_address_list_size,
}
use neutron_contracts.StakeManager.Messages.{Env, MessageInfo, Response, seconds}
use neutron_contracts.StakeManager.Storage.{Storage, load_pool, or_not_found}
use neutron_contracts.StakeManager.Helper.{Sdk, cal_base, load_ica, min_ntrn_ibc_fee, total_ibc_fee}
use neutron_contracts.StakeManager.Setup.Icq.{
  Icq, default_era_seconds, min_era_seconds, total_icq_register_fee, validater_len_limit,
}
use neutron_contracts.StakeManager.Setup.DealPool.{deal_pool, set_withdraw_sub_msg}

pub record InitPoolParams : Type 0 where
  pub interchain_account_id : String
  pub ibc_denom : String
  pub channel_id_of_ibc_denom : String
  pub remote_denom : String
  pub validator_addrs : List String
  pub platform_fee_receiver : String
  pub lsd_code_id : Option ℕ
  pub lsd_token_name : String
  pub lsd_token_symbol : String
  pub minimal_stake : ℕ
  pub unbonding_period : ℕ
  pub platform_fee_commission : Option ℕ
  pub era_seconds : Option ℕ
  pub sdk_greater_or_equal_v047 : Bool

pub record MigratePoolParams : Type 0 where
  pub interchain_account_id : String
  pub unbond : ℕ
  pub bond : ℕ
  pub active : ℕ
  pub ibc_denom : String
  pub channel_id_of_ibc_denom : String
  pub remote_denom : String
  pub validator_addrs : List String
  pub era : ℕ
  pub rate : ℕ
  pub total_platform_fee : ℕ
  pub total_lsd_token_amount : ℕ
  pub platform_fee_receiver : String
  pub share_tokens : List Coin
  pub lsd_code_id : Option ℕ
  pub lsd_token_name : String
  pub lsd_token_symbol : String
  pub minimal_stake : ℕ
  pub unbonding_period : ℕ
  pub platform_fee_commission : Option ℕ
  pub era_seconds : ℕ
  pub offset : ℤ
  pub sdk_greater_or_equal_v047 : Bool

-- `info.funds[0].amount`, which panics without funds
abbrev pub first_funds : List Coin → Outcome ContractError ℕ
first_funds [] = panic
first_funds (c ∷ cs) = ok c.amount

-- The fee of the four registrations and of the transaction after them.
unfoldable pub setup_fee : Icq → ℕ → Outcome ContractError ℕ
setup_fee icq total_fee = do
  icq_register_fee ← icq.query_deposit
  four ← Uint128.mul (total_icq_register_fee icq_register_fee) 4
  Uint128.add four total_fee

abbrev pub default_commission : Option ℕ → ℕ
default_commission none = 100000
default_commission (some commission) = commission

-- `MIN_ERA_SECONDS` at least; the default when none is given.
unfoldable pub initial_era_seconds : Option ℕ → Outcome ContractError ℕ
initial_era_seconds none = ok default_era_seconds
initial_era_seconds (some era_seconds) = do
  fail_if (ltb era_seconds min_era_seconds) less_than_minimal_era_seconds
  ok era_seconds

-- The pool that an initialisation sets up.
unfoldable pub initial_pool : Env → InitPoolParams → PoolInfo → Outcome ContractError PoolInfo
unfolding initial_era_seconds
initial_pool env param p = do
  era_seconds ← initial_era_seconds param.era_seconds
  quotient ← U64.div (seconds env) era_seconds
  offset ← sub_i64 (pos 0) (as_i64 quotient)
  ok (record p {
    ibc_denom = param.ibc_denom;
    channel_id_of_ibc_denom = param.channel_id_of_ibc_denom;
    remote_denom = param.remote_denom;
    validator_addrs = param.validator_addrs;
    platform_fee_receiver = param.platform_fee_receiver;
    unbonding_period = param.unbonding_period;
    minimal_stake = param.minimal_stake;
    sdk_greater_or_equal_v047 = param.sdk_greater_or_equal_v047;
    platform_fee_commission = default_commission param.platform_fee_commission;
    era_seconds = era_seconds;
    offset = offset;
    era = 0;
    bond = 0;
    unbond = 0;
    active = 0;
    rate = cal_base;
    share_tokens = [];
    total_platform_fee = 0;
    total_lsd_token_amount = 0;
    next_unstake_index = 0;
    unstake_times_limit = 20;
    unbond_commission = 0;
    paused = false;
    lsm_support = false;
    lsm_pending_limit = 100;
    rate_change_limit = 0;
    validator_update_status = end;
  })

-- The code id that the parameters give, or the stack's.
abbrev pub code_id_or : Option ℕ → Storage → Outcome ContractError ℕ
code_id_or (some lsd_code_id) s = ok lsd_code_id
code_id_or none s = do stack ← or_not_found s.stack; ok stack.lsd_token_code_id

-- The rest of both calls once the account is known: a second try of setting the withdraw address,
-- or the set up of a registered pool as `make` says.
unfoldable pub init_or_retry :
    Sdk
    → Icq
    → Env
    → MessageInfo
    → IcaInfo
    → IcaInfo
    → (PoolInfo → Outcome ContractError PoolInfo)
    → Option ℕ
    → String
    → String
    → List String
    → Storage
    → Outcome ContractError (Storage × Response)
unfolding setup_fee
init_or_retry sdk icq env info pool_ica withdraw_ica make lsd_code_id name symbol validators s = do
  fail_if (eqb (length validators) 0 || ltb validater_len_limit (length validators))
      validator_address_list_size
  p ← load_pool pool_ica.ica_addr s
  fail_if (not (info.sender == p.admin)) unauthorized
  min_fee ← sdk.query_min_ibc_fee
  total_fee ← total_ibc_fee (min_ntrn_ibc_fee min_fee)
  if p.status == init_failed
      then (do
        paid ← first_funds info.funds
        fail_if (ltb paid total_fee) params_error_funds_not_match
        (sub_msg, s') ← set_withdraw_sub_msg sdk p pool_ica withdraw_ica s
        ok (s', sub_msg ∷ []))
      else (do
        fail_if (not (p.status == register_ended)) status_not_allow
        fee ← setup_fee icq total_fee
        paid ← first_funds info.funds
        fail_if (ltb paid fee) params_error_funds_not_match
        p' ← make p
        code_id ← code_id_or lsd_code_id s
        deal_pool sdk icq env info p' pool_ica withdraw_ica code_id name symbol s)

unfoldable pub execute_init_pool :
    Sdk
    → Icq
    → Env
    → MessageInfo
    → InitPoolParams
    → Storage
    → Outcome ContractError (Storage × Response)
unfolding init_or_retry initial_pool
execute_init_pool sdk icq env info param s = do
  stack ← or_not_found s.stack
  fail_if (not (stack.admin == info.sender)) unauthorized
  (pool_ica, withdraw_ica, _) ← load_ica param.interchain_account_id s
  init_or_retry sdk icq env info pool_ica withdraw_ica (initial_pool env param) param.lsd_code_id
      param.lsd_token_name param.lsd_token_symbol param.validator_addrs s

-- The rate of the amounts that are taken over.
unfoldable pub migrated_rate : PoolInfo → Outcome ContractError ℕ
migrated_rate p =
    if eqb p.total_lsd_token_amount 0
    then ok cal_base
    else (do scaled ← Uint128.mul p.active cal_base; Uint128.div scaled p.total_lsd_token_amount)

-- The pool with the amounts, rate and era that are taken over.
abbrev pub taken_over : MigratePoolParams → PoolInfo → PoolInfo
taken_over param p = record p {
  bond = param.bond;
  unbond = param.unbond;
  active = param.active;
  era = param.era;
  rate = param.rate;
  ibc_denom = param.ibc_denom;
  channel_id_of_ibc_denom = param.channel_id_of_ibc_denom;
  remote_denom = param.remote_denom;
  validator_addrs = param.validator_addrs;
  platform_fee_receiver = param.platform_fee_receiver;
  share_tokens = param.share_tokens;
  total_platform_fee = param.total_platform_fee;
  total_lsd_token_amount = param.total_lsd_token_amount;
  era_seconds = param.era_seconds;
  offset = param.offset;
  unbonding_period = param.unbonding_period;
  minimal_stake = param.minimal_stake;
  sdk_greater_or_equal_v047 = param.sdk_greater_or_equal_v047;
  platform_fee_commission = default_commission param.platform_fee_commission;
  next_unstake_index = 0;
  unstake_times_limit = 20;
  unbond_commission = 0;
  paused = false;
  lsm_support = true;
  lsm_pending_limit = 50;
  rate_change_limit = 0;
  validator_update_status = end;
}

-- The pool that a migration sets up, which must come with its own rate.
unfoldable pub migrated_pool : MigratePoolParams → PoolInfo → Outcome ContractError PoolInfo
unfolding migrated_rate
migrated_pool param p = do
  fail_if (eqb param.rate 0) rate_is_zero
  let p' = taken_over param p
  cal_rate ← migrated_rate p'
  fail_if (not (cal_rate == p'.rate)) rate_not_match
  ok p'

unfoldable pub execute_migrate_pool :
    Sdk
    → Icq
    → Env
    → MessageInfo
    → MigratePoolParams
    → Storage
    → Outcome ContractError (Storage × Response)
unfolding init_or_retry migrated_pool
execute_migrate_pool sdk icq env info param s = do
  (pool_ica, withdraw_ica, _) ← load_ica param.interchain_account_id s
  init_or_retry sdk icq env info pool_ica withdraw_ica (migrated_pool param) param.lsd_code_id
      param.lsd_token_name param.lsd_token_symbol param.validator_addrs s
