-- ===== src/StakeManager/Setup/Config.antt =====
-- contracts/stake_manager/src/execute_config_pool.rs and execute_config_stack.rs, the
-- instantiation in contract.rs, and execute_icq_update_period.rs.
pub mod Eras
use neutron_contracts.Base.{
  Bool, List, Option, Outcome, String, [], contains, fail_if, if◌then◌else◌, ltb, map, nat_eq, none,
  not, ok, pair_eq, push, some, string_eq, ℕ, ◌+◌, ◌-◌, ◌/◌, ◌==◌, ◌>>=◌, ◌>>◌, ◌||◌,
}
use neutron_contracts.Base.Int.{as_i64, sub_i64}
use neutron_contracts.Base.U64
use neutron_contracts.StakeManager.Types.{
  Addr, PoolInfo, Stack, active_ended, coin_eq, end, era_status_eq, validator_update_status_eq,
}
use neutron_contracts.StakeManager.Errors.{
  ContractError, exceed_max_era_seconds, less_than_minimal_era_seconds, period_too_small,
  status_not_allow, unauthorized,
}
use neutron_contracts.StakeManager.Messages.{Env, MessageInfo, Response, message, seconds}
use neutron_contracts.StakeManager.Storage.{Storage, load_pool, or_not_found, save_pool}
use neutron_contracts.StakeManager.Helper.{Sdk, default_fast_period, get_update_pool_icq_msgs}
use neutron_contracts.StakeManager.Era.Update.{current_era}
use neutron_contracts.StakeManager.Setup.Icq.{max_era_seconds, min_era_seconds, unbonding_seconds}

pub record ConfigPoolParams : Type 0 where
  pub pool_addr : String
  pub platform_fee_receiver : Option String
  pub minimal_stake : Option ℕ
  pub unstake_times_limit : Option ℕ
  pub unbonding_period : Option ℕ
  pub unbond_commission : Option ℕ
  pub platform_fee_commission : Option ℕ
  pub era_seconds : Option ℕ
  pub paused : Option Bool
  pub lsm_support : Option Bool
  pub lsm_pending_limit : Option ℕ
  pub rate_change_limit : Option ℕ
  pub new_admin : Option Addr

-- `if let Some(new) = param { field = new; }`
abbrev pub or_kept {ℓ} : {A : Type ℓ} → Option A → A → A
or_kept none old = old
or_kept (some new) old = new

-- `(UNBONDING_SECONDS as f64).div(era_seconds as f64).ceil() as u64 + 1`. The quotient of two
-- integers as small as these is rounded to an integer only if it is one.
abbrev pub unbonding_eras : ℕ → ℕ
unbonding_eras era_seconds = (unbonding_seconds + era_seconds - 1) / era_seconds + 1

-- The new length of an era; the offset is such that the current era stays.
unfoldable pub set_era_seconds : Env → Option ℕ → PoolInfo → Outcome ContractError PoolInfo
unfolding current_era
set_era_seconds env none p = ok p
set_era_seconds env (some era_seconds) p = do
  fail_if (ltb era_seconds min_era_seconds) less_than_minimal_era_seconds
  fail_if (ltb max_era_seconds era_seconds) exceed_max_era_seconds
  now ← current_era env p
  quotient ← U64.div (seconds env) era_seconds
  offset ← sub_i64 (as_i64 now) (as_i64 quotient)
  ok (record p {
    era_seconds = era_seconds;
    offset = offset;
    unbonding_period = unbonding_eras era_seconds;
  })

unfoldable pub execute_config_pool :
    MessageInfo → Env → ConfigPoolParams → Storage → Outcome ContractError (Storage × Response)
unfolding set_era_seconds
execute_config_pool info env param s = do
  old ← load_pool param.pool_addr s
  fail_if (not (info.sender == old.admin)) unauthorized
  p ← set_era_seconds env param.era_seconds (record old {
    minimal_stake = or_kept param.minimal_stake old.minimal_stake;
    unbonding_period = or_kept param.unbonding_period old.unbonding_period;
    unstake_times_limit = or_kept param.unstake_times_limit old.unstake_times_limit;
    unbond_commission = or_kept param.unbond_commission old.unbond_commission;
    platform_fee_commission = or_kept param.platform_fee_commission old.platform_fee_commission;
  })
  let p' = record p {
    platform_fee_receiver = or_kept param.platform_fee_receiver p.platform_fee_receiver;
    paused = or_kept param.paused p.paused;
    lsm_support = or_kept param.lsm_support p.lsm_support;
    lsm_pending_limit = or_kept param.lsm_pending_limit p.lsm_pending_limit;
    rate_change_limit = or_kept param.rate_change_limit p.rate_change_limit;
    admin = or_kept param.new_admin p.admin;
  }
  ok (save_pool param.pool_addr p' s, [])

pub record ConfigStackParams : Type 0 where
  pub stack_fee_receiver : Option Addr
  pub new_admin : Option Addr
  pub stack_fee_commission : Option ℕ
  pub lsd_token_code_id : Option ℕ
  pub add_entrusted_pool : Option String

-- The list with one more pool, unless it has it.
abbrev pub entrust : Option String → List String → List String
entrust none pools = pools
entrust (some pool) pools = if contains pools pool then pools else push pools pool

unfoldable pub execute_config_stack :
    MessageInfo → ConfigStackParams → Storage → Outcome ContractError (Storage × Response)
execute_config_stack info param s = do
  stack ← or_not_found s.stack
  fail_if (not (stack.admin == info.sender)) unauthorized
  let stack' = record stack {
    stack_fee_receiver = or_kept param.stack_fee_receiver stack.stack_fee_receiver;
    stack_fee_commission = or_kept param.stack_fee_commission stack.stack_fee_commission;
    admin = or_kept param.new_admin stack.admin;
    lsd_token_code_id = or_kept param.lsd_token_code_id stack.lsd_token_code_id;
    pools = entrust param.add_entrusted_pool stack.pools;
  }
  ok (record s { stack = some stack' }, [])

unfoldable pub instantiate : MessageInfo → ℕ → Storage → Outcome ContractError (Storage × Response)
instantiate info lsd_token_code_id s =
    let stack : Stack = record {
      admin = info.sender;
      stack_fee_receiver = info.sender;
      stack_fee_commission = 100000;
      pools = [];
      lsd_token_code_id = lsd_token_code_id;
    } in
    ok (record s { stack = some stack }, [])

unfoldable pub update_icq_update_period :
    Sdk → MessageInfo → String → ℕ → Storage → Outcome ContractError (Storage × Response)
update_icq_update_period sdk info pool_addr new_update_period s = do
  fail_if (ltb new_update_period default_fast_period) period_too_small
  p ← load_pool pool_addr s
  fail_if (not (p.admin == info.sender)) unauthorized
  fail_if (not (p.status == active_ended) || not (p.validator_update_status == end))
      status_not_allow
  msgs ← get_update_pool_icq_msgs sdk s pool_addr p.ica_id new_update_period
  ok (s, map message msgs)
