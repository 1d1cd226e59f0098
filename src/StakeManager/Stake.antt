-- ===== src/StakeManager/Stake.antt =====
-- contracts/stake_manager/src/execute_stake.rs and execute_unstake.rs.
pub mod Value
use neutron_contracts.Base.{
  List, Option, Outcome, String, [], eqb, fail_if, if◌then◌else◌, leb, length, ltb, may_load,
  nat_eq, none, ok, ok_or, pair_eq, push, save, some, string_eq, ℕ, ◌++◌, ◌-◌, ◌==◌, ◌>>=◌, ◌>>◌,
  ◌∷◌,
}
use neutron_contracts.Base.Uint128
use neutron_contracts.Base.U64
use neutron_contracts.StakeManager.Types.{
  Addr, Coin, PoolInfo, UnstakeInfo, coin_eq, default, era_status_eq, validator_update_status_eq,
}
use neutron_contracts.StakeManager.Errors.{
  ContractError, burn_lsd_token_amount_is_zero, encode_err_lsd_token_amount_zero,
  encode_err_unstake_times_limit_reached, encode_err_zero_withdraw_amount, less_than_minimal_stake,
  params_error_funds_not_match, pool_is_paused,
}
use neutron_contracts.StakeManager.Messages.{
  MessageInfo, Response, burn_from, message, mint, transfer_from,
}
use neutron_contracts.StakeManager.Storage.{Storage, load_pool, or_empty, save_pool}
use neutron_contracts.StakeManager.Helper.{cal_base}

-- The only coin of the funds, if there is one and it has this denomination.
abbrev pub sole_coin : List Coin → String → Option Coin
sole_coin [] denom = none
sole_coin (c ∷ []) denom = if c.denom == denom then some c else none
sole_coin (c ∷ d ∷ cs) denom = none

unfoldable pub execute_stake :
    String → String → MessageInfo → Storage → Outcome ContractError (Storage × Response)
execute_stake neutron_address pool_addr info s = do
  p ← load_pool pool_addr s
  fail_if p.paused pool_is_paused
  fund ← ok_or (sole_coin info.funds p.ibc_denom) params_error_funds_not_match
  let token_amount = fund.amount
  fail_if (ltb token_amount p.minimal_stake) less_than_minimal_stake
  active ← Uint128.add p.active token_amount
  bond ← Uint128.add p.bond token_amount
  scaled ← Uint128.mul token_amount cal_base
  lsd_token_amount ← Uint128.div scaled p.rate
  total ← Uint128.add p.total_lsd_token_amount lsd_token_amount
  let p' = record p { active = active; bond = bond; total_lsd_token_amount = total }
  ok (save_pool pool_addr p' s, message (mint p.lsd_token neutron_address lsd_token_amount) ∷ [])

-- The commission on an unstake, and the message that collects it if it is not zero.
unfoldable pub unbond_fee : PoolInfo → Addr → ℕ → Outcome ContractError (ℕ × Response)
unbond_fee p sender lsd_token_amount =
    if ltb 0 p.unbond_commission
    then (do
      scaled ← Uint128.mul lsd_token_amount p.unbond_commission
      cms_fee ← Uint128.div scaled cal_base
      will_burn ← Uint128.sub lsd_token_amount cms_fee
      ok (
        will_burn,
        (if ltb 0 cms_fee
            then message (transfer_from p.lsd_token sender p.platform_fee_receiver cms_fee) ∷ []
            else []),
      ))
    else ok (lsd_token_amount, [])

unfoldable pub execute_unstake :
    MessageInfo → ℕ → String → Storage → Outcome ContractError (Storage × Response)
unfolding unbond_fee
execute_unstake info lsd_token_amount pool_addr s = do
  fail_if (eqb lsd_token_amount 0) encode_err_lsd_token_amount_zero
  p ← load_pool pool_addr s
  let unstakes = or_empty (may_load (info.sender, pool_addr) s.unstakes_index_for_user)
  fail_if (leb p.unstake_times_limit (length unstakes)) encode_err_unstake_times_limit_reached
  (will_burn, fee_msgs) ← unbond_fee p info.sender lsd_token_amount
  fail_if (eqb will_burn 0) burn_lsd_token_amount_is_zero
  scaled ← Uint128.mul will_burn p.rate
  token_amount ← Uint128.div scaled cal_base
  index ← U64.add p.next_unstake_index 1
  unbond ← Uint128.add p.unbond token_amount
  active ← Uint128.sub p.active token_amount
  total ← Uint128.sub p.total_lsd_token_amount will_burn
  let receive_amount = if ltb 5 token_amount then token_amount - 5 else 0
  fail_if (eqb receive_amount 0) encode_err_zero_withdraw_amount
  let p' = record p {
    next_unstake_index = index;
    unbond = unbond;
    active = active;
    total_lsd_token_amount = total;
  }
  let unstake_info : UnstakeInfo = record {
    era = p.era;
    pool_addr = pool_addr;
    unstaker = info.sender;
    amount = receive_amount;
    status = default;
    index = index;
  }
  ok (
    record s {
      unstakes_of_index = save (pool_addr, index) unstake_info s.unstakes_of_index;
      pools = save pool_addr p' s.pools;
      unstakes_index_for_user =
          save (info.sender, pool_addr) (push unstakes index) s.unstakes_index_for_user;
    },
    fee_msgs ++ message (burn_from p.lsd_token info.sender will_burn) ∷ [],
  )
