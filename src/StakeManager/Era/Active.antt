-- ===== src/StakeManager/Era/Active.antt =====
-- contracts/stake_manager/src/execute_era_active.rs: the new exchange rate and the protocol fees.
pub mod Rate
use neutron_contracts.Base.{
  List, Outcome, String, [], eqb, err, fail_if, false, if◌then◌else◌, leb, length, ltb, map,
  may_load, nat_eq, not, ok, pair_eq, panic, save, some, string_eq, ℕ, ◌&&◌, ◌++◌, ◌==◌, ◌>>=◌,
  ◌>>◌, ◌∷◌,
}
use neutron_contracts.Base.Uint128
use neutron_contracts.StakeManager.Types.{
  Addr, Delegation, DelegatorDelegationsResponse, PoolInfo, Stack, active_ended, coin_eq,
  era_status_eq, rebond_ended, validator_update_status_eq,
}
use neutron_contracts.StakeManager.Errors.{
  ContractError, delegation_submission_height, delegations_not_exist, pending_share_not_empty,
  rate_change_over_limit, status_not_allow,
}
use neutron_contracts.StakeManager.Messages.{Response, message, mint}
use neutron_contracts.StakeManager.Storage.{Storage, load_pool, or_not_found}
use neutron_contracts.StakeManager.Helper.{
  Sdk, cal_base, default_rate, default_update_period, get_update_pool_icq_msgs,
  query_delegation_by_addr,
}

-- The sum of the delegations, from the left.
unfoldable pub total_delegated : ℕ → List Delegation → Outcome ContractError ℕ
total_delegated acc [] = ok acc
total_delegated acc (d ∷ ds) = do acc' ← Uint128.add acc d.amount.amount; total_delegated acc' ds

-- The total that the delegations query reports; any error of the query is `DelegationsNotExist`.
unfoldable pub delegated_amount :
    PoolInfo → Outcome ContractError DelegatorDelegationsResponse → Outcome ContractError ℕ
unfolding total_delegated
delegated_amount p (ok response) = do
  fail_if (leb response.last_submitted_local_height p.era_snapshot.last_step_height)
      delegation_submission_height
  total_delegated 0 response.delegations
delegated_amount p (err e) = err delegations_not_exist
delegated_amount p panic = panic

-- The platform's and the stack's fee on the reward.
unfoldable pub protocol_fees : PoolInfo → Stack → ℕ → Outcome ContractError (ℕ × ℕ)
protocol_fees p stack total =
    if ltb p.era_snapshot.active total
    then (do
      reward ← Uint128.sub total p.era_snapshot.active
      scaled ← Uint128.mul reward p.platform_fee_commission
      platform_fee_raw ← Uint128.div scaled p.rate
      stack_scaled ← Uint128.mul platform_fee_raw stack.stack_fee_commission
      stack_fee ← Uint128.div stack_scaled cal_base
      platform_fee ← Uint128.sub platform_fee_raw stack_fee
      ok (platform_fee, stack_fee))
    else ok (0, 0)

unfoldable pub new_active_amount : PoolInfo → ℕ → Outcome ContractError ℕ
new_active_amount p total = do
  cal_temp ← Uint128.add p.active total
  if ltb p.era_snapshot.active cal_temp then Uint128.sub cal_temp p.era_snapshot.active else ok 0

unfoldable pub exchange_rate : ℕ → ℕ → Outcome ContractError ℕ
exchange_rate active lsd_amount =
    if ltb 0 lsd_amount
    then (do scaled ← Uint128.mul active cal_base; Uint128.div scaled lsd_amount)
    else ok cal_base

-- |rate - new_rate| in millionths of the old rate
unfoldable pub rate_change : ℕ → ℕ → Outcome ContractError ℕ
rate_change rate new_rate = do
  difference ← (if ltb new_rate rate then Uint128.sub rate new_rate else Uint128.sub new_rate rate)
  scaled ← Uint128.mul difference cal_base
  Uint128.div scaled rate

unfoldable pub check_rate_change : PoolInfo → ℕ → Outcome ContractError (Unit {0})
unfolding rate_change
check_rate_change p new_rate = if eqb p.rate_change_limit 0 then ok tt else (do
  change ← rate_change p.rate new_rate
  fail_if (ltb p.rate_change_limit change) rate_change_over_limit)

-- "Solve first stake calculation accuracy": the rate and the active amount that are kept.
unfoldable pub settle_rate : PoolInfo → ℕ → ℕ → Outcome ContractError (ℕ × ℕ)
settle_rate p new_rate new_active = do
  slack ←
      (if eqb p.rate default_rate && ltb new_rate default_rate
        then (do more ← Uint128.add new_active 1000; ok (ltb p.active more))
        else ok false)
  ok (if slack then (default_rate, p.active) else (new_rate, new_active))

-- The mint of a fee, if there is one.
abbrev pub mint_fee : String → Addr → ℕ → Response
mint_fee lsd_token receiver fee =
    if eqb fee 0 then [] else message (mint lsd_token receiver fee) ∷ []

-- `TOTAL_STACK_FEE` after the fee, which is loaded only if there is one.
unfoldable pub add_stack_fee : String → ℕ → Storage → Outcome ContractError Storage
add_stack_fee pool_addr fee s = if eqb fee 0 then ok s else (do
  total ← or_not_found (may_load pool_addr s.total_stack_fee)
  total' ← Uint128.add total fee
  ok (record s { total_stack_fee = save pool_addr total' s.total_stack_fee }))

-- The pool with the new rate and active amount, once the fees are counted.
unfoldable pub settled_pool :
    PoolInfo → ℕ → ℕ → ℕ → ℕ → ℕ → Outcome ContractError (PoolInfo × ℕ × ℕ)
settled_pool p lsd_total rate active platform_fee stack_fee = do
  platform_total ←
      (if eqb platform_fee 0
        then ok p.total_platform_fee
        else Uint128.add p.total_platform_fee platform_fee)
  ok (
    record p {
      total_lsd_token_amount = lsd_total;
      rate = rate;
      status = active_ended;
      active = active;
      total_platform_fee = platform_total;
    },
    platform_fee,
    stack_fee,
  )

-- The pool at the end of the era.
unfoldable pub end_era : PoolInfo → Stack → ℕ → Outcome ContractError (PoolInfo × ℕ × ℕ)
end_era p stack total = do
  (platform_fee, stack_fee) ← protocol_fees p stack total
  new_active ← new_active_amount p total
  with_platform ← Uint128.add p.total_lsd_token_amount platform_fee
  lsd_total ← Uint128.add with_platform stack_fee
  new_rate ← exchange_rate new_active lsd_total
  check_rate_change p new_rate
  (rate, active) ← settle_rate p new_rate new_active
  settled_pool p lsd_total rate active platform_fee stack_fee

unfoldable pub execute_era_active :
    Sdk → String → Storage → Outcome ContractError (Storage × Response)
execute_era_active sdk pool_addr s = do
  p ← load_pool pool_addr s
  fail_if (not (p.status == rebond_ended)) status_not_allow
  fail_if (ltb 0 (length p.share_tokens)) pending_share_not_empty
  total ← delegated_amount p (query_delegation_by_addr sdk s pool_addr p.sdk_greater_or_equal_v047)
  stack ← or_not_found s.stack
  (p', platform_fee, stack_fee) ← end_era p stack total
  s' ← add_stack_fee pool_addr stack_fee s
  icq_msgs ← get_update_pool_icq_msgs sdk s pool_addr p.ica_id default_update_period
  ok (
    record s' {
      pools = save pool_addr p' s'.pools;
      stack = some stack;
      era_rate = save (pool_addr, p'.era) p'.rate s'.era_rate;
    },
    mint_fee p.lsd_token p.platform_fee_receiver platform_fee
        ++ (mint_fee p.lsd_token stack.stack_fee_receiver stack_fee ++ map message icq_msgs),
  )
