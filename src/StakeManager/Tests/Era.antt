-- ===== src/StakeManager/Tests/Era.antt =====
-- The theorems on the era at concrete pools.
use mathlib.Core.List.{Permᴰ}
use neutron_contracts.StakeManager.Era.Allocate.Order.{IsDescending, sort_by_amount-IsDescending}
use neutron_contracts.Base.{
  Bool-cases, List, String, [], ap, arith, contains, inl, inr, may_load, nat_eq, ok, pair_eq, refl,
  retain, save, some, some_injective, string_eq, subst, sym, ℕ, ◌*◌, ◌+◌, ◌/◌, ◌<◌, ◌==◌, ◌∷◌, ◌≡◌,
  ◌≤◌,
}
use neutron_contracts.Base.Uint128
use neutron_contracts.Base.U64
use neutron_contracts.Base.Text.{split}
use neutron_contracts.StakeManager.Types.{
  Delegation, PoolInfo, Stack, SudoPayload, bond_ended, bond_started, coin_eq, era_bond,
  era_status_eq, rebond_ended, validator_update_status_eq, withdraw_ended,
}
use neutron_contracts.StakeManager.Messages.{Env, ProtobufAny, Response}
use neutron_contracts.StakeManager.Storage.{Storage, get_next_reply_id, save_reply_payload}
use neutron_contracts.StakeManager.Helper.{
  cal_base, check_ibc_fee, load_ica, min_ntrn_ibc_fee, msg_with_sudo_callback, total_ibc_fee,
}
use neutron_contracts.StakeManager.Stake.{execute_stake}
use neutron_contracts.StakeManager.Era.Allocate.{
  UnbondTimes, ValidatorUnbondInfo, allocate_loop, allocate_one, allocate_unbond_amount,
  clear_times, insert_by_amount, sort_by_amount,
}
use neutron_contracts.StakeManager.Era.Allocate.Sum.{Drawn, allocate_unbond_amount-sum, unbond_sum}
use neutron_contracts.StakeManager.Era.Active.{
  check_rate_change, end_era, exchange_rate, new_active_amount, protocol_fees, settle_rate,
  settled_pool,
}
use neutron_contracts.StakeManager.Era.Active.Rate.{
  Ends, end_era-Ends, protocol_fees-eq-ok, raw_fee,
}
use neutron_contracts.StakeManager.Era.Rebond.{
  delegate_each, delegate_evenly, execute_era_rebond, split_stake,
}
use neutron_contracts.StakeManager.Era.Rebond.Split.{
  Delegations, delegated_sum, split_stake-sum, split_stake_total,
}
use neutron_contracts.StakeManager.Era.Rebond.Repeat.{execute_era_rebond_repeats, sent}
use neutron_contracts.StakeManager.Era.Bond.{record_unbonds, sudo_era_bond_callback}
use neutron_contracts.StakeManager.Pools.Invariant.{AllValid, IsValid}
use neutron_contracts.StakeManager.Pools.Steps.{
  Steps, Steps-AllValid, and_then, bonded, none_yet, stakes, sudo_era_bond_callback_total,
}
use neutron_contracts.StakeManager.Tests.{
  atom, from, ntrn, pool_in, run, snapshot, storage_in, test_sdk, value_or,
}

abbrev stack : Stack
stack = record {
  admin = "admin";
  stack_fee_receiver = "stack";
  stack_fee_commission = 200000;
  pools = "pool" ∷ [];
  lsd_token_code_id = 1;
}

protocol_fees-eq-ok_example :
    (snapshot.active < 1110000
      → (8000 + 2000 ≡ raw_fee (pool_in rebond_ended) 1110000)
        × (2000 ≡ raw_fee (pool_in rebond_ended) 1110000 * stack.stack_fee_commission / cal_base))
    × (1110000 ≤ snapshot.active → 8000 + 2000 ≡ 0)
unfolding protocol_fees Uint128.sub Uint128.mul Uint128.div
protocol_fees-eq-ok_example =
    protocol_fees-eq-ok (pool_in rebond_ended) stack 1110000 8000 2000 refl

abbrev ended : PoolInfo × ℕ × ℕ
ended = value_or (pool_in rebond_ended, 0, 0) (end_era (pool_in rebond_ended) stack 1100000)

end_era-Ends_example : Ends (pool_in rebond_ended) ended.0 stack 1100000 ended.1 ended.2
unfolding end_era protocol_fees new_active_amount exchange_rate check_rate_change settle_rate
    settled_pool Uint128.add Uint128.sub Uint128.mul Uint128.div
end_era-Ends_example =
    end_era-Ends (pool_in rebond_ended) ended.0 stack 1100000 ended.1 ended.2 refl

abbrev delegation : String → ℕ → Delegation
delegation validator amount = record {
  delegator = "cosmos1pool";
  validator = validator;
  amount = record { denom = "uatom"; amount = amount };
}

abbrev three_delegations : List Delegation
three_delegations = delegation "val1" 10 ∷ delegation "val2" 30 ∷ delegation "val3" 20 ∷ []

abbrev allocated : UnbondTimes × List ValidatorUnbondInfo
allocated = value_or ([], []) (allocate_unbond_amount 100 three_delegations 45 86400 [])

allocate_unbond_amount-sum_example :
    (unbond_sum allocated.1 ≡ 45) × Drawn (sort_by_amount three_delegations) allocated.1
unfolding allocate_unbond_amount allocate_loop allocate_one clear_times sort_by_amount
    insert_by_amount may_load Uint128.sub U64.add
allocate_unbond_amount-sum_example =
    allocate_unbond_amount-sum 100 86400 45 three_delegations [] allocated.0 allocated.1 refl

sort_by_amount-IsDescending_example :
    Permᴰ (sort_by_amount three_delegations) three_delegations
    × IsDescending (sort_by_amount three_delegations)
sort_by_amount-IsDescending_example = sort_by_amount-IsDescending three_delegations

abbrev split_msgs : List ProtobufAny
split_msgs = value_or [] (split_stake (pool_in withdraw_ended) "pool" 20001 ("val2" ∷ "val1" ∷ []))

split_stake-sum_example :
    (delegated_sum split_msgs ≡ 20001)
    × Delegations (pool_in withdraw_ended) "pool" ("val2" ∷ "val1" ∷ []) split_msgs
unfolding split_stake delegate_evenly delegate_each contains Uint128.add Uint128.div Uint128.mul
    Uint128.sub
split_stake-sum_example =
    split_stake-sum (pool_in withdraw_ended) "pool" 20001 ("val2" ∷ "val1" ∷ []) split_msgs refl

split_stake_total_example :
    (ms : List ProtobufAny) × (split_stake
        (pool_in withdraw_ended)
        "pool"
        20001
        ("val2" ∷ "val1" ∷ [])
      ≡ ok ms)
unfolding contains
split_stake_total_example =
    split_stake_total (pool_in withdraw_ended) "pool" 20001 ("val2" ∷ "val1" ∷ []) (λ e. cc)
      (refl, (refl, tt)) (omega arith)

abbrev rebonding : Storage
rebonding = storage_in withdraw_ended

abbrev rebonded_once : Storage × Response
rebonded_once = run rebonding (
    execute_era_rebond test_sdk (from "keeper" (ntrn 2000)) "pool" ("val1" ∷ "val2" ∷ []) rebonding)

execute_era_rebond_repeats_example :
    (s'' : Storage) × (r' : Response) × (execute_era_rebond test_sdk
        (from "keeper" (ntrn 2000))
        "pool"
        ("val1" ∷ "val2" ∷ [])
        rebonded_once.0
      ≡ ok (s'', r'))
    × (sent r' ≡ sent rebonded_once.1)
unfolding execute_era_rebond split_stake delegate_evenly delegate_each contains Uint128.add
    Uint128.div Uint128.mul Uint128.sub U64.add check_ibc_fee total_ibc_fee min_ntrn_ibc_fee
    load_ica msg_with_sudo_callback save_reply_payload get_next_reply_id may_load save retain
execute_era_rebond_repeats_example =
    execute_era_rebond_repeats test_sdk (from "keeper" (ntrn 2000)) "pool" ("val1" ∷ "val2" ∷ [])
      rebonding rebonded_once.0 rebonded_once.1 (pool_in withdraw_ended) refl (omega arith) refl

-- A storage with one pool is valid if the pool is.
one_pool_AllValid :
    (a : String) (p : PoolInfo) (s : Storage) → s.pools ≡ (a, p) ∷ [] → IsValid p → AllValid s
unfolding may_load
one_pool_AllValid a p s only valid b q e = elim (Bool-cases (a == b)) [
  | inl same ↦ subst IsValid {x = p} {y = q} (ground arith) valid
  | inr other ↦ absurd (ground arith)
]

abbrev bonding : Storage
bonding = storage_in bond_started

bonding-AllValid : AllValid bonding
bonding-AllValid =
    one_pool_AllValid "pool" (pool_in bond_started) bonding refl (omega arith, omega arith)

abbrev bond_payload : SudoPayload
bond_payload = record {
  message = "val1_val2";
  pool_addr = "pool";
  port_id = "icacontroller-1";
  tx_type = era_bond;
}

abbrev block : Env
block = record { height = 60; nanos = 5000000000; contract_address = "neutron1manager" }

sudo_era_bond_callback_total_example :
    (s' : Storage) × (q : PoolInfo) × (sudo_era_bond_callback block bond_payload bonding
      ≡ ok (s', []))
    × (may_load "pool" s'.pools ≡ some q)
    × (q.status ≡ bond_ended)
    × (q.bond + 300 ≡ 400)
    × (q.unbond + 100 ≡ 100)
unfolding may_load
sudo_era_bond_callback_total_example =
    sudo_era_bond_callback_total block bond_payload bonding (pool_in bond_started) bonding-AllValid
      refl refl

abbrev bonding_staked : Storage × Response
bonding_staked = run bonding (execute_stake "alice" "pool" (from "alice" (atom 1000)) bonding)

abbrev bonding_done : Storage × Response
bonding_done = run bonding_staked.0 (sudo_era_bond_callback block bond_payload bonding_staked.0)

-- A stake while the bonds of an era are under way, and their acknowledgement.
two-Steps :
    (hash_order : List String → List String) → Steps test_sdk hash_order bonding bonding_done.0
unfolding execute_stake sudo_era_bond_callback record_unbonds may_load save Uint128.add Uint128.mul
    Uint128.div Uint128.sub split
two-Steps hash_order =
    and_then
      (and_then none_yet (stakes "alice" "pool" (from "alice" (atom 1000)) bonding_staked.1 refl))
      (bonded block bond_payload bonding_done.1
        (λ p e. ap (λ (q : PoolInfo). q.status) (sym (some_injective e))) refl)

Steps-AllValid_example : AllValid bonding_done.0
Steps-AllValid_example =
    Steps-AllValid test_sdk (λ l. l) bonding bonding_done.0 (two-Steps (λ l. l)) bonding-AllValid
