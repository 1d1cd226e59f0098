-- ===== src/StakeManager/Pools/Staking.antt =====
-- What a stake and an unstake do to their pool (execute_stake.rs, execute_unstake.rs).
use neutron_contracts.StakeManager.Pools.Invariant.{Always, Changes}
use neutron_contracts.Base.{
  Option-cases, Outcome-cases, String, ap, arith, inl, inr, may_load, nat_eq, ok, pair_eq,
  string_eq, ℕ, ◌≡◌,
}
use neutron_contracts.Base.U64
use neutron_contracts.Base.Uint128
use neutron_contracts.StakeManager.Types.{coin_eq, era_status_eq, validator_update_status_eq}
use neutron_contracts.StakeManager.Messages.{MessageInfo, Response}
use neutron_contracts.StakeManager.Storage.{Storage}
use neutron_contracts.StakeManager.Stake.{execute_stake, execute_unstake, unbond_fee}
use neutron_contracts.StakeManager.Stake.Value.{
  execute_stake-Stakes, staked_pool, unbond_fee-eq-ok, unstaked_pool,
}

pub execute_stake-Changes :
    (user a : String) (info : MessageInfo) (s s' : Storage) (r : Response)
    → execute_stake user a info s ≡ ok (s', r)
    → Changes Always a s s'
unfolding execute_stake
execute_stake-Changes user a info s s' r h = elim (Option-cases (may_load a s.pools)) [
  | inl e ↦ ground arith
  | inr (p, e) ↦
      let (c, _, _, done) = execute_stake-Stakes user a info s s' r p e h in
      record {
        before = p;
        after = staked_pool p c.amount;
        loaded = e;
        stored = ap (λ (t : Storage). t.pools) done.saved;
        keeps = λ q v. ground arith;
      }
]

pub execute_unstake-Changes :
    (info : MessageInfo) (x : ℕ) (a : String) (s s' : Storage) (r : Response)
    → execute_unstake info x a s ≡ ok (s', r)
    → Changes Always a s s'
unfolding execute_unstake Uint128.add Uint128.mul Uint128.div Uint128.sub U64.add
execute_unstake-Changes info x a s s' r h = elim (Option-cases (may_load a s.pools)) [
  | inl e ↦ ground arith
  | inr (p, e) ↦ elim (Outcome-cases (unbond_fee p info.sender x)) [
    | inl ((b, fee_msgs), e') ↦
        let fee = unbond_fee-eq-ok p info.sender x e' in
        record {
          before = p;
          after = unstaked_pool p x;
          loaded = e;
          stored = ground arith;
          keeps = λ q v. ground arith;
        }
    | inr (inl (_, e')) ↦ ground arith
    | inr (inr e') ↦ ground arith
  ]
]
