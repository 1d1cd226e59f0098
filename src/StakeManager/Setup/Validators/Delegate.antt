-- ===== src/StakeManager/Setup/Validators/Delegate.antt =====
-- The delegations of execute_pool_delegate.rs against those of execute_era_rebond.rs.
use neutron_contracts.Base.Uint128
use neutron_contracts.Base.{
  ==_refl, All, List, String, [], arith, contains, length, map, nat_eq, ok, pair_eq, refl,
  string_eq, true, ℕ, ◌>>=◌, ◌∷◌, ◌≡◌,
}
use neutron_contracts.StakeManager.Types.{
  PoolInfo, coin_eq, era_status_eq, validator_update_status_eq,
}
use neutron_contracts.StakeManager.Helper.{gen_delegation_txs}
use neutron_contracts.StakeManager.Era.Rebond.{delegate_each, delegate_evenly, split_stake}
use neutron_contracts.StakeManager.Setup.Validators.{delegate_pool, pool_delegations}

delegate_each-map :
    (p : PoolInfo) (pool_addr : String) (amount : ℕ) (vs : List String)
    → All (λ v. contains p.validator_addrs v ≡ true) vs
    → delegate_each p pool_addr amount vs
      ≡ ok (map (λ w. gen_delegation_txs pool_addr w p.remote_denom amount) vs)
unfolding delegate_each
delegate_each-map p pool_addr amount [] all = refl
delegate_each-map p pool_addr amount (v ∷ vs) all =
    ground (arith, delegate_each-map p pool_addr amount vs all.1)

delegate_evenly-delegate_pool :
    (p : PoolInfo) (pool_addr : String) (amount remainder : ℕ) (vs : List String)
    → All (λ v. contains p.validator_addrs v ≡ true) vs
    → delegate_pool p pool_addr amount remainder vs
      ≡ delegate_evenly p pool_addr amount remainder vs
unfolding delegate_evenly delegate_pool
delegate_evenly-delegate_pool p pool_addr amount remainder [] all = refl
delegate_evenly-delegate_pool p pool_addr amount remainder (v ∷ vs) all =
    ground (arith, delegate_each-map p pool_addr amount vs all.1)

contains_later :
    (w : String) (ws vs : List String)
    → All (λ v. contains ws v ≡ true) vs
    → All (λ v. contains (w ∷ ws) v ≡ true) vs
unfolding contains
contains_later w ws [] all = tt
contains_later w ws (v ∷ vs) all = (ground (arith, all.0), contains_later w ws vs all.1)

contains_itself : (vs : List String) → All (λ v. contains vs v ≡ true) vs
unfolding contains
contains_itself [] = tt
contains_itself (v ∷ vs) = (ground (arith, ==_refl v), contains_later v vs vs (contains_itself vs))

-- The delegations that the admin's call makes for an amount are those that the split of a rebond
-- makes for it over all validators of the pool: the two loops differ in the check that a chosen
-- validator is the pool's only.
pub pool_delegations-split_stake :
    (p : PoolInfo) (pool_addr : String) (amount : ℕ)
    → pool_delegations p pool_addr amount ≡ split_stake p pool_addr amount p.validator_addrs
unfolding pool_delegations split_stake
pool_delegations-split_stake p pool_addr amount = λ i. (do
  each ← Uint128.div amount (length p.validator_addrs)
  used ← Uint128.mul each (length p.validator_addrs)
  remainder ← Uint128.sub amount used
  delegate_evenly-delegate_pool p pool_addr each remainder p.validator_addrs
      (contains_itself p.validator_addrs) i)
