-- ===== src/StakeManager/Pools/Invariant.antt =====
-- The invariant of a pool: while the bonds of an era are under way, the amounts that the snapshot
-- took are still part of the pool's, and an era that may be taken back is not the first.
use mathlib.Core.Path.{subst}
use neutron_contracts.Base.{
  Bool-cases, String, ap, false, if◌then◌else◌, inl, inr, may_load, may_load-save, nat_eq, pair_eq,
  save, some, some_injective, string_eq, sym, true, ◌<◌, ◌==◌, ◌∙◌, ◌≡◌, ◌≤◌,
}
use neutron_contracts.StakeManager.Types.{
  EraStatus, PoolInfo, bond_started, coin_eq, era_status_eq, era_update_ended, era_update_started,
  validator_update_status_eq,
}
use neutron_contracts.StakeManager.Storage.{Storage}

abbrev pub Covered : PoolInfo → Type 0
Covered p = (p.era_snapshot.bond ≤ p.bond) × (p.era_snapshot.unbond ≤ p.unbond)

abbrev pub IsValidAt : EraStatus → PoolInfo → Type 0
IsValidAt era_update_started p = Covered p × (0 < p.era)
IsValidAt era_update_ended p = Covered p
IsValidAt bond_started p = Covered p
IsValidAt _ p = Unit

abbrev pub IsValid : PoolInfo → Type 0
IsValid p = IsValidAt p.status p

-- Every stored pool is valid.
abbrev pub AllValid : Storage → Type 0
AllValid s = (a : String) (p : PoolInfo) → may_load a s.pools ≡ some p → IsValid p

-- What a call that succeeds has done to the pools: it has saved one pool, and keeps it valid where
-- the status was one that the call expects.
pub record Changes (expects : EraStatus → Type 0) (a : String) (s s' : Storage) : Type 0 where
  pub before : PoolInfo
  pub after : PoolInfo
  pub loaded : may_load a s.pools ≡ some before
  pub stored : s'.pools ≡ save a after s.pools
  pub keeps : expects before.status → IsValid before → IsValid after

abbrev pub Always : EraStatus → Type 0
Always _ = Unit

pub Changes-AllValid :
    (expects : EraStatus → Type 0) (a : String) (s s' : Storage) (c : Changes expects a s s')
    → expects c.before.status
    → AllValid s
    → AllValid s'
Changes-AllValid expects a s s' c met valid b q e = elim (Bool-cases (a == b)) [
  | inl same ↦
      subst IsValid (some_injective (sym (found same) ∙ e))
        (c.keeps met (valid a c.before c.loaded))
  | inr other ↦ valid b q (sym (elsewhere other) ∙ e)
]
  where
    lookup : may_load b s'.pools ≡ (if a == b then some c.after else may_load b s.pools)
    lookup = ap (may_load b) c.stored ∙ may_load-save b a c.after s.pools

    found : (a == b) ≡ true → may_load b s'.pools ≡ some c.after
    found same = lookup ∙ rw same

    elsewhere : (a == b) ≡ false → may_load b s'.pools ≡ may_load b s.pools
    elsewhere other = lookup ∙ rw other

pub same_pools-AllValid : (s s' : Storage) → s'.pools ≡ s.pools → AllValid s → AllValid s'
same_pools-AllValid s s' same valid b q e = valid b q (sym (ap (may_load b) same) ∙ e)
