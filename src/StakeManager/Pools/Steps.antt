-- ===== src/StakeManager/Pools/Steps.antt =====
-- Runs of the five steps of an era, of stakes and unstakes, and of the calls of Acts, and the
-- invariant of the pools.
use neutron_contracts.StakeManager.Pools.Staking.{execute_stake-Changes, execute_unstake-Changes}
use neutron_contracts.StakeManager.Pools.Acts.{Act, Act-AllValid}
use neutron_contracts.Base.{
  List, String, [], arith, if◌then◌else◌, inl, inr, may_load, may_load-save_self, nat_eq, ok,
  pair_eq, refl, save, some, string_eq, ℕ, ◌+◌, ◌-◌, ◌≡◌,
}
use neutron_contracts.StakeManager.Pools.EraEnd.{
  execute_era_active-Changes, execute_era_collect_withdraw-Changes, execute_era_rebond-Changes,
}
use neutron_contracts.StakeManager.Pools.Invariant.{
  AllValid, Always, Changes, Changes-AllValid, Covered, IsValid, same_pools-AllValid,
}
use neutron_contracts.StakeManager.Era.Collect.{
  execute_era_collect_withdraw, sudo_era_collect_withdraw_callback,
  sudo_era_collect_withdraw_failed_callback,
}
use neutron_contracts.StakeManager.Era.Rebond.{
  execute_era_rebond, sudo_era_rebond_callback, sudo_era_rebond_failed_callback,
}
use neutron_contracts.StakeManager.Era.Active.{execute_era_active}
use neutron_contracts.Base.Text.{is_empty, split}
use neutron_contracts.Base.Uint128
use neutron_contracts.StakeManager.Types.{
  EraStatus, PoolInfo, SudoPayload, bond_ended, bond_started, coin_eq, era_status_eq,
  era_update_started, validator_update_status_eq, withdraw_ended, withdraw_started,
}
use neutron_contracts.StakeManager.Messages.{Env, MessageInfo, Response, seconds}
use neutron_contracts.StakeManager.Storage.{Storage}
use neutron_contracts.StakeManager.Helper.{Sdk}
use neutron_contracts.StakeManager.Stake.{execute_stake, execute_unstake}
use neutron_contracts.StakeManager.Era.Update.{
  execute_era_update, sudo_era_update_callback, sudo_era_update_failed_callback,
}
use neutron_contracts.StakeManager.Era.Bond.{
  execute_era_bond, record_unbonds, sudo_era_bond_callback, sudo_era_bond_failed_callback,
}
use neutron_contracts.StakeManager.Pools.Era.{
  execute_era_bond-Changes, execute_era_update-Changes, sudo_era_bond_callback-Changes,
  sudo_era_bond_failed_callback-Changes, sudo_era_collect_withdraw_callback-Changes,
  sudo_era_collect_withdraw_failed_callback-Changes, sudo_era_rebond_callback-Changes,
  sudo_era_rebond_failed_callback-Changes, sudo_era_update_callback-Changes,
  sudo_era_update_failed_callback-Changes,
}

-- The pool of the payload, if it is stored, is in this status.
abbrev pub Expects : SudoPayload → EraStatus → Storage → Type 0
Expects payload st s = (p : PoolInfo) → may_load payload.pool_addr s.pools ≡ some p → p.status ≡ st

-- One call that succeeds. An acknowledgement arrives while its pool is in the status in which the
-- packet was sent.
pub data Step (sdk : Sdk) (hash_order : List String → List String)
    : Storage → Storage → Type 0 where
  stakes :
      {s s' : Storage} (user a : String) (info : MessageInfo) (r : Response)
      → execute_stake user a info s ≡ ok (s', r)
      → Step sdk hash_order s s'
  unstakes :
      {s s' : Storage} (info : MessageInfo) (x : ℕ) (a : String) (r : Response)
      → execute_unstake info x a s ≡ ok (s', r)
      → Step sdk hash_order s s'
  updates :
      {s s' : Storage} (env : Env) (info : MessageInfo) (a : String) (r : Response)
      → execute_era_update sdk env info a s ≡ ok (s', r)
      → Step sdk hash_order s s'
  updated :
      {s s' : Storage} (env : Env) (payload : SudoPayload) (r : Response)
      → Expects payload era_update_started s
      → sudo_era_update_callback env payload s ≡ ok (s', r)
      → Step sdk hash_order s s'
  update_failed :
      {s s' : Storage} (payload : SudoPayload) (r : Response)
      → Expects payload era_update_started s
      → sudo_era_update_failed_callback payload s ≡ ok (s', r)
      → Step sdk hash_order s s'
  bonds :
      {s s' : Storage} (env : Env) (info : MessageInfo) (a : String) (vals : List String)
      (r : Response)
      → execute_era_bond sdk hash_order env info a vals s ≡ ok (s', r)
      → Step sdk hash_order s s'
  bonded :
      {s s' : Storage} (env : Env) (payload : SudoPayload) (r : Response)
      → Expects payload bond_started s
      → sudo_era_bond_callback env payload s ≡ ok (s', r)
      → Step sdk hash_order s s'
  bond_failed :
      {s s' : Storage} (payload : SudoPayload) (r : Response)
      → Expects payload bond_started s
      → sudo_era_bond_failed_callback payload s ≡ ok (s', r)
      → Step sdk hash_order s s'
  collected :
      {s s' : Storage} (env : Env) (payload : SudoPayload) (r : Response)
      → Expects payload withdraw_started s
      → sudo_era_collect_withdraw_callback env payload s ≡ ok (s', r)
      → Step sdk hash_order s s'
  collect_failed :
      {s s' : Storage} (payload : SudoPayload) (r : Response)
      → Expects payload withdraw_started s
      → sudo_era_collect_withdraw_failed_callback payload s ≡ ok (s', r)
      → Step sdk hash_order s s'
  rebonded :
      {s s' : Storage} (env : Env) (payload : SudoPayload) (r : Response)
      → Expects payload withdraw_ended s
      → sudo_era_rebond_callback env payload s ≡ ok (s', r)
      → Step sdk hash_order s s'
  rebond_failed :
      {s s' : Storage} (payload : SudoPayload) (r : Response)
      → Expects payload withdraw_ended s
      → sudo_era_rebond_failed_callback payload s ≡ ok (s', r)
      → Step sdk hash_order s s'
  collects :
      {s s' : Storage} (info : MessageInfo) (a : String) (r : Response)
      → execute_era_collect_withdraw sdk info a s ≡ ok (s', r)
      → Step sdk hash_order s s'
  rebonds :
      {s s' : Storage} (info : MessageInfo) (a : String) (vals : List String) (r : Response)
      → execute_era_rebond sdk info a vals s ≡ ok (s', r)
      → Step sdk hash_order s s'
  ends :
      {s s' : Storage} (a : String) (r : Response)
      → execute_era_active sdk a s ≡ ok (s', r)
      → Step sdk hash_order s s'
  acts : {s s' : Storage} → Act sdk s s' → Step sdk hash_order s s'

pub data Steps (sdk : Sdk) (hash_order : List String → List String)
    : Storage → Storage → Type 0 where
  none_yet : {s : Storage} → Steps sdk hash_order s s
  and_then :
      {s s' s'' : Storage}
      → Steps sdk hash_order s s'
      → Step sdk hash_order s' s''
      → Steps sdk hash_order s s''

expected :
    (st : EraStatus) (payload : SudoPayload) (s s' : Storage)
    → Expects payload st s
    → Changes (λ st'. st' ≡ st) payload.pool_addr s s'
    → AllValid s
    → AllValid s'
expected st payload s s' here c =
    Changes-AllValid _ payload.pool_addr s s' c (here c.before c.loaded)

pub Step-AllValid :
    (sdk : Sdk) (hash_order : List String → List String) (s s' : Storage)
    → Step sdk hash_order s s'
    → AllValid s
    → AllValid s'
Step-AllValid sdk hash_order s s' (stakes user a info r h) =
    Changes-AllValid Always a s s' (execute_stake-Changes user a info s s' r h) tt
Step-AllValid sdk hash_order s s' (unstakes info x a r h) =
    Changes-AllValid Always a s s' (execute_unstake-Changes info x a s s' r h) tt
Step-AllValid sdk hash_order s s' (updates env info a r h) =
    Changes-AllValid Always a s s' (execute_era_update-Changes sdk env info a s s' r h) tt
Step-AllValid sdk hash_order s s' (updated env payload r here h) =
    expected _ payload s s' here (sudo_era_update_callback-Changes env payload s s' r h)
Step-AllValid sdk hash_order s s' (update_failed payload r here h) =
    expected _ payload s s' here (sudo_era_update_failed_callback-Changes payload s s' r h)
Step-AllValid sdk hash_order s s' (bonds env info a vals r h) =
    Changes-AllValid Always a s s'
      (execute_era_bond-Changes sdk hash_order env info a vals s s' r h) tt
Step-AllValid sdk hash_order s s' (bonded env payload r here h) =
    expected _ payload s s' here (sudo_era_bond_callback-Changes env payload s s' r h)
Step-AllValid sdk hash_order s s' (bond_failed payload r here h) =
    expected _ payload s s' here (sudo_era_bond_failed_callback-Changes payload s s' r h)
Step-AllValid sdk hash_order s s' (collected env payload r here h) =
    expected _ payload s s' here (sudo_era_collect_withdraw_callback-Changes env payload s s' r h)
Step-AllValid sdk hash_order s s' (collect_failed payload r here h) =
    expected _ payload s s' here
      (sudo_era_collect_withdraw_failed_callback-Changes payload s s' r h)
Step-AllValid sdk hash_order s s' (rebonded env payload r here h) =
    expected _ payload s s' here (sudo_era_rebond_callback-Changes env payload s s' r h)
Step-AllValid sdk hash_order s s' (rebond_failed payload r here h) =
    expected _ payload s s' here (sudo_era_rebond_failed_callback-Changes payload s s' r h)
Step-AllValid sdk hash_order s s' (collects info a r h) =
    Changes-AllValid Always a s s' (execute_era_collect_withdraw-Changes sdk info a s s' r h) tt
Step-AllValid sdk hash_order s s' (rebonds info a vals r h) =
    elim (execute_era_rebond-Changes sdk info a vals s s' r h) [
      | inl saved ↦ Changes-AllValid Always a s s' saved tt
      | inr same ↦ same_pools-AllValid s s' same
    ]
Step-AllValid sdk hash_order s s' (ends a r h) =
    Changes-AllValid Always a s s' (execute_era_active-Changes sdk a s s' r h) tt
Step-AllValid sdk hash_order s s' (acts act) = Act-AllValid sdk s s' act

-- Every run of the five steps of an era, their acknowledgements and failures, stakes, unstakes,
-- withdrawals, changes of validators, calls of the liquid staking module and configurations of pools
-- keeps all pools valid, where each acknowledgement or failure of a step of an era comes while its
-- pool is in the status in which the packet was sent.
pub Steps-AllValid :
    (sdk : Sdk) (hash_order : List String → List String) (s s' : Storage)
    → Steps sdk hash_order s s'
    → AllValid s
    → AllValid s'
Steps-AllValid sdk hash_order s s' none_yet valid = valid
Steps-AllValid sdk hash_order s s' (and_then {s' = t} steps step) valid =
    Step-AllValid sdk hash_order t s' step (Steps-AllValid sdk hash_order s t steps valid)

bond-Covered : (p : PoolInfo) → p.status ≡ bond_started → IsValid p → Covered p
bond-Covered p st v = ground arith

-- In a valid storage the acknowledgement of a pool's bonds is taken without an error: what the
-- snapshot held is taken off the two amounts exactly.
pub sudo_era_bond_callback_total :
    (env : Env) (payload : SudoPayload) (s : Storage) (p : PoolInfo)
    → AllValid s
    → may_load payload.pool_addr s.pools ≡ some p
    → p.status ≡ bond_started
    → (s' : Storage) × (q : PoolInfo) × (sudo_era_bond_callback env payload s ≡ ok (s', []))
      × (may_load payload.pool_addr s'.pools ≡ some q)
      × (q.status ≡ bond_ended)
      × (q.bond + p.era_snapshot.bond ≡ p.bond)
      × (q.unbond + p.era_snapshot.unbond ≡ p.unbond)
unfolding sudo_era_bond_callback Uint128.sub
sudo_era_bond_callback_total env payload s p valid e st =
    let covered : Covered p = bond-Covered p st (valid payload.pool_addr p e) in
    let q = record p {
      status = bond_ended;
      era_snapshot = record p.era_snapshot { last_step_height = env.height };
      bond = p.bond - p.era_snapshot.bond;
      unbond = p.unbond - p.era_snapshot.unbond;
    } in
    (
      record s {
        pools = save payload.pool_addr q s.pools;
        validators_unbonds_time =
            if is_empty payload.message
            then s.validators_unbonds_time
            else record_unbonds payload.pool_addr (seconds env) (split "_" payload.message)
                s.validators_unbonds_time;
      },
      q,
      ground (arith, e, covered.0, covered.1),
      may_load-save_self payload.pool_addr q s.pools,
      refl,
      omega arith,
      omega arith,
    )
