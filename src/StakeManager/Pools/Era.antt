-- ===== src/StakeManager/Pools/Era.antt =====
-- What the first two steps of an era, and the callbacks of all its steps, do to their pool.
use neutron_contracts.Base.Uint128
use neutron_contracts.Base.{
  Bool-cases, List, Option-cases, String, arith, eqb, inl, inr, may_load, nat_eq, ok, pair_eq,
  string_eq, ◌+◌, ◌-◌, ◌≡◌,
}
use neutron_contracts.Base.U64
use neutron_contracts.StakeManager.Types.{
  EraSnapshot, PoolInfo, SudoPayload, active_ended, bond_ended, bond_started, coin_eq,
  era_status_eq, era_update_ended, era_update_started, rebond_ended, validator_update_status_eq,
  withdraw_ended, withdraw_started,
}
use neutron_contracts.StakeManager.Messages.{Env, MessageInfo, Response}
use neutron_contracts.StakeManager.Storage.{Storage, get_next_reply_id, save_reply_payload}
use neutron_contracts.StakeManager.Helper.{Sdk, msg_with_sudo_callback}
use neutron_contracts.StakeManager.Era.Bond.{
  execute_era_bond, sudo_era_bond_callback, sudo_era_bond_failed_callback,
}
use neutron_contracts.StakeManager.Era.Collect.{
  sudo_era_collect_withdraw_callback, sudo_era_collect_withdraw_failed_callback,
}
use neutron_contracts.StakeManager.Era.Rebond.{
  sudo_era_rebond_callback, sudo_era_rebond_failed_callback,
}
use neutron_contracts.StakeManager.Pools.Invariant.{Changes, Always}
use neutron_contracts.StakeManager.Era.Update.{
  empty_snapshot, execute_era_update, sudo_era_update_callback, sudo_era_update_failed_callback,
}

abbrev begun : Env → PoolInfo → PoolInfo
begun env p = record p {
  status = era_update_started;
  era = p.era + 1;
  era_snapshot = record {
    era = p.era + 1;
    bond = p.bond;
    unbond = p.unbond;
    active = p.active;
    restake_amount = 0;
    last_step_height = env.height;
  };
}

pub execute_era_update-Changes :
    (sdk : Sdk) (env : Env) (info : MessageInfo) (a : String) (s s' : Storage) (r : Response)
    → execute_era_update sdk env info a s ≡ ok (s', r)
    → Changes Always a s s'
unfolding execute_era_update msg_with_sudo_callback save_reply_payload get_next_reply_id U64.add
execute_era_update-Changes sdk env info a s s' r h = elim (Option-cases (may_load a s.pools)) [
  | inl e ↦ ground arith
  | inr (p, e) ↦ elim (Bool-cases (eqb p.bond 0)) [
    | inl empty ↦ record {
      before = p;
      after = record (begun env p) { status = era_update_ended };
      loaded = e;
      stored = ground arith;
      keeps = λ q v. omega arith;
    }
    | inr full ↦ record {
      before = p;
      after = begun env p;
      loaded = e;
      stored = ground arith;
      keeps = λ q v. omega arith;
    }
  ]
]

abbrev stepped : Env → EraSnapshot → EraSnapshot
stepped env snapshot = record snapshot { last_step_height = env.height }

pub sudo_era_update_callback-Changes :
    (env : Env) (payload : SudoPayload) (s s' : Storage) (r : Response)
    → sudo_era_update_callback env payload s ≡ ok (s', r)
    → Changes (λ st. st ≡ era_update_started) payload.pool_addr s s'
unfolding sudo_era_update_callback
sudo_era_update_callback-Changes env payload s s' r h =
    elim (Option-cases (may_load payload.pool_addr s.pools)) [
      | inl e ↦ ground arith
      | inr (p, e) ↦ record {
        before = p;
        after = record p { status = era_update_ended; era_snapshot = stepped env p.era_snapshot };
        loaded = e;
        stored = ground arith;
        keeps = λ q v. ground arith;
      }
    ]

pub sudo_era_update_failed_callback-Changes :
    (payload : SudoPayload) (s s' : Storage) (r : Response)
    → sudo_era_update_failed_callback payload s ≡ ok (s', r)
    → Changes (λ st. st ≡ era_update_started) payload.pool_addr s s'
unfolding sudo_era_update_failed_callback U64.sub
sudo_era_update_failed_callback-Changes payload s s' r h =
    elim (Option-cases (may_load payload.pool_addr s.pools)) [
      | inl e ↦ ground arith
      | inr (p, e) ↦ record {
        before = p;
        after = record p { era = p.era - 1; status = active_ended; era_snapshot = empty_snapshot };
        loaded = e;
        stored = ground arith;
        keeps = λ q v. ground arith;
      }
    ]

pub execute_era_bond-Changes :
    (sdk : Sdk) (hash_order : List String → List String) (env : Env) (info : MessageInfo)
    (a : String) (vals : List String) (s s' : Storage) (r : Response)
    → execute_era_bond sdk hash_order env info a vals s ≡ ok (s', r)
    → Changes Always a s s'
unfolding execute_era_bond msg_with_sudo_callback save_reply_payload get_next_reply_id
execute_era_bond-Changes sdk hash_order env info a vals s s' r h =
    elim (Option-cases (may_load a s.pools)) [
      | inl e ↦ ground arith
      | inr (p, e) ↦ record {
        before = p;
        after = record p { status = bond_started };
        loaded = e;
        stored = ground arith;
        keeps = λ q v. ground arith;
      }
    ]

pub sudo_era_bond_callback-Changes :
    (env : Env) (payload : SudoPayload) (s s' : Storage) (r : Response)
    → sudo_era_bond_callback env payload s ≡ ok (s', r)
    → Changes (λ st. st ≡ bond_started) payload.pool_addr s s'
unfolding sudo_era_bond_callback Uint128.sub
sudo_era_bond_callback-Changes env payload s s' r h =
    elim (Option-cases (may_load payload.pool_addr s.pools)) [
      | inl e ↦ ground arith
      | inr (p, e) ↦ record {
        before = p;
        after = record p {
          status = bond_ended;
          era_snapshot = stepped env p.era_snapshot;
          bond = p.bond - p.era_snapshot.bond;
          unbond = p.unbond - p.era_snapshot.unbond;
        };
        loaded = e;
        stored = ground arith;
        keeps = λ q v. ground arith;
      }
    ]

pub sudo_era_collect_withdraw_callback-Changes :
    (env : Env) (payload : SudoPayload) (s s' : Storage) (r : Response)
    → sudo_era_collect_withdraw_callback env payload s ≡ ok (s', r)
    → Changes (λ st. st ≡ withdraw_started) payload.pool_addr s s'
unfolding sudo_era_collect_withdraw_callback
sudo_era_collect_withdraw_callback-Changes env payload s s' r h =
    elim (Option-cases (may_load payload.pool_addr s.pools)) [
      | inl e ↦ ground arith
      | inr (p, e) ↦ record {
        before = p;
        after = record p { status = withdraw_ended; era_snapshot = stepped env p.era_snapshot };
        loaded = e;
        stored = ground arith;
        keeps = λ q v. ground arith;
      }
    ]

pub sudo_era_collect_withdraw_failed_callback-Changes :
    (payload : SudoPayload) (s s' : Storage) (r : Response)
    → sudo_era_collect_withdraw_failed_callback payload s ≡ ok (s', r)
    → Changes (λ st. st ≡ withdraw_started) payload.pool_addr s s'
unfolding sudo_era_collect_withdraw_failed_callback
sudo_era_collect_withdraw_failed_callback-Changes payload s s' r h =
    elim (Option-cases (may_load payload.pool_addr s.pools)) [
      | inl e ↦ ground arith
      | inr (p, e) ↦ record {
        before = p;
        after = record p { status = bond_ended };
        loaded = e;
        stored = ground arith;
        keeps = λ q v. ground arith;
      }
    ]

pub sudo_era_rebond_callback-Changes :
    (env : Env) (payload : SudoPayload) (s s' : Storage) (r : Response)
    → sudo_era_rebond_callback env payload s ≡ ok (s', r)
    → Changes (λ st. st ≡ withdraw_ended) payload.pool_addr s s'
unfolding sudo_era_rebond_callback
sudo_era_rebond_callback-Changes env payload s s' r h =
    elim (Option-cases (may_load payload.pool_addr s.pools)) [
      | inl e ↦ ground arith
      | inr (p, e) ↦ record {
        before = p;
        after = record p { status = rebond_ended; era_snapshot = stepped env p.era_snapshot };
        loaded = e;
        stored = ground arith;
        keeps = λ q v. ground arith;
      }
    ]

pub sudo_era_rebond_failed_callback-Changes :
    (payload : SudoPayload) (s s' : Storage) (r : Response)
    → sudo_era_rebond_failed_callback payload s ≡ ok (s', r)
    → Changes (λ st. st ≡ withdraw_ended) payload.pool_addr s s'
unfolding sudo_era_rebond_failed_callback
sudo_era_rebond_failed_callback-Changes payload s s' r h =
    elim (Option-cases (may_load payload.pool_addr s.pools)) [
      | inl e ↦ ground arith
      | inr (p, e) ↦ record {
        before = p;
        after = record p { status = withdraw_ended };
        loaded = e;
        stored = ground arith;
        keeps = λ q v. ground arith;
      }
    ]

pub sudo_era_bond_failed_callback-Changes :
    (payload : SudoPayload) (s s' : Storage) (r : Response)
    → sudo_era_bond_failed_callback payload s ≡ ok (s', r)
    → Changes (λ st. st ≡ bond_started) payload.pool_addr s s'
unfolding sudo_era_bond_failed_callback
sudo_era_bond_failed_callback-Changes payload s s' r h =
    elim (Option-cases (may_load payload.pool_addr s.pools)) [
      | inl e ↦ ground arith
      | inr (p, e) ↦ record {
        before = p;
        after = record p { status = era_update_ended };
        loaded = e;
        stored = ground arith;
        keeps = λ q v. ground arith;
      }
    ]
