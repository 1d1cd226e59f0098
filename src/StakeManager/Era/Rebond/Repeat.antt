-- ===== src/StakeManager/Era/Rebond/Repeat.antt =====
-- A rebond with something to stake does not save the pool, so that it can be repeated.
use neutron_contracts.Base.{
  List, Outcome-cases, String, arith, inl, inr, map, may_load, nat_eq, ok, pair_eq, some, string_eq,
  ◌<◌, ◌≡◌,
}
use neutron_contracts.Base.U64
use neutron_contracts.StakeManager.Types.{
  PoolInfo, coin_eq, era_status_eq, validator_update_status_eq, withdraw_ended,
}
use neutron_contracts.StakeManager.Messages.{MessageInfo, Msg, Response, SubMsg}
use neutron_contracts.StakeManager.Storage.{Storage, get_next_reply_id, save_reply_payload}
use neutron_contracts.StakeManager.Helper.{Sdk, load_ica, msg_with_sudo_callback}
use neutron_contracts.StakeManager.Era.Rebond.{execute_era_rebond}

-- The messages of a response, without the ids under which they are reported.
abbrev pub sent : Response → List Msg
sent = map (λ (m : SubMsg). m.msg)

-- When the pool has rewards to restake, a rebond that succeeds leaves every pool as it was: the
-- stored status is still that of before.
pub execute_era_rebond_unsaved :
    (sdk : Sdk) (info : MessageInfo) (a : String) (vals : List String) (s s' : Storage)
    (r : Response) (p : PoolInfo)
    → may_load a s.pools ≡ some p
    → 0 < p.era_snapshot.restake_amount
    → execute_era_rebond sdk info a vals s ≡ ok (s', r)
    → (s'.pools ≡ s.pools) × (p.status ≡ withdraw_ended)
unfolding execute_era_rebond msg_with_sudo_callback save_reply_payload get_next_reply_id U64.add
execute_era_rebond_unsaved sdk info a vals s s' r p e pos h = ground arith

-- Whenever a rebond with rewards to restake succeeds, the same call succeeds a second time, before any
-- acknowledgement, and sends the same delegations again.
pub execute_era_rebond_repeats :
    (sdk : Sdk) (info : MessageInfo) (a : String) (vals : List String) (s s' : Storage)
    (r : Response) (p : PoolInfo)
    → may_load a s.pools ≡ some p
    → 0 < p.era_snapshot.restake_amount
    → execute_era_rebond sdk info a vals s ≡ ok (s', r)
    → (s'' : Storage) × (r' : Response) × (execute_era_rebond sdk info a vals s' ≡ ok (s'', r'))
      × (sent r' ≡ sent r)
unfolding execute_era_rebond msg_with_sudo_callback save_reply_payload get_next_reply_id U64.add
    load_ica
execute_era_rebond_repeats sdk info a vals s s' r p e pos h =
    elim (Outcome-cases (execute_era_rebond sdk info a vals s')) [
      | inl ((s'', r'), e') ↦ (s'', r', e', ground arith)
      | inr (inl (_, e')) ↦ ground arith
      | inr (inr e') ↦ ground arith
    ]
