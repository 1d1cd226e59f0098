-- ===== src/StakeManager/Validators/Update.antt =====
-- The replacement of a validator (contracts/stake_manager/src/execute_pool_update_validator.rs).
use neutron_contracts.Base.{
  ==_iff, ==_refl, IsDistinct, List, Option-cases, String, [], ap, arith, contains, contains-push,
  contains-retain, false, inl, inr, may_load, may_load-save_self, nat_eq, not, ok, pair_eq, push,
  push-IsDistinct, refl, retain, retain-IsDistinct, some, string_eq, subst, true, ◌&&◌, ◌==◌, ◌||◌,
  ◌∙◌, ◌∷◌, ◌≡◌, ◌≢◌,
}
use neutron_contracts.Base.U64
use neutron_contracts.StakeManager.Types.{
  PoolInfo, SudoPayload, ValidatorUpdateStatus, active_ended, coin_eq, end, era_status_eq, start,
  validator_update_status_eq, wait_query_update,
}
use neutron_contracts.StakeManager.Messages.{MessageInfo, Response}
use neutron_contracts.StakeManager.Storage.{
  Storage, get_next_reply_id, save_pool, save_reply_payload,
}
use neutron_contracts.StakeManager.Helper.{Sdk, msg_with_sudo_callback}
use neutron_contracts.StakeManager.Validators.{
  execute_pool_update_validator, sudo_update_validator_failed_callback,
}

abbrev pub replaced : String → String → List String → List String
replaced old new vs = push (retain (λ v. not (v == old)) vs) new

contains-retain_others :
    (old v : String) (vs : List String)
    → contains (retain (λ v. not (v == old)) vs) v ≡ (contains vs v && not (v == old))
unfolding contains retain
contains-retain_others old v [] = refl
contains-retain_others old v (w ∷ vs) =
    ground (arith, contains-retain_others old v vs, ==_iff w v, ==_iff w old, ==_iff v old)

-- The new validators of the pool: the new one in place of the old one.
pub record Replaces (old new : String) (vs ws : List String) : Type 0 where
  pub listed : contains ws new ≡ true
  pub dropped : contains ws old ≡ false
  pub others : (v : String) → v ≢ old → v ≢ new → contains ws v ≡ contains vs v
  pub distinct : IsDistinct vs → IsDistinct ws

replaced-Replaces :
    (old new : String) (vs : List String)
    → contains vs old ≡ true
    → contains vs new ≡ false
    → Replaces old new vs (replaced old new vs)
replaced-Replaces old new vs has_old no_new =
    let kept = retain (λ v. not (v == old)) vs in
    let look : (v : String)
        → contains (push kept new) v ≡ ((contains vs v && not (v == old)) || (new == v)) =
      λ v. contains-push kept new v ∙ ap (λ b. b || (new == v)) (contains-retain_others old v vs) in
    record {
      listed = ground (arith, look new, ==_refl new);
      dropped = ground (arith, look old, ==_refl old, ==_iff new old);
      others = λ v a b. ground (arith, look v, ==_iff v old, ==_iff new v);
      distinct = λ d.
          push-IsDistinct kept new (retain-IsDistinct (λ v. not (v == old)) vs d)
            (contains-retain (λ v. not (v == old)) vs new no_new);
    }

abbrev pub with_replaced : PoolInfo → String → String → ValidatorUpdateStatus → PoolInfo
with_replaced p old new status = record p {
  validator_update_status = status;
  validator_addrs = replaced old new p.validator_addrs;
}

-- A replacement that succeeds was the admin's, found the pool with no other change under way, and
-- puts the new validator in the place of the old one.
pub execute_pool_update_validator-Replaces :
    (sdk : Sdk) (info : MessageInfo) (a old new : String) (s s' : Storage) (r : Response)
    (p : PoolInfo)
    → may_load a s.pools ≡ some p
    → execute_pool_update_validator sdk info a old new s ≡ ok (s', r)
    → (info.sender ≡ p.admin)
      × (p.status ≡ active_ended)
      × (p.validator_update_status ≡ end)
      × ((q : PoolInfo) × (may_load a s'.pools ≡ some q)
          × Replaces old new p.validator_addrs q.validator_addrs)
unfolding execute_pool_update_validator msg_with_sudo_callback save_reply_payload get_next_reply_id
    U64.add
execute_pool_update_validator-Replaces sdk info a old new s s' r p e h =
    let stored = replaced-Replaces old new p.validator_addrs (ground arith) (ground arith) in
    (
      ground (arith, ==_iff info.sender p.admin),
      ground arith,
      ground arith,
      elim (Option-cases (may_load a s'.pools)) [
        | inl lost ↦ absurd (
            ground (
              arith,
              may_load-save_self a (with_replaced p old new start) s.pools,
              may_load-save_self a (with_replaced p old new wait_query_update) s.pools,
            ))
        | inr (q, found) ↦ (
          q,
          found,
          subst (λ vs. Replaces old new p.validator_addrs vs)
              {x = replaced old new p.validator_addrs} {y = q.validator_addrs}
              (ground (
                arith,
                may_load-save_self a (with_replaced p old new start) s.pools,
                may_load-save_self a (with_replaced p old new wait_query_update) s.pools,
              ))
              stored,
        )
      ],
    )

-- When the redelegation of a replacement then fails on the remote chain, the failure is taken
-- without an error and ends the change, but the pool keeps the new list: the old validator, which
-- still holds the stake, is not listed. The pools are as the replacement has left them.
pub sudo_update_validator_failed_callback_unrestored :
    (sdk : Sdk) (info : MessageInfo) (old new : String) (s s' t : Storage) (r : Response)
    (payload : SudoPayload) (p : PoolInfo)
    → may_load payload.pool_addr s.pools ≡ some p
    → execute_pool_update_validator sdk info payload.pool_addr old new s ≡ ok (s', r)
    → t.pools ≡ s'.pools
    → (t' : Storage) × (q : PoolInfo) × (sudo_update_validator_failed_callback payload t
        ≡ ok (t', []))
      × (may_load payload.pool_addr t'.pools ≡ some q)
      × (q.validator_update_status ≡ end)
      × (contains q.validator_addrs old ≡ false)
      × (contains q.validator_addrs new ≡ true)
unfolding sudo_update_validator_failed_callback
sudo_update_validator_failed_callback_unrestored sdk info old new s s' t r payload p e h same =
    let (_, _, _, (q, found, swap)) =
      execute_pool_update_validator-Replaces sdk info payload.pool_addr old new s s' r p e h in
    let here : may_load payload.pool_addr t.pools ≡ some q =
      ap (may_load payload.pool_addr) same ∙ found in
    let ended = record q { validator_update_status = end } in
    (
      save_pool payload.pool_addr ended t,
      ended,
      ground (arith, here),
      may_load-save_self payload.pool_addr ended t.pools,
      refl,
      swap.dropped,
      swap.listed,
    )
