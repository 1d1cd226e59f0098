-- ===== src/StakeManager/Pools/Admin.antt =====
-- What the administrator's calls on a pool do to it (execute_pool_rm_validator.rs,
-- execute_pool_add_validator.rs, execute_update_validators_icq.rs, execute_config_pool.rs).
use neutron_contracts.Base.U64
use neutron_contracts.Base.{
  Option, String, after, ap, arith, contains, eqb, fail_if, if-eq-ok, inl, inr, leb, length, ltb,
  nat_eq, none, not, ok, ok_injective, pair_eq, push, refl, retain, save, some, string_eq, subst,
  unwrap, ℕ, ◌==◌, ◌≡◌,
}
use neutron_contracts.Base.Int.{as_i64, sub_i64}
use neutron_contracts.StakeManager.Errors.{
  era_process_not_end, exceed_max_era_seconds, less_than_minimal_era_seconds,
  old_validator_not_exist, status_not_allow, unauthorized, validator_address_list_size,
  validator_already_exit,
}
use neutron_contracts.StakeManager.Messages.{Env, MessageInfo, Response, seconds}
use neutron_contracts.StakeManager.Storage.{Storage, load_pool, save_pool}
use neutron_contracts.StakeManager.Helper.{
  Sdk, check_ibc_fee, load_ica, msg_with_sudo_callback, query_delegation_by_addr,
}
use neutron_contracts.StakeManager.Types.{
  Delegation, PoolInfo, active_ended, coin_eq, end, era_status_eq, validator_update_status_eq,
  wait_query_update,
}
use neutron_contracts.StakeManager.Setup.Icq.{
  Icq, deal_validators_icq_update, max_era_seconds, min_era_seconds, validater_len_limit,
}
use neutron_contracts.StakeManager.Validators.{
  execute_rm_pool_validator, find_delegation, first, remove_or_redelegate,
}
use neutron_contracts.StakeManager.Setup.Config.{
  ConfigPoolParams, execute_config_pool, set_era_seconds,
}
use neutron_contracts.StakeManager.Era.Update.{current_era}
use neutron_contracts.StakeManager.Pools.EraEnd.{pools-msg_with_sudo_callback}
use neutron_contracts.StakeManager.Pools.Between.{set_pool}
use neutron_contracts.StakeManager.Setup.Validators.{
  execute_add_pool_validators, execute_update_validators_icq,
}
use neutron_contracts.StakeManager.Pools.Invariant.{Always, Changes, IsValid}

remove_or_redelegate-Changes :
    (sdk : Sdk) (info : MessageInfo) (a validator : String) (p : PoolInfo) (o : Option Delegation)
    (s s' : Storage) (r : Response)
    → load_pool a s ≡ ok p
    → remove_or_redelegate sdk info a validator p o s ≡ ok (s', r)
    → Changes Always a s s'
unfolding remove_or_redelegate
remove_or_redelegate-Changes sdk info a validator p none s s' r e h =
    set_pool a s p _ e refl h (λ v. ground arith)
remove_or_redelegate-Changes sdk info a validator p (some d) s s' r e h =
    elim (if-eq-ok (eqb d.amount.amount 0) h) [
      | inl h1 ↦ set_pool a s p _ e refl h1 (λ v. ground arith)
      | inr h1 ↦ after (check_ibc_fee sdk info) h1 (λ fee e2 h2.
          after (load_ica p.ica_id s) h2 (λ icas e3 h3.
            after (unwrap (first (retain (λ v. not (v == validator)) p.validator_addrs))) h3
              (λ target e4 h4. after (msg_with_sudo_callback _ _ s) h4 (λ sent e5 h5.
                set_pool a s p _ e
                  (ap (save a _) (pools-msg_with_sudo_callback _ _ s sent.1 sent.0 e5)) h5
                  (λ v. ground arith)))))
    ]

pub execute_rm_pool_validator-Changes :
    (sdk : Sdk) (info : MessageInfo) (a validator : String) (s s' : Storage) (r : Response)
    → execute_rm_pool_validator sdk info a validator s ≡ ok (s', r)
    → Changes Always a s s'
unfolding execute_rm_pool_validator
execute_rm_pool_validator-Changes sdk info a validator s s' r h = after (load_pool a s) h (λ p e h1.
    after (fail_if (not (info.sender == p.admin)) unauthorized) h1 (λ _ e2 h2.
      after (fail_if (not (p.status == active_ended)) era_process_not_end) h2 (λ _ e3 h3.
        after (fail_if (not (contains p.validator_addrs validator)) old_validator_not_exist) h3
          (λ _ e4 h4.
            after (fail_if (not (p.validator_update_status == end)) status_not_allow) h4 (λ _ e5 h5.
              after (query_delegation_by_addr sdk s a p.sdk_greater_or_equal_v047) h5
                (λ response e6 h6.
                  after (fail_if (leb (length p.validator_addrs) 1) validator_address_list_size) h6
                    (λ _ e7 h7.
                      remove_or_redelegate-Changes sdk info a validator p
                        (find_delegation validator response.delegations) s s' r e h7)))))))

deal_validators_icq_update-pools :
    (icq : Icq) (a : String) (p : PoolInfo) (connection : String) (s s' : Storage) (r : Response)
    → deal_validators_icq_update icq a p connection s ≡ ok (s', r)
    → s'.pools ≡ s.pools
unfolding deal_validators_icq_update
deal_validators_icq_update-pools icq a p connection s s' r h = ground arith

pub execute_add_pool_validators-Changes :
    (icq : Icq) (info : MessageInfo) (a validator : String) (s s' : Storage) (r : Response)
    → execute_add_pool_validators icq info a validator s ≡ ok (s', r)
    → Changes Always a s s'
unfolding execute_add_pool_validators
execute_add_pool_validators-Changes icq info a validator s s' r h =
    after (load_pool a s) h (λ p e h1.
      after (fail_if (not (info.sender == p.admin)) unauthorized) h1 (λ _ e2 h2.
        after (fail_if (not (p.status == active_ended)) era_process_not_end) h2 (λ _ e3 h3.
          after
            (fail_if (leb validater_len_limit (length p.validator_addrs))
              validator_address_list_size)
            h3
            (λ _ e4 h4.
              after (fail_if (contains p.validator_addrs validator) validator_already_exit) h4
                (λ _ e5 h5.
                  let q = record p { validator_addrs = push p.validator_addrs validator } in
                  after (load_ica p.ica_id (save_pool a q s)) h5 (λ icas e6 h6. record {
                    before = p;
                    after = q;
                    loaded = ground (arith, e);
                    stored = deal_validators_icq_update-pools icq a q _ (save_pool a q s) s' r h6;
                    keeps = λ _ v. ground arith;
                  }))))))

pub execute_update_validators_icq-Changes :
    (icq : Icq) (info : MessageInfo) (a : String) (s s' : Storage) (r : Response)
    → execute_update_validators_icq icq info a s ≡ ok (s', r)
    → Changes Always a s s'
unfolding execute_update_validators_icq
execute_update_validators_icq-Changes icq info a s s' r h = after (load_pool a s) h (λ p e h1.
    after (fail_if (not (info.sender == p.admin)) unauthorized) h1 (λ _ e2 h2.
      after (fail_if (not (p.validator_update_status == wait_query_update)) status_not_allow) h2
        (λ _ e3 h3.
          let q = record p { validator_update_status = end } in
          after (load_ica p.ica_id (save_pool a q s)) h3 (λ icas e4 h4. record {
            before = p;
            after = q;
            loaded = ground (arith, e);
            stored = deal_validators_icq_update-pools icq a q _ (save_pool a q s) s' r h4;
            keeps = λ _ v. ground arith;
          }))))

set_era_seconds-IsValid :
    (env : Env) (o : Option ℕ) (p q : PoolInfo)
    → set_era_seconds env o p ≡ ok q
    → IsValid p
    → IsValid q
unfolding set_era_seconds
set_era_seconds-IsValid env none p q h v = subst IsValid (ok_injective h) v
set_era_seconds-IsValid env (some e) p q h v =
    after (fail_if (ltb e min_era_seconds) less_than_minimal_era_seconds) h (λ _ e1 h1.
      after (fail_if (ltb max_era_seconds e) exceed_max_era_seconds) h1 (λ _ e2 h2.
        after (current_era env p) h2 (λ now e3 h3.
          after (U64.div (seconds env) e) h3 (λ quotient e4 h4.
            after (sub_i64 (as_i64 now) (as_i64 quotient)) h4
              (λ offset e5 h5. subst IsValid (ok_injective h5) (ground arith))))))

pub execute_config_pool-Changes :
    (info : MessageInfo) (env : Env) (param : ConfigPoolParams) (s s' : Storage) (r : Response)
    → execute_config_pool info env param s ≡ ok (s', r)
    → Changes Always param.pool_addr s s'
unfolding execute_config_pool
execute_config_pool-Changes info env param s s' r h =
    after (load_pool param.pool_addr s) h (λ p e h1.
      after (fail_if (not (info.sender == p.admin)) unauthorized) h1 (λ _ e2 h2.
        after (set_era_seconds env param.era_seconds _) h2 (λ q e3 h3.
          set_pool param.pool_addr s p _ e refl h3 (λ v.
            let kept : IsValid q =
              set_era_seconds-IsValid env param.era_seconds _ q e3 (ground arith) in
            ground arith))))
