-- ===== src/StakeManager/Setup/Config/Eras.antt =====
-- A configuration and the current era (execute_config_pool.rs).
use neutron_contracts.Base.Int.{
  as_i64, saturating_add_signed, saturating_add_signed-sub_i64, sub_i64,
}
use neutron_contracts.Base.{
  ==_iff, Option, after, ap, arith, fail_if, ltb, may_load-save_self, nat_eq, none, not, ok,
  ok_injective, pair_eq, some, string_eq, subst, sym, true, ℕ, ◌<◌, ◌==◌, ◌>>=◌, ◌∙◌, ◌≡◌,
}
use neutron_contracts.StakeManager.Storage.{Storage, load_pool, or_not_found}
use neutron_contracts.StakeManager.Messages.{Env, MessageInfo, Response, seconds}
use neutron_contracts.StakeManager.Setup.Icq.{max_era_seconds, min_era_seconds}
use native.Mathlib.Nat.{div-le_self}
use neutron_contracts.Base.U64
use neutron_contracts.StakeManager.Types.{
  PoolInfo, coin_eq, era_status_eq, validator_update_status_eq,
}
use neutron_contracts.StakeManager.Errors.{
  exceed_max_era_seconds, less_than_minimal_era_seconds, unauthorized,
}
use neutron_contracts.StakeManager.Era.Update.{current_era}
use neutron_contracts.StakeManager.Setup.Config.{
  ConfigPoolParams, execute_config_pool, or_kept, set_era_seconds,
}

current_era-set_era_seconds :
    (env : Env) (o : Option ℕ) (p p' : PoolInfo) (now : ℕ)
    → set_era_seconds env o p ≡ ok p'
    → env.nanos < U64.modulus
    → now < 9223372036854775808
    → current_era env p ≡ ok now
    → current_era env p' ≡ ok now
unfolding set_era_seconds current_era
current_era-set_era_seconds env none p p' now h a b c = ground (arith, c)
current_era-set_era_seconds env (some e) p p' now h a b c =
    after (fail_if (ltb e min_era_seconds) less_than_minimal_era_seconds) h (λ _ e1 h1.
      after (fail_if (ltb max_era_seconds e) exceed_max_era_seconds) h1 (λ _ e2 h2.
        after (current_era env p) h2 (λ now' e3 h3. after (U64.div (seconds env) e) h3 (λ q e4 h4.
          after (sub_i64 (as_i64 now') (as_i64 q)) h4 (λ z e5 h5.
            let same : now' ≡ now = ok_injective (sym e3 ∙ c) in
            subst (λ w. current_era env w ≡ ok now) (ok_injective h5)
              (ap (λ m. m >>= λ k. ok (saturating_add_signed k z)) e4
                ∙ ap ok (
                    saturating_add_signed-sub_i64 now q z b
                      (ground
                        (arith, U64.div-eq-ok (seconds env) e e4, div-le_self env.nanos 1000000000))
                      (ap (λ n. sub_i64 (as_i64 n) (as_i64 q)) (sym same) ∙ e5))))))))

-- A configuration that succeeds was the pool's admin's, and leaves the current era as it was, also
-- when it sets a new length of an era. The block's time is a `u64`, and the era is an `i64`.
pub execute_config_pool-current_era :
    (info : MessageInfo) (env : Env) (param : ConfigPoolParams) (s s' : Storage) (r : Response)
    (old : PoolInfo) (now : ℕ)
    → execute_config_pool info env param s ≡ ok (s', r)
    → load_pool param.pool_addr s ≡ ok old
    → env.nanos < U64.modulus
    → now < 9223372036854775808
    → current_era env old ≡ ok now
    → (info.sender ≡ old.admin)
      × (new : PoolInfo) × (load_pool param.pool_addr s' ≡ ok new)
      × (current_era env new ≡ ok now)
unfolding execute_config_pool current_era
execute_config_pool-current_era info env param s s' r old now h e a b c =
    after (load_pool param.pool_addr s) h (λ old' e1 h1.
      after (fail_if (not (info.sender == old'.admin)) unauthorized) h1 (λ _ e2 h2.
        after
          (set_era_seconds env param.era_seconds (record old' {
            minimal_stake = or_kept param.minimal_stake old'.minimal_stake;
            unbonding_period = or_kept param.unbonding_period old'.unbonding_period;
            unstake_times_limit = or_kept param.unstake_times_limit old'.unstake_times_limit;
            unbond_commission = or_kept param.unbond_commission old'.unbond_commission;
            platform_fee_commission =
                or_kept param.platform_fee_commission old'.platform_fee_commission;
          }))
          h2
          (λ p e3 h3.
            let same : old ≡ old' = ok_injective (sym e ∙ e1) in
            (
              (==_iff info.sender old.admin).0 (
                  subst (λ (w : PoolInfo). (info.sender == w.admin) ≡ true) (sym same)
                    (ground arith)),
              _,
              ap (λ (x : Storage × Response). load_pool param.pool_addr x.0) (sym (ok_injective h3))
                  ∙ ap or_not_found (may_load-save_self param.pool_addr _ s.pools),
              current_era-set_era_seconds env param.era_seconds _ p now e3 a b
                  (subst (λ w. current_era env w ≡ ok now) same c),
            ))))
