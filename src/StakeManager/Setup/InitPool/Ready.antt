-- ===== src/StakeManager/Setup/InitPool/Ready.antt =====
-- The pools that execute_init_pool.rs and execute_migrate_pool.rs set up.
use neutron_contracts.Base.{
  Option, [], after, ap, arith, nat_eq, none, ok, ok_injective, pair_eq, refl, some, string_eq,
  subst, ℕ, ◌*◌, ◌+◌, ◌<◌, ◌>>=◌, ◌∙◌, ◌≡◌, ◌≤◌, ◌⊎◌,
}
use neutron_contracts.StakeManager.Types.{
  PoolInfo, coin_eq, era_status_eq, validator_update_status_eq,
}
use neutron_contracts.Base.Int.{
  as_i64, pos, saturating_add_signed, saturating_add_signed-sub_i64, sub_i64,
}
use neutron_contracts.Base.Uint128
use native.Mathlib.Nat.{div-le_self}
use neutron_contracts.StakeManager.Helper.{cal_base}
use neutron_contracts.StakeManager.Messages.{Env, seconds}
use neutron_contracts.Base.U64
use neutron_contracts.StakeManager.Era.Update.{current_era}
use neutron_contracts.StakeManager.Setup.Icq.{min_era_seconds}
use neutron_contracts.StakeManager.Setup.InitPool.{
  InitPoolParams, initial_era_seconds, initial_pool,
}

initial_era_seconds-eq-ok :
    (o : Option ℕ) (e : ℕ) → initial_era_seconds o ≡ ok e → min_era_seconds ≤ e
unfolding initial_era_seconds
initial_era_seconds-eq-ok none e h = ground arith
initial_era_seconds-eq-ok (some n) e h = ground arith

-- What a rounded quotient is.
abbrev IsQuotient : ℕ → ℕ → ℕ → Type 0
IsQuotient a b c = (b * c ≤ a) × (a < b * (c + 1))

-- A pool that begins: it is in its era zero, at the rate one, has no amount of any kind, and its
-- eras are eight hours at least.
abbrev pub IsNew : Env → PoolInfo → Type 0
IsNew env p =
    (current_era env p ≡ ok 0)
    × (p.era ≡ 0)
    × (p.rate ≡ cal_base)
    × (p.bond ≡ 0)
    × (p.unbond ≡ 0)
    × (p.active ≡ 0)
    × (p.total_lsd_token_amount ≡ 0)
    × (p.total_platform_fee ≡ 0)
    × (p.share_tokens ≡ [])
    × (min_era_seconds ≤ p.era_seconds)

-- A new pool is at the time of its initialisation in era zero, which it also stores. It has the rate
-- one, no bond, unbond, active amount, supply, fee or share token, and eras of eight hours at least.
-- The clock is within its word.
pub initial_pool-current_era :
    (env : Env) (param : InitPoolParams) (p p' : PoolInfo)
    → initial_pool env param p ≡ ok p'
    → env.nanos < U64.modulus
    → IsNew env p'
unfolding initial_pool current_era
initial_pool-current_era env param p p' h a =
    after (initial_era_seconds param.era_seconds) h (λ e e1 h1.
      after (U64.div (seconds env) e) h1 (λ q e2 h2.
        after (sub_i64 (pos 0) (as_i64 q)) h2 (λ z e3 h3. subst (IsNew env) (ok_injective h3) (
          ap (λ m. m >>= λ k. ok (saturating_add_signed k z)) e2
              ∙ ap ok (
                  saturating_add_signed-sub_i64 0 q z (omega arith)
                    (ground
                      (arith, U64.div-eq-ok (seconds env) e e2, div-le_self env.nanos 1000000000))
                    e3),
          refl,
          refl,
          refl,
          refl,
          refl,
          refl,
          refl,
          refl,
          initial_era_seconds-eq-ok param.era_seconds e e1,
        ))))

abbrev IsRated : PoolInfo → Type 0
IsRated p =
    (0 < p.rate)
    × ((p.total_lsd_token_amount ≡ 0)
        ⊎ IsQuotient (p.active * cal_base) p.total_lsd_token_amount p.rate)
