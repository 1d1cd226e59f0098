-- ===== src/StakeManager/Era/Active/Rate.antt =====
-- The end of an era: fees, minted tokens and the new exchange rate.
use neutron_contracts.Base.{
  after, arith, inl, inr, nat_eq, ok, pair_eq, refl, string_eq, subst, suc, zero, ℕ, ◌*◌, ◌+◌, ◌-◌,
  ◌/◌, ◌<◌, ◌≡◌, ◌≤◌, ◌⊎◌,
}
use neutron_contracts.Base.Uint128
use neutron_contracts.StakeManager.Types.{
  PoolInfo, Stack, active_ended, coin_eq, era_status_eq, validator_update_status_eq,
}
use neutron_contracts.StakeManager.Errors.{ContractError}
use neutron_contracts.StakeManager.Helper.{cal_base, default_rate}
use neutron_contracts.StakeManager.Era.Active.{
  check_rate_change, end_era, exchange_rate, new_active_amount, protocol_fees, settle_rate,
  settled_pool,
}

-- The fee on a reward, before the stack takes its part.
abbrev pub raw_fee : PoolInfo → ℕ → ℕ
raw_fee p total = (total - p.era_snapshot.active) * p.platform_fee_commission / p.rate

-- Together the two fees are the fee on the reward, of which the stack has its commission; without
-- a reward there is none.
pub protocol_fees-eq-ok :
    (p : PoolInfo) (stack : Stack) (total f g : ℕ)
    → protocol_fees p stack total ≡ ok (f, g)
    → (p.era_snapshot.active < total
        → (f + g ≡ raw_fee p total) × (g ≡ raw_fee p total * stack.stack_fee_commission / cal_base))
      × (total ≤ p.era_snapshot.active → f + g ≡ 0)
unfolding protocol_fees Uint128.sub Uint128.mul Uint128.div
protocol_fees-eq-ok p stack total f g h = (λ reward. ground arith, λ none. ground arith)

-- What the pool has become when an era ends.
pub record Ends (p p' : PoolInfo) (stack : Stack) (total f g : ℕ) : Type 0 where
  pub supply : p'.total_lsd_token_amount ≡ p.total_lsd_token_amount + f + g
  pub status : p'.status ≡ active_ended
  pub era : p'.era ≡ p.era
  pub platform : p'.total_platform_fee ≡ p.total_platform_fee + f
  pub backed :
      p'.rate * p'.total_lsd_token_amount ≤ p'.active * cal_base
      ⊎ ((p'.rate ≡ default_rate) × (p.rate ≡ default_rate) × (p'.active ≡ p.active))
      ⊎ (p'.total_lsd_token_amount ≡ 0)

mul-div-le : (a b : ℕ) → a / b * b ≤ a
mul-div-le a b = omega arith

exchange_rate-eq-ok :
    (active supply rate : ℕ)
    → exchange_rate active supply ≡ ok rate
    → (rate * supply ≤ active * cal_base) ⊎ (supply ≡ 0)
unfolding exchange_rate Uint128.mul Uint128.div
exchange_rate-eq-ok active zero rate h = inr refl
exchange_rate-eq-ok active (suc k) rate h = inl (
    subst (λ r. r * suc k ≤ active * cal_base) {x = active * cal_base / suc k} (ground arith)
      (mul-div-le (active * cal_base) (suc k)))

settle_rate-eq-ok :
    (p : PoolInfo) (new_rate new_active rate active : ℕ)
    → settle_rate p new_rate new_active ≡ ok (rate, active)
    → ((rate ≡ new_rate) × (active ≡ new_active))
      ⊎ ((rate ≡ default_rate) × (p.rate ≡ default_rate) × (active ≡ p.active))
unfolding settle_rate Uint128.add
settle_rate-eq-ok p new_rate new_active rate active h = ground arith

backed_lem :
    (p : PoolInfo) (supply new_rate new_active rate active : ℕ)
    → exchange_rate new_active supply ≡ ok new_rate
    → settle_rate p new_rate new_active ≡ ok (rate, active)
    → (rate * supply ≤ active * cal_base)
      ⊎ ((rate ≡ default_rate) × (p.rate ≡ default_rate) × (active ≡ p.active))
      ⊎ (supply ≡ 0)
backed_lem p supply new_rate new_active rate active e f =
    elim (settle_rate-eq-ok p new_rate new_active rate active f) [
      | inl (r, a) ↦ elim (exchange_rate-eq-ok new_active supply new_rate e) [
        | inl le ↦ inl (
            subst (λ (r, a). r * supply ≤ a * cal_base) {x = (new_rate, new_active)}
              {y = (rate, active)} (ground arith) le)
        | inr z ↦ inr (inr z)
      ]
      | inr held ↦ inr (inl held)
    ]

settled_Ends :
    (p p' : PoolInfo) (stack : Stack) (total f g f1 g1 rate active supply platform : ℕ)
    → Uint128.add {E = ContractError} p.total_lsd_token_amount f1 ≡ ok platform
    → Uint128.add {E = ContractError} platform g1 ≡ ok supply
    → ((rate * supply ≤ active * cal_base)
        ⊎ ((rate ≡ default_rate) × (p.rate ≡ default_rate) × (active ≡ p.active))
        ⊎ (supply ≡ 0))
    → settled_pool p supply rate active f1 g1 ≡ ok (p', f, g)
    → Ends p p' stack total f g
unfolding settled_pool Uint128.add
settled_Ends p p' stack total f g f1 g1 rate active supply platform sum sum' backed h = record {
  supply = ground arith;
  status = ground arith;
  era = ground arith;
  platform = ground arith;
  backed =
      subst
        (λ (rate, supply, active).
          rate * supply ≤ active * cal_base
          ⊎ ((rate ≡ default_rate) × (p.rate ≡ default_rate) × (active ≡ p.active))
          ⊎ (supply ≡ 0))
        {x = (rate, supply, active)} {y = (p'.rate, p'.total_lsd_token_amount, p'.active)}
        (ground arith) backed;
}

-- An era's end adds the two fees to the supply of the token and the platform's to its total, ends
-- the step, leaves the era, and sets a rate at which the supply is worth no more than the active
-- amount, unless the rate is held at one or there is no supply.
pub end_era-Ends :
    (p p' : PoolInfo) (stack : Stack) (total f g : ℕ)
    → end_era p stack total ≡ ok (p', f, g)
    → Ends p p' stack total f g
unfolding end_era Uint128.add
end_era-Ends p p' stack total f g h = after (protocol_fees p stack total) h (λ (f1, g1) e1 h1.
    after (new_active_amount p total) h1 (λ new_active e2 h2.
      after (Uint128.add p.total_lsd_token_amount f1) h2 (λ platform e3 h3.
        after (Uint128.add platform g1) h3 (λ supply e4 h4.
          after (exchange_rate new_active supply) h4 (λ new_rate e5 h5.
            after (check_rate_change p new_rate) h5 (λ _ e6 h6.
              after (settle_rate p new_rate new_active) h6 (λ (rate, active) e7 h7.
                let backed = backed_lem p supply new_rate new_active rate active e5 e7 in
                settled_Ends p p' stack total f g f1 g1 rate active supply platform e3 e4 backed
                  h7)))))))
