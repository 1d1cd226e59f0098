-- ===== src/StakeManager/Stake/Value.antt =====
-- What staking and unstaking do to a pool, and that nobody gains by the two in a row.
use neutron_contracts.Base.{
  ==_iff, Bool-cases, List, Option-cases, Outcome-cases, String, [], ap, arith, false,
  if◌then◌else◌, inl, inr, length, ltb, may_load, may_load-save_self, nat_eq, none, ok, pair_eq,
  push, some, some_injective, string_eq, subst, sym, ℕ, ◌*◌, ◌++◌, ◌+◌, ◌-◌, ◌/◌, ◌<◌, ◌==◌, ◌∙◌,
  ◌∷◌, ◌≡◌, ◌≤◌,
}
use neutron_contracts.StakeManager.Types.{
  Addr, Coin, PoolInfo, UnstakeInfo, coin_eq, default, era_status_eq, validator_update_status_eq,
}
use neutron_contracts.Base.U64
use neutron_contracts.Base.Uint128
use neutron_contracts.StakeManager.Messages.{
  MessageInfo, Response, burn_from, message, mint, transfer_from,
}
use neutron_contracts.StakeManager.Storage.{Storage, or_empty, save_pool}
use neutron_contracts.StakeManager.Helper.{cal_base}
use neutron_contracts.StakeManager.Stake.{execute_stake, execute_unstake, sole_coin, unbond_fee}

-- The pool after a stake of this many tokens.
abbrev pub staked_pool : PoolInfo → ℕ → PoolInfo
staked_pool p amount = record p {
  active = p.active + amount;
  bond = p.bond + amount;
  total_lsd_token_amount = p.total_lsd_token_amount + amount * cal_base / p.rate;
}

pub record Stakes (user a : String) (p : PoolInfo) (c : Coin) (s s' : Storage) (r : Response)
    : Type 0 where
  pub open_pool : p.paused ≡ false
  pub enough : p.minimal_stake ≤ c.amount
  pub rated : 0 < p.rate
  pub saved : s' ≡ save_pool a (staked_pool p c.amount) s
  pub minted : r ≡ message (mint p.lsd_token user (c.amount * cal_base / p.rate)) ∷ []

sole_coin-eq-some :
    (cs : List Coin) (denom : String) (c : Coin)
    → sole_coin cs denom ≡ some c
    → (cs ≡ c ∷ []) × (c.denom ≡ denom)
sole_coin-eq-some [] denom c h = absurd cc
sole_coin-eq-some (x ∷ []) denom c h = elim (Bool-cases (x.denom == denom)) [
  | inl same ↦
      let found = subst (λ b. (if b then some x else none) ≡ some c) same h in
      (
        ap (λ y. y ∷ []) (some_injective found),
        ap (λ (y : Coin). y.denom) (sym (some_injective found)) ∙ (==_iff x.denom denom).0 same,
      )
  | inr other ↦ absurd (ground (arith, other))
]
sole_coin-eq-some (x ∷ y ∷ cs) denom c h = absurd cc

stake_of_coin-Stakes :
    (user a : String) (info : MessageInfo) (s s' : Storage) (r : Response) (p : PoolInfo) (c : Coin)
    → may_load a s.pools ≡ some p
    → sole_coin info.funds p.ibc_denom ≡ some c
    → execute_stake user a info s ≡ ok (s', r)
    → Stakes user a p c s s' r
unfolding execute_stake Uint128.add Uint128.mul Uint128.div
stake_of_coin-Stakes user a info s s' r p c e f h = record {
  open_pool = ground arith;
  enough = ground arith;
  rated = ground arith;
  saved = ground arith;
  minted = ground arith;
}

-- A stake that succeeds: the funds were one coin of the pool's denomination, the pool was open and
-- the stake large enough, the pool takes it up, and the staker is minted its worth.
pub execute_stake-Stakes :
    (user a : String) (info : MessageInfo) (s s' : Storage) (r : Response) (p : PoolInfo)
    → may_load a s.pools ≡ some p
    → execute_stake user a info s ≡ ok (s', r)
    → (c : Coin) × (info.funds ≡ c ∷ []) × (c.denom ≡ p.ibc_denom) × Stakes user a p c s s' r
unfolding execute_stake
execute_stake-Stakes user a info s s' r p e h =
    elim (Option-cases (sole_coin info.funds p.ibc_denom)) [
      | inl f ↦ absurd (ground (arith, e, f))
      | inr (c, f) ↦
          let (one, same) = sole_coin-eq-some info.funds p.ibc_denom c f in
          (c, one, same, stake_of_coin-Stakes user a info s s' r p c e f h)
    ]

-- What is burned of an amount of tokens after the commission, and what that is worth.
abbrev pub commission : PoolInfo → ℕ → ℕ
commission p lsd_amount = lsd_amount * p.unbond_commission / cal_base

abbrev pub burned : PoolInfo → ℕ → ℕ
burned p lsd_amount = lsd_amount - commission p lsd_amount

abbrev pub worth : PoolInfo → ℕ → ℕ
worth p lsd_amount = burned p lsd_amount * p.rate / cal_base

abbrev pub unstaked_pool : PoolInfo → ℕ → PoolInfo
unstaked_pool p lsd_amount = record p {
  next_unstake_index = p.next_unstake_index + 1;
  unbond = p.unbond + worth p lsd_amount;
  active = p.active - worth p lsd_amount;
  total_lsd_token_amount = p.total_lsd_token_amount - burned p lsd_amount;
}

abbrev pub new_unstake : PoolInfo → String → Addr → ℕ → UnstakeInfo
new_unstake p a sender lsd_amount = record {
  era = p.era;
  pool_addr = a;
  unstaker = sender;
  amount = worth p lsd_amount - 5;
  status = default;
  index = p.next_unstake_index + 1;
}

pub record Unstakes (info : MessageInfo) (lsd_amount : ℕ) (a : String) (pool : PoolInfo)
    (s s' : Storage) (r : Response) : Type 0 where
  pub within_limit :
      length (or_empty (may_load (info.sender, a) s.unstakes_index_for_user))
      < pool.unstake_times_limit
  pub charged : commission pool lsd_amount ≤ lsd_amount
  pub covered : worth pool lsd_amount ≤ pool.active
  pub supplied : burned pool lsd_amount ≤ pool.total_lsd_token_amount
  pub enough : 5 < worth pool lsd_amount
  pub saved : may_load a s'.pools ≡ some (unstaked_pool pool lsd_amount)
  pub recorded :
      may_load (a, pool.next_unstake_index + 1) s'.unstakes_of_index
      ≡ some (new_unstake pool a info.sender lsd_amount)
  pub listed :
      may_load (info.sender, a) s'.unstakes_index_for_user
      ≡ some (
          push
            (or_empty (may_load (info.sender, a) s.unstakes_index_for_user))
            (pool.next_unstake_index + 1))
  pub sent :
      r
      ≡ (if ltb 0 (commission pool lsd_amount)
          then message (
              transfer_from pool.lsd_token info.sender pool.platform_fee_receiver
                (commission pool lsd_amount))
            ∷ []
          else [])
        ++ message (burn_from pool.lsd_token info.sender (burned pool lsd_amount)) ∷ []

no_commission : (p : PoolInfo) (x : ℕ) → p.unbond_commission ≡ 0 → commission p x ≡ 0
no_commission p x e = rw e (omega arith)

pub unbond_fee-eq-ok :
    (p : PoolInfo) (sender : Addr) (x : ℕ) {b : ℕ} {r : Response}
    → unbond_fee p sender x ≡ ok (b, r)
    → (commission p x ≤ x)
      × (b ≡ burned p x)
      × (r ≡ (
          if ltb 0 (commission p x)
          then message (transfer_from p.lsd_token sender p.platform_fee_receiver (commission p x))
            ∷ []
          else []))
unfolding unbond_fee Uint128.mul Uint128.div Uint128.sub
unbond_fee-eq-ok p sender x h = elim (Bool-cases (ltb 0 p.unbond_commission)) [
  | inl charged ↦ ground arith
  | inr free ↦ ground (arith, no_commission p x)
]

-- An unstake that succeeds: the sender was below the limit of unstakes, the tokens left after the
-- commission are worth more than five, and pool, claim, index list and messages follow from that.
pub execute_unstake-Unstakes :
    (info : MessageInfo) (x : ℕ) (a : String) (s s' : Storage) (r : Response) (p : PoolInfo)
    → may_load a s.pools ≡ some p
    → execute_unstake info x a s ≡ ok (s', r)
    → Unstakes info x a p s s' r
unfolding execute_unstake Uint128.add Uint128.mul Uint128.div Uint128.sub U64.add
execute_unstake-Unstakes info x a s s' r p e h = elim (Outcome-cases (unbond_fee p info.sender x)) [
  | inl ((b, fee_msgs), e') ↦
      let fee = unbond_fee-eq-ok p info.sender x e' in
      record {
        within_limit = ground arith;
        charged = fee.0;
        covered = ground arith;
        supplied = ground arith;
        enough = ground arith;
        saved = ground (arith, may_load-save_self a (unstaked_pool p x) s.pools);
        recorded = ground (
          arith,
          may_load-save_self (a, p.next_unstake_index + 1) (new_unstake p a info.sender x)
              s.unstakes_of_index,
        );
        listed = ground (
          arith,
          may_load-save_self (info.sender, a)
              (push (or_empty (may_load (info.sender, a) s.unstakes_index_for_user))
                (p.next_unstake_index + 1))
              s.unstakes_index_for_user,
        );
        sent = ground arith;
      }
  | inr (inl (_, e')) ↦ ground arith
  | inr (inr e') ↦ ground arith
]
