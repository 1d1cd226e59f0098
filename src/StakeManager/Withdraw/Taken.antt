-- ===== src/StakeManager/Withdraw/Taken.antt =====
-- The unstakes that a withdrawal takes (contracts/stake_manager/src/execute_withdraw.rs).
use neutron_contracts.Base.Uint128
use neutron_contracts.Base.{
  ==_iff, ==_refl, All, Bool, IsDistinct, List, Option, String, [], after, arith, contains, eqb,
  false, may_load, may_load-save, may_load-save_self, nat_eq, none, ok, pair_eq, refl, save, some,
  string_eq, ℕ, ◌&&◌, ◌+◌, ◌<◌, ◌==◌, ◌∷◌, ◌≡◌, ◌≤◌,
}
use neutron_contracts.Base.U64
use neutron_contracts.StakeManager.Types.{
  Addr, PoolInfo, UnstakeInfo, coin_eq, default, era_status_eq, is_pending, pending,
  validator_update_status_eq,
}
use neutron_contracts.StakeManager.Errors.{ContractError}
use neutron_contracts.StakeManager.Storage.{or_not_found}
use neutron_contracts.StakeManager.Withdraw.{Unstakes, check_unstake, take_unstakes}

-- The unstake may be withdrawn: it is the sender's, no withdrawal of it is under way, and its
-- unbonding is over.
pub record IsReady (p : PoolInfo) (pool_addr : String) (sender : Addr) (m : Unstakes) (i : ℕ)
    : Type 0 where
  pub unstake : UnstakeInfo
  pub stored : may_load (pool_addr, i) m ≡ some unstake
  pub in_pool : unstake.pool_addr ≡ pool_addr
  pub own : unstake.unstaker ≡ sender
  pub free : unstake.status ≡ default
  pub ripe : unstake.era + p.unbonding_period ≤ p.era

abbrev pub amount_of : Option UnstakeInfo → ℕ
amount_of none = 0
amount_of (some u) = u.amount

abbrev pub amounts : String → Unstakes → List ℕ → ℕ
amounts pool_addr m [] = 0
amounts pool_addr m (i ∷ is) = amount_of (may_load (pool_addr, i) m) + amounts pool_addr m is

-- The unstake with a withdrawal of it under way.
abbrev pub mark : Option UnstakeInfo → Option UnstakeInfo
mark none = none
mark (some u) = some (record u { status = pending })

abbrev pub held : Option UnstakeInfo → Bool
held none = false
held (some u) = is_pending u.status

check_unstake-eq-ok :
    (p : PoolInfo) (pool_addr : String) (sender : Addr) (i : ℕ) (m : Unstakes) (u : UnstakeInfo)
    → may_load (pool_addr, i) m ≡ some u
    → check_unstake p pool_addr sender i u ≡ ok tt
    → IsReady p pool_addr sender m i
unfolding check_unstake U64.add
check_unstake-eq-ok p pool_addr sender i m u stored h = record {
  unstake = u;
  stored = stored;
  in_pool = ground (arith, ==_iff u.pool_addr pool_addr);
  own = ground (arith, ==_iff u.unstaker sender);
  free = ground arith;
  ripe = ground arith;
}

-- What a run of the loop over the indices has done.
pub record Taken (p : PoolInfo) (pool_addr : String) (sender : Addr) (is : List ℕ) (t : ℕ)
    (m : Unstakes) (t' : ℕ) (m' : Unstakes) : Type 0 where
  pub total : t' ≡ t + amounts pool_addr m is
  pub ready : All (IsReady p pool_addr sender m) is
  pub distinct : IsDistinct is
  pub marked : All (λ i. may_load (pool_addr, i) m' ≡ mark (may_load (pool_addr, i) m)) is
  pub fits : t < Uint128.modulus → t' < Uint128.modulus
  pub others :
      (q : String) (j : ℕ)
      → ((q == pool_addr) && contains is j) ≡ false
      → may_load (q, j) m' ≡ may_load (q, j) m

-- Marking one unstake leaves the amounts.
amounts-save :
    (pool_addr : String) (i : ℕ) (m : Unstakes) (u : UnstakeInfo)
    → may_load (pool_addr, i) m ≡ some u
    → (is : List ℕ)
    → amounts pool_addr (save (pool_addr, i) (record u { status = pending }) m) is
      ≡ amounts pool_addr m is
amounts-save pool_addr i m u stored [] = refl
amounts-save pool_addr i m u stored (j ∷ is) = ground (
  arith,
  stored,
  ==_refl pool_addr,
  may_load-save (pool_addr, j) (pool_addr, i) (record u { status = pending }) m,
  amounts-save pool_addr i m u stored is,
)

-- What is still ready after one unstake is marked is another one, and was ready before.
IsReady-save :
    (p : PoolInfo) (pool_addr : String) (sender : Addr) (i : ℕ) (m : Unstakes) (u : UnstakeInfo)
    (is : List ℕ)
    → All (IsReady p pool_addr sender (save (pool_addr, i) (record u { status = pending }) m)) is
    → All (IsReady p pool_addr sender m) is × (contains is i ≡ false)
unfolding contains
IsReady-save p pool_addr sender i m u [] all = (tt, refl)
IsReady-save p pool_addr sender i m u (j ∷ is) (r, all) =
    let rest = IsReady-save p pool_addr sender i m u is all in
    let found = may_load-save (pool_addr, j) (pool_addr, i) (record u { status = pending }) m in
    let differ : eqb i j ≡ false = ground (arith, found, r.stored, r.free, ==_refl pool_addr) in
    (
      (
        record {
          unstake = r.unstake;
          stored = ground (arith, r.stored, found, differ);
          in_pool = r.in_pool;
          own = r.own;
          free = r.free;
          ripe = r.ripe;
        },
        rest.0,
      ),
      ground (arith, rest.1, differ),
    )

-- What is marked after one unstake is marked as it was before.
mark-save :
    (pool_addr : String) (i : ℕ) (m m' : Unstakes) (u : UnstakeInfo)
    → may_load (pool_addr, i) m ≡ some u
    → (is : List ℕ)
    → All
        (λ j.
          may_load (pool_addr, j) m'
          ≡ mark (may_load (pool_addr, j) (save (pool_addr, i) (record u { status = pending }) m)))
        is
    → All (λ j. may_load (pool_addr, j) m' ≡ mark (may_load (pool_addr, j) m)) is
mark-save pool_addr i m m' u stored [] all = tt
mark-save pool_addr i m m' u stored (j ∷ is) all = (
  ground (
    arith,
    all.0,
    stored,
    ==_refl pool_addr,
    may_load-save (pool_addr, j) (pool_addr, i) (record u { status = pending }) m,
  ),
  mark-save pool_addr i m m' u stored is all.1,
)

step-Taken :
    (p : PoolInfo) (pool_addr : String) (sender : Addr) (i : ℕ) (is : List ℕ) (t : ℕ) (m : Unstakes)
    (t' : ℕ) (m' : Unstakes) (u : UnstakeInfo) (t1 : ℕ)
    → may_load (pool_addr, i) m ≡ some u
    → IsReady p pool_addr sender m i
    → Uint128.add {E = ContractError} t u.amount ≡ ok t1
    → Taken p pool_addr sender is t1 (save (pool_addr, i) (record u { status = pending }) m) t' m'
    → Taken p pool_addr sender (i ∷ is) t m t' m'
unfolding Uint128.add contains
step-Taken p pool_addr sender i is t m t' m' u t1 stored first sum rest =
    let marked = record u { status = pending } in
    let (ready, new) = IsReady-save p pool_addr sender i m u is rest.ready in
    record {
      total = ground (arith, rest.total, amounts-save pool_addr i m u stored is);
      ready = (first, ready);
      distinct = (new, rest.distinct);
      marked = (
        ground (
          arith,
          stored,
          rest.others pool_addr i,
          new,
          may_load-save_self (pool_addr, i) marked m,
        ),
        mark-save pool_addr i m m' u stored is rest.marked,
      );
      fits = λ _. rest.fits (ground arith);
      others = λ q j h. ground (
        arith,
        rest.others q j,
        ==_iff q pool_addr,
        ==_iff pool_addr q,
        may_load-save (q, j) (pool_addr, i) marked m,
      );
    }

pub take_unstakes-Taken :
    (p : PoolInfo) (pool_addr : String) (sender : Addr) (is : List ℕ) (t : ℕ) (m : Unstakes)
    (t' : ℕ) (m' : Unstakes)
    → take_unstakes p pool_addr sender is t m ≡ ok (t', m')
    → Taken p pool_addr sender is t m t' m'
unfolding take_unstakes
take_unstakes-Taken p pool_addr sender [] t m t' m' h = record {
  total = ground arith;
  ready = tt;
  distinct = tt;
  marked = tt;
  fits = λ small. ground arith;
  others = λ q j _. ground arith;
}
take_unstakes-Taken p pool_addr sender (i ∷ is) t m t' m' h =
    after (or_not_found (may_load (pool_addr, i) m)) h (λ u e1 h1.
      after (check_unstake p pool_addr sender i u) h1 (λ _ e2 h2.
        after (Uint128.add t u.amount) h2 (λ t1 e3 h3.
          let stored : may_load (pool_addr, i) m ≡ some u = ground arith in
          step-Taken p pool_addr sender i is t m t' m' u t1 stored
            (check_unstake-eq-ok p pool_addr sender i m u stored e2) e3
            (take_unstakes-Taken p pool_addr sender is t1
              (save (pool_addr, i) (record u { status = pending }) m) t' m' h3))))
