-- ===== src/StakeManager/Era/Rebond/Split.antt =====
-- The split of a stake over the chosen validators.
use neutron_contracts.Base.Uint128
use neutron_contracts.Base.{
  All, List, Outcome-cases, String, [], arith, contains, inl, inr, length, nat_eq, ok, pair_eq,
  refl, string_eq, suc, true, ℕ, ◌*◌, ◌+◌, ◌-◌, ◌/◌, ◌<◌, ◌∷◌, ◌≡◌, ◌≢◌, ◌≤◌,
}
use neutron_contracts.StakeManager.Types.{
  PoolInfo, coin_eq, era_status_eq, validator_update_status_eq,
}
use neutron_contracts.StakeManager.Messages.{HostMsg, ProtobufAny, delegate}
use neutron_contracts.StakeManager.Helper.{gen_delegation_txs}
use neutron_contracts.StakeManager.Era.Rebond.{delegate_each, delegate_evenly, split_stake}

-- What a message delegates, and to whom.
abbrev pub delegated : HostMsg → ℕ
delegated (delegate d v denom amount) = amount
delegated _ = 0

abbrev pub delegated_sum : List ProtobufAny → ℕ
delegated_sum [] = 0
delegated_sum (m ∷ ms) = delegated m.value + delegated_sum ms

abbrev pub IsDelegation : PoolInfo → String → String → ProtobufAny → Type 0
IsDelegation p a v m =
    (contains p.validator_addrs v ≡ true)
    × (m ≡ gen_delegation_txs a v p.remote_denom (delegated m.value))

-- One delegation for each of the validators, in their order.
abbrev pub Delegations : PoolInfo → String → List String → List ProtobufAny → Type 0
Delegations p a [] [] = Unit
Delegations p a [] (m ∷ ms) = ⊥
Delegations p a (v ∷ vs) [] = ⊥
Delegations p a (v ∷ vs) (m ∷ ms) = IsDelegation p a v m × Delegations p a vs ms

delegate_each-sum :
    (p : PoolInfo) (a : String) (amount : ℕ) (vs : List String) (ms : List ProtobufAny)
    → delegate_each p a amount vs ≡ ok ms
    → (delegated_sum ms ≡ amount * length vs) × Delegations p a vs ms
unfolding delegate_each gen_delegation_txs
delegate_each-sum p a amount [] [] h = (omega arith, tt)
delegate_each-sum p a amount [] (m ∷ ms) h = cc
delegate_each-sum p a amount (v ∷ vs) ms h = elim (Outcome-cases (delegate_each p a amount vs)) [
  | inl (rest, e) ↦ ground (arith, delegate_each-sum p a amount vs rest e)
  | inr (inl (_, e)) ↦ ground arith
  | inr (inr e) ↦ ground arith
]

delegate_evenly-sum :
    (p : PoolInfo) (a : String) (amount remainder : ℕ) (vs : List String) (ms : List ProtobufAny)
    → vs ≢ []
    → delegate_evenly p a amount remainder vs ≡ ok ms
    → (delegated_sum ms ≡ amount * length vs + remainder) × Delegations p a vs ms
unfolding delegate_evenly gen_delegation_txs Uint128.add
delegate_evenly-sum p a amount remainder [] ms ne h = absurd (ne refl)
delegate_evenly-sum p a amount remainder (v ∷ vs) ms ne h =
    elim (Outcome-cases (delegate_each p a amount vs)) [
      | inl (rest, e) ↦ ground (arith, delegate_each-sum p a amount vs rest e)
      | inr (inl (_, e)) ↦ ground arith
      | inr (inr e) ↦ ground arith
    ]

-- A split that succeeds sends one delegation to each chosen validator, each of them one of the
-- pool's, and together they delegate exactly the amount.
pub split_stake-sum :
    (p : PoolInfo) (a : String) (total : ℕ) (vs : List String) (ms : List ProtobufAny)
    → split_stake p a total vs ≡ ok ms
    → (delegated_sum ms ≡ total) × Delegations p a vs ms
unfolding split_stake Uint128.div Uint128.mul Uint128.sub
split_stake-sum p a total [] ms h = ground arith
split_stake-sum p a total (v ∷ vs) ms h =
    let n = length (v ∷ vs) in
    let sum =
      delegate_evenly-sum p a (total / n) (total - total / n * n) (v ∷ vs) ms (λ e. cc)
        (ground arith) in
    (omega (arith, sum.0), sum.1)

share_bounds : (t k : ℕ) → (t / suc k * suc k ≤ t) × (t / suc k + (t - t / suc k * suc k) ≤ t)
share_bounds t k = (omega arith, grind arith)

delegate_each_total :
    (p : PoolInfo) (a : String) (amount : ℕ) (vs : List String)
    → All (λ v. contains p.validator_addrs v ≡ true) vs
    → (ms : List ProtobufAny) × (delegate_each p a amount vs ≡ ok ms)
unfolding delegate_each
delegate_each_total p a amount [] all = ([], refl)
delegate_each_total p a amount (v ∷ vs) all =
    let (ms, e) = delegate_each_total p a amount vs all.1 in
    (gen_delegation_txs a v p.remote_denom amount ∷ ms, ground (arith, all.0))

-- A split succeeds whenever some validator is chosen, all of them are the pool's, and the amount
-- is a `Uint128`.
pub split_stake_total :
    (p : PoolInfo) (a : String) (total : ℕ) (vs : List String)
    → vs ≢ []
    → All (λ v. contains p.validator_addrs v ≡ true) vs
    → total < Uint128.modulus
    → (ms : List ProtobufAny) × (split_stake p a total vs ≡ ok ms)
unfolding split_stake delegate_evenly Uint128.add Uint128.div Uint128.mul Uint128.sub
split_stake_total p a total [] ne all fits = absurd (ne refl)
split_stake_total p a total (v ∷ vs) ne all fits =
    let n = length (v ∷ vs) in
    let (ms, e) = delegate_each_total p a (total / n) vs all.1 in
    (
      gen_delegation_txs a v p.remote_denom (total / n + (total - total / n * n)) ∷ ms,
      ground (arith, all.0, share_bounds total (length vs)),
    )
