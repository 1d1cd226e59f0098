-- ===== src/StakeManager/Era/Allocate/Sum.antt =====
-- The allocation of an unbonding: it gives exactly the amount, within each delegation.
use neutron_contracts.Base.{
  Bool-cases, List, Outcome-cases, [], arith, eqb, inl, inr, nat_eq, ok, pair_eq, refl, string_eq,
  subst, sym, ℕ, ◌++◌, ◌+◌, ◌∷◌, ◌≡◌, ◌≤◌, ◌⊎◌,
}
use neutron_contracts.Base.Uint128
use neutron_contracts.StakeManager.Types.{
  Delegation, coin_eq, era_status_eq, validator_update_status_eq,
}
use neutron_contracts.StakeManager.Era.Allocate.{
  UnbondTimes, ValidatorUnbondInfo, allocate_loop, allocate_one, allocate_unbond_amount,
  current_unbond, sort_by_amount,
}

abbrev pub unbond_sum : List ValidatorUnbondInfo → ℕ
unbond_sum [] = 0
unbond_sum (u ∷ us) = u.unbond_amount + unbond_sum us

-- Each entry comes from a delegation of its own, in order, and is within what is delegated.
pub data Drawn : List Delegation → List ValidatorUnbondInfo → Type 0 where
  done : {ds : List Delegation} → Drawn ds []
  pass :
      {d : Delegation} {ds : List Delegation} {us : List ValidatorUnbondInfo}
      → Drawn ds us
      → Drawn (d ∷ ds) us
  draw :
      {d : Delegation} {ds : List Delegation} {us : List ValidatorUnbondInfo}
      (u : ValidatorUnbondInfo)
      → u.validator ≡ d.validator
      → u.unbond_amount ≤ d.amount.amount
      → Drawn ds us
      → Drawn (d ∷ ds) (u ∷ us)

-- A round adds nothing, or one entry that is within the delegation and the amount that remains.
allocate_one-eq-ok :
    (now period : ℕ) (d : Delegation) (n left : ℕ) (times times' : UnbondTimes)
    (us : List ValidatorUnbondInfo)
    → allocate_one now period d n times ≡ ok (left, times', us)
    → ((us ≡ []) × (left ≡ n))
      ⊎ ((us ≡ record { validator = d.validator; unbond_amount = current_unbond d n } ∷ [])
          × (left + current_unbond d n ≡ n))
unfolding allocate_one Uint128.sub
allocate_one-eq-ok now period d n left times times' us h = ground arith

round_sum :
    (d : Delegation) (ds : List Delegation) (n left left' : ℕ) (us more : List ValidatorUnbondInfo)
    → ((us ≡ []) × (left ≡ n))
      ⊎ ((us ≡ record { validator = d.validator; unbond_amount = current_unbond d n } ∷ [])
          × (left + current_unbond d n ≡ n))
    → (unbond_sum more + left' ≡ left) × Drawn ds more
    → (unbond_sum (us ++ more) + left' ≡ n) × Drawn (d ∷ ds) (us ++ more)
round_sum d ds n left left' us more (inl (nothing, same)) (sum, drawn) =
    subst (λ us. (unbond_sum (us ++ more) + left' ≡ n) × Drawn (d ∷ ds) (us ++ more)) (sym nothing)
      (omega (arith, sum, same), pass drawn)
round_sum d ds n left left' us more (inr (one, less)) (sum, drawn) =
    subst (λ us. (unbond_sum (us ++ more) + left' ≡ n) × Drawn (d ∷ ds) (us ++ more)) (sym one)
      (ground (arith, sum, less), draw _ refl (ground arith) drawn)

allocate_loop-eq-ok :
    (now period : ℕ) (ds : List Delegation) (n left : ℕ) (times times' : UnbondTimes)
    (us : List ValidatorUnbondInfo)
    → allocate_loop now period ds n times ≡ ok (left, times', us)
    → (unbond_sum us + left ≡ n) × Drawn ds us
unfolding allocate_loop
allocate_loop-eq-ok now period [] n left times times' us h =
    subst (λ us. (unbond_sum us + left ≡ n) × Drawn [] us) (ground arith) (ground arith, done)
allocate_loop-eq-ok now period (d ∷ ds) n left times times' us h = elim (Bool-cases (eqb n 0)) [
  | inl stop ↦
      subst (λ us. (unbond_sum us + left ≡ n) × Drawn (d ∷ ds) us) (ground (arith, stop))
        (ground (arith, stop), done)
  | inr go ↦ elim (Outcome-cases (allocate_one now period d n times)) [
    | inl ((left1, times1, us1), e1) ↦
        elim (Outcome-cases (allocate_loop now period ds left1 times1)) [
          | inl ((left2, times2, us2), e2) ↦
              subst (λ (us, left). (unbond_sum us + left ≡ n) × Drawn (d ∷ ds) us)
                {x = (us1 ++ us2, left2)} {y = (us, left)} (ground arith)
                (round_sum d ds n left1 left2 us1 us2
                  (allocate_one-eq-ok now period d n left1 times times1 us1 e1)
                  (allocate_loop-eq-ok now period ds left1 left2 times1 times2 us2 e2))
          | inr (inl (_, e)) ↦ absurd (ground arith)
          | inr (inr e) ↦ absurd (ground arith)
        ]
    | inr (inl (_, e)) ↦ absurd (ground arith)
    | inr (inr e) ↦ absurd (ground arith)
  ]
]

-- The unbonding takes exactly the amount asked for, each entry from a delegation of its own and
-- within what is delegated there.
pub allocate_unbond_amount-sum :
    (now period n : ℕ) (ds : List Delegation) (times times' : UnbondTimes)
    (us : List ValidatorUnbondInfo)
    → allocate_unbond_amount now ds n period times ≡ ok (times', us)
    → (unbond_sum us ≡ n) × Drawn (sort_by_amount ds) us
unfolding allocate_unbond_amount
allocate_unbond_amount-sum now period n ds times times' us h =
    elim (Outcome-cases (allocate_loop now period (sort_by_amount ds) n times)) [
      | inl ((left1, times1, us1), e1) ↦
          let loop =
            allocate_loop-eq-ok now period (sort_by_amount ds) n left1 times times1 us1 e1 in
          subst (λ us. (unbond_sum us ≡ n) × Drawn (sort_by_amount ds) us) (ground arith)
            (ground (arith, loop.0), loop.1)
      | inr (inl (_, e)) ↦ absurd (ground arith)
      | inr (inr e) ↦ absurd (ground arith)
    ]
