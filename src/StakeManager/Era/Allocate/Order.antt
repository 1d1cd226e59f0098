-- ===== src/StakeManager/Era/Allocate/Order.antt =====
-- The order in which an unbonding draws on the delegations (execute_era_bond.rs).
use mathlib.Core.List.{Permᴰ}
use mathlib.Core.List.Permᴰ
use neutron_contracts.Base.{
  All, Bool-cases, List, [], arith, inl, inr, ltb, nat_eq, pair_eq, refl, string_eq, ℕ, ◌∷◌, ◌≤◌,
}
use neutron_contracts.StakeManager.Types.{
  Delegation, coin_eq, era_status_eq, validator_update_status_eq,
}
use neutron_contracts.StakeManager.Era.Allocate.{insert_by_amount, sort_by_amount}

abbrev IsAtMost : ℕ → List Delegation → Type 0
IsAtMost n = All (λ d. d.amount.amount ≤ n)

-- No delegation is larger than one before it.
abbrev pub IsDescending : List Delegation → Type 0
IsDescending [] = Unit
IsDescending (d ∷ ds) = IsAtMost d.amount.amount ds × IsDescending ds

IsAtMost-weaken : (m n : ℕ) (ds : List Delegation) → m ≤ n → IsAtMost m ds → IsAtMost n ds
IsAtMost-weaken m n [] below all = tt
IsAtMost-weaken m n (d ∷ ds) below (here, all) =
    (omega (arith, below, here), IsAtMost-weaken m n ds below all)

insert_by_amount-IsAtMost :
    (n : ℕ) (d : Delegation) (ds : List Delegation)
    → d.amount.amount ≤ n
    → IsAtMost n ds
    → IsAtMost n (insert_by_amount d ds)
unfolding insert_by_amount
insert_by_amount-IsAtMost n d [] small all = (small, tt)
insert_by_amount-IsAtMost n d (e ∷ ds) small (here, all) =
    elim (Bool-cases (ltb d.amount.amount e.amount.amount)) [
      | inl later ↦ rw later (here, insert_by_amount-IsAtMost n d ds small all)
      | inr now ↦ rw now (small, (here, all))
    ]

insert_by_amount-IsDescending :
    (d : Delegation) (ds : List Delegation) → IsDescending ds → IsDescending (insert_by_amount d ds)
unfolding insert_by_amount
insert_by_amount-IsDescending d [] sorted = (tt, tt)
insert_by_amount-IsDescending d (e ∷ ds) (below, sorted) =
    elim (Bool-cases (ltb d.amount.amount e.amount.amount)) [
      | inl later ↦ rw later (
        insert_by_amount-IsAtMost e.amount.amount d ds (ground (arith, later)) below,
        insert_by_amount-IsDescending d ds sorted,
      )
      | inr now ↦
          let large : e.amount.amount ≤ d.amount.amount = ground (arith, now) in
          rw now (
            (large, IsAtMost-weaken e.amount.amount d.amount.amount ds large below),
            (below, sorted),
          )
    ]

insert_by_amount-Permᴰ :
    (d : Delegation) (ds : List Delegation) → Permᴰ (insert_by_amount d ds) (d ∷ ds)
unfolding insert_by_amount
insert_by_amount-Permᴰ d [] = Permᴰ.refl _
insert_by_amount-Permᴰ d (e ∷ ds) = elim (Bool-cases (ltb d.amount.amount e.amount.amount)) [
  | inl later ↦
      rw later (Permᴰ.trans (Permᴰ.cons refl (insert_by_amount-Permᴰ d ds)) (Permᴰ.swap refl refl))
  | inr now ↦ rw now (Permᴰ.refl _)
]

-- The order in which the delegations are drawn on has the same delegations, each as often, and none
-- after a smaller one.
pub sort_by_amount-IsDescending :
    (ds : List Delegation) → Permᴰ (sort_by_amount ds) ds × IsDescending (sort_by_amount ds)
unfolding sort_by_amount
sort_by_amount-IsDescending [] = (Permᴰ.nil, tt)
sort_by_amount-IsDescending (d ∷ ds) =
    let (same, sorted) = sort_by_amount-IsDescending ds in
    (
      Permᴰ.trans (insert_by_amount-Permᴰ d (sort_by_amount ds)) (Permᴰ.cons refl same),
      insert_by_amount-IsDescending d (sort_by_amount ds) sorted,
    )
