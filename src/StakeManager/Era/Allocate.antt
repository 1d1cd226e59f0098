-- ===== src/StakeManager/Era/Allocate.antt =====
-- `allocate_unbond_amount` of contracts/stake_manager/src/execute_era_bond.rs: which delegations
-- are undelegated, largest first, leaving out a validator with seven unbondings under way.
pub mod Sum
pub mod Order
use neutron_contracts.Base.{
  Bool, List, Map, Option, Outcome, String, [], eqb, fail_if, false, if◌then◌else◌, leb, length,
  ltb, may_load, nat_eq, none, not, ok, pair_eq, save, some, string_eq, ℕ, ◌++◌, ◌>>=◌, ◌>>◌, ◌∷◌,
}
use neutron_contracts.Base.Uint128
use neutron_contracts.Base.U64
use neutron_contracts.StakeManager.Types.{
  Delegation, coin_eq, era_status_eq, validator_update_status_eq,
}
use neutron_contracts.StakeManager.Errors.{ContractError, validator_for_unbond_not_enough}

pub record ValidatorUnbondInfo : Type 0 where
  pub validator : String
  pub unbond_amount : ℕ

-- (pool, validator) ↦ times of the unbondings under way
abbrev pub UnbondTimes : Type 0
UnbondTimes = Map (String × String) (List ℕ)

-- A stable sort by falling amount, as `sort_by(|a, b| b.amount.amount.cmp(&a.amount.amount))`.
unfoldable pub insert_by_amount : Delegation → List Delegation → List Delegation
insert_by_amount d [] = d ∷ []
insert_by_amount d (e ∷ ds) =
    if ltb d.amount.amount e.amount.amount then e ∷ insert_by_amount d ds else d ∷ e ∷ ds

unfoldable pub sort_by_amount : List Delegation → List Delegation
unfolding insert_by_amount
sort_by_amount [] = []
sort_by_amount (d ∷ ds) = insert_by_amount d (sort_by_amount ds)

abbrev pub unbond_key : Delegation → String × String
unbond_key d = (d.delegator, d.validator)

-- Drops the oldest time if it is over, and tells whether the validator is skipped.
unfoldable pub clear_times :
    String × String
    → Option (List ℕ)
    → ℕ
    → ℕ
    → UnbondTimes
    → Outcome ContractError (UnbondTimes × Bool)
clear_times key none now period times = ok (times, false)
clear_times key (some []) now period times = ok (times, false)
clear_times key (some (oldest ∷ rest)) now period times = do
  over ← U64.add oldest period
  if ltb over now
      then ok (save key rest times, leb 7 (length rest))
      else ok (times, leb 7 (length (oldest ∷ rest)))

-- What one delegation gives towards the amount that remains.
abbrev pub current_unbond : Delegation → ℕ → ℕ
current_unbond d remaining = if ltb d.amount.amount remaining then d.amount.amount else remaining

-- One round of the loop: the amount that remains, the times, and what the round adds.
unfoldable pub allocate_one :
    ℕ
    → ℕ
    → Delegation
    → ℕ
    → UnbondTimes
    → Outcome ContractError (ℕ × UnbondTimes × List ValidatorUnbondInfo)
unfolding clear_times
allocate_one now period d remaining times = do
  (times', skip) ← clear_times (unbond_key d) (may_load (unbond_key d) times) now period times
  if skip then ok (remaining, times', []) else (do
    left ← Uint128.sub remaining (current_unbond d remaining)
    ok (
      left,
      times',
      record { validator = d.validator; unbond_amount = current_unbond d remaining } ∷ [],
    ))

unfoldable pub allocate_loop :
    ℕ
    → ℕ
    → List Delegation
    → ℕ
    → UnbondTimes
    → Outcome ContractError (ℕ × UnbondTimes × List ValidatorUnbondInfo)
allocate_loop now period [] remaining times = ok (remaining, times, [])
allocate_loop now period (d ∷ ds) remaining times =
    let round = (do
      (left, times', infos) ← allocate_one now period d remaining times
      (left', times'', more) ← allocate_loop now period ds left times'
      ok (left', times'', infos ++ more)) in
    if eqb remaining 0 then ok (remaining, times, []) else round

unfoldable pub allocate_unbond_amount :
    ℕ
    → List Delegation
    → ℕ
    → ℕ
    → UnbondTimes
    → Outcome ContractError (UnbondTimes × List ValidatorUnbondInfo)
allocate_unbond_amount now delegations unbond_amount period times = do
  (remaining, times', infos) ←
      allocate_loop now period (sort_by_amount delegations) unbond_amount times
  fail_if (not (eqb remaining 0)) validator_for_unbond_not_enough
  ok (times', infos)
