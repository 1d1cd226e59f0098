-- ===== src/LsdToken/Allowances.antt =====
-- contracts/lsd_token/src/allowances.rs.
use neutron_contracts.Base.Uint128
use neutron_contracts.Base.{
  Option, Outcome, String, err, fail_if, if◌then◌else◌, ltb, may_load, nat_eq, none, ok, ok_or,
  pair_eq, remove, save, some, string_eq, ℕ, ◌-◌, ◌==◌, ◌>>=◌, ◌>>◌,
}
use neutron_contracts.LsdToken.State.{
  Allowance, Block, ContractError, Cw20, Token, cannot_set_own_account, expired, invalid_expiration,
  no_allowance, not_found, overflow, std, validate,
}
use neutron_contracts.LsdToken.Balances.{Cw20ReceiveMsg, move, reduce_supply, sub_balance}

abbrev pub no_allowance_yet : (cw : Cw20) → Option (Allowance cw) → Allowance cw
no_allowance_yet cw none = record { allowance = 0; expires = cw.never }
no_allowance_yet cw (some a) = a

-- The new expiration, which may not be over, or the one of before.
unfoldable pub set_expires :
    (cw : Cw20) → Block → Option cw.Expiration → Allowance cw → Outcome ContractError (Allowance cw)
set_expires cw block none a = ok a
set_expires cw block (some e) a = do
  fail_if (cw.is_expired block.height block.nanos e) invalid_expiration
  ok (record a { expires = e })

unfoldable pub increase_one :
    (cw : Cw20)
    → Block
    → Option cw.Expiration
    → ℕ
    → Option (Allowance cw)
    → Outcome ContractError (Allowance cw)
unfolding set_expires
increase_one cw block expires amount o = do
  a ← set_expires cw block expires (no_allowance_yet cw o)
  total ← Uint128.add a.allowance amount
  ok (record a { allowance = total })

unfoldable pub execute_increase_allowance :
    (cw : Cw20)
    → Block
    → (sender spender : String) → ℕ
    → Option cw.Expiration
    → Token cw
    → Outcome ContractError (Token cw)
unfolding increase_one
execute_increase_allowance cw block sender spender amount expires t = do
  to ← validate cw spender
  fail_if (to == sender) cannot_set_own_account
  a ← increase_one cw block expires amount (may_load (sender, to) t.allowances)
  b ← increase_one cw block expires amount (may_load (to, sender) t.allowances_spender)
  ok (record t {
    allowances = save (sender, to) a t.allowances;
    allowances_spender = save (to, sender) b t.allowances_spender;
  })

unfoldable pub execute_decrease_allowance :
    (cw : Cw20)
    → Block
    → (sender spender : String) → ℕ
    → Option cw.Expiration
    → Token cw
    → Outcome ContractError (Token cw)
unfolding set_expires
execute_decrease_allowance cw block sender spender amount expires t = do
  to ← validate cw spender
  fail_if (to == sender) cannot_set_own_account
  a ← ok_or (may_load (sender, to) t.allowances) (std not_found)
  let reduced = (do
    b ← set_expires cw block expires (record a { allowance = a.allowance - amount })
    ok (record t {
      allowances = save (sender, to) b t.allowances;
      allowances_spender = save (to, sender) b t.allowances_spender;
    }))
  if ltb amount a.allowance
      then reduced
      else ok (record t {
        allowances = remove (sender, to) t.allowances;
        allowances_spender = remove (to, sender) t.allowances_spender;
      })

-- `deduct_allowance`'s update of one of the two maps.
unfoldable pub deduct_one :
    (cw : Cw20) → Block → ℕ → Option (Allowance cw) → Outcome ContractError (Allowance cw)
deduct_one cw block amount none = err no_allowance
deduct_one cw block amount (some a) = do
  fail_if (cw.is_expired block.height block.nanos a.expires) expired
  fail_if (ltb a.allowance amount) (std overflow)
  ok (record a { allowance = a.allowance - amount })

unfoldable pub deduct_allowance :
    (cw : Cw20) → (owner spender : String) → Block → ℕ → Token cw → Outcome ContractError (Token cw)
unfolding deduct_one
deduct_allowance cw owner spender block amount t = do
  a ← deduct_one cw block amount (may_load (owner, spender) t.allowances)
  b ← deduct_one cw block amount (may_load (spender, owner) t.allowances_spender)
  ok (record t {
    allowances = save (owner, spender) a t.allowances;
    allowances_spender = save (spender, owner) b t.allowances_spender;
  })

unfoldable pub execute_transfer_from :
    (cw : Cw20)
    → Block
    → (sender owner recipient : String) → ℕ
    → Token cw
    → Outcome ContractError (Token cw)
unfolding deduct_allowance move
execute_transfer_from cw block sender owner recipient amount t = do
  target ← validate cw recipient
  source ← validate cw owner
  t' ← deduct_allowance cw source sender block amount t
  m ← move source target amount t'.balances
  ok (record t' { balances = m })

unfoldable pub execute_burn_from :
    (cw : Cw20) → Block → (sender owner : String) → ℕ → Token cw → Outcome ContractError (Token cw)
unfolding deduct_allowance sub_balance reduce_supply
execute_burn_from cw block sender owner amount t = do
  source ← validate cw owner
  t' ← deduct_allowance cw source sender block amount t
  m ← sub_balance source amount t'.balances
  reduce_supply amount (record t' { balances = m })

unfoldable pub execute_send_from :
    (cw : Cw20)
    → Block
    → (sender owner contract : String) → ℕ
    → String
    → Token cw
    → Outcome ContractError (Token cw × Cw20ReceiveMsg)
unfolding deduct_allowance move
execute_send_from cw block sender owner contract amount msg t = do
  target ← validate cw contract
  source ← validate cw owner
  t' ← deduct_allowance cw source sender block amount t
  m ← move source target amount t'.balances
  ok (
    record t' { balances = m },
    record { contract = contract; sender = sender; amount = amount; msg = msg },
  )
