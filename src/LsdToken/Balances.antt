-- ===== src/LsdToken/Balances.antt =====
-- The calls of contracts/lsd_token/src/contract.rs on balances, supply and minters.
use neutron_contracts.Base.{
  Map, Outcome, String, contains, fail_if, ltb, may_load, nat_eq, not, ok, ok_or, or_zero, pair_eq,
  push, retain, save, some, string_eq, ℕ, ◌-◌, ◌==◌, ◌>>=◌, ◌>>◌,
}
use neutron_contracts.Base.Uint128
use neutron_contracts.LsdToken.State.{
  ContractError, Cw20, Token, cannot_exceed_cap, get_cap, invalid_address, not_found, over_cap,
  overflow, std, unauthorized, validate,
}

-- `balance.unwrap_or_default().checked_sub(amount)?`
unfoldable pub sub_balance : String → ℕ → Map String ℕ → Outcome ContractError (Map String ℕ)
sub_balance a amount m = do
  fail_if (ltb (or_zero (may_load a m)) amount) (std overflow)
  ok (save a (or_zero (may_load a m) - amount) m)

-- `balance.unwrap_or_default() + amount`
unfoldable pub add_balance : String → ℕ → Map String ℕ → Outcome ContractError (Map String ℕ)
add_balance a amount m = do v ← Uint128.add (or_zero (may_load a m)) amount; ok (save a v m)

unfoldable pub move : String → String → ℕ → Map String ℕ → Outcome ContractError (Map String ℕ)
unfolding sub_balance add_balance
move source target amount m = do m' ← sub_balance source amount m; add_balance target amount m'

unfoldable pub execute_transfer :
    (cw : Cw20) → (sender recipient : String) → ℕ → Token cw → Outcome ContractError (Token cw)
unfolding move
execute_transfer cw sender recipient amount t = do
  target ← validate cw recipient
  m ← move sender target amount t.balances
  ok (record t { balances = m })

-- `Cw20ReceiveMsg`, and the contract that receives it.
pub record Cw20ReceiveMsg : Type 0 where
  pub contract : String
  pub sender : String
  pub amount : ℕ
  pub msg : String

unfoldable pub execute_send :
    (cw : Cw20)
    → (sender contract : String) → ℕ
    → String
    → Token cw
    → Outcome ContractError (Token cw × Cw20ReceiveMsg)
unfolding move
execute_send cw sender contract amount msg t = do
  target ← validate cw contract
  m ← move sender target amount t.balances
  ok (
    record t { balances = m },
    record { contract = contract; sender = sender; amount = amount; msg = msg },
  )

-- The supply less the amount.
unfoldable pub reduce_supply : {cw : Cw20} → ℕ → Token cw → Outcome ContractError (Token cw)
reduce_supply amount t = do
  info ← ok_or t.token_info (std not_found)
  fail_if (ltb info.total_supply amount) (std overflow)
  ok (record t { token_info = some (record info { total_supply = info.total_supply - amount }) })

unfoldable pub execute_burn : {cw : Cw20} → String → ℕ → Token cw → Outcome ContractError (Token cw)
unfolding sub_balance reduce_supply
execute_burn sender amount t = do
  m ← sub_balance sender amount t.balances
  reduce_supply amount (record t { balances = m })

unfoldable pub execute_mint :
    (cw : Cw20) → (sender recipient : String) → ℕ → Token cw → Outcome ContractError (Token cw)
unfolding add_balance
execute_mint cw sender recipient amount t = do
  config ← ok_or t.token_info unauthorized
  minting ← ok_or config.mint unauthorized
  fail_if (not (contains minting.minters sender)) unauthorized
  supply ← Uint128.add config.total_supply amount
  fail_if (over_cap (get_cap config) supply) cannot_exceed_cap
  target ← validate cw recipient
  m ← add_balance target amount t.balances
  ok (record t { token_info = some (record config { total_supply = supply }); balances = m })

unfoldable pub execute_add_minter :
    (cw : Cw20) → (sender new_minter : String) → Token cw → Outcome ContractError (Token cw)
execute_add_minter cw sender new_minter t = do
  config ← ok_or t.token_info unauthorized
  minting ← ok_or config.mint unauthorized
  fail_if (not (minting.admin == sender)) unauthorized
  added ← ok_or (cw.addr_validate new_minter) invalid_address
  ok (record t {
    token_info =
        some
          (record config { mint = some (record minting { minters = push minting.minters added }) });
  })

unfoldable pub execute_remove_minter :
    {cw : Cw20} → (sender remove_minter : String) → Token cw → Outcome ContractError (Token cw)
execute_remove_minter sender remove_minter t = do
  config ← ok_or t.token_info unauthorized
  minting ← ok_or config.mint unauthorized
  fail_if (not (minting.admin == sender)) unauthorized
  ok (record t {
    token_info = some (record config {
      mint =
          some
            (record minting { minters = retain (λ m. not (m == remove_minter)) minting.minters });
    });
  })

unfoldable pub execute_transfer_admin :
    (cw : Cw20) → (sender new_admin : String) → Token cw → Outcome ContractError (Token cw)
execute_transfer_admin cw sender new_admin t = do
  config ← ok_or t.token_info unauthorized
  minting ← ok_or config.mint unauthorized
  fail_if (not (minting.admin == sender)) unauthorized
  admin ← ok_or (cw.addr_validate new_admin) invalid_address
  ok (record t {
    token_info = some (record config { mint = some (record minting { admin = admin }) });
  })
