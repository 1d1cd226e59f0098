-- ===== src/LsdToken/Contract.antt =====
-- The entry point `execute` of contracts/lsd_token/src/contract.rs.
use neutron_contracts.Base.{
  Option, Outcome, String, nat_eq, none, ok, pair_eq, some, string_eq, ℕ, ◌>>=◌,
}
use neutron_contracts.LsdToken.State.{Block, ContractError, Cw20, Logo, Token}
use neutron_contracts.LsdToken.Balances.{
  Cw20ReceiveMsg, execute_add_minter, execute_burn, execute_mint, execute_remove_minter,
  execute_send, execute_transfer, execute_transfer_admin,
}
use neutron_contracts.LsdToken.Allowances.{
  execute_burn_from, execute_decrease_allowance, execute_increase_allowance, execute_send_from,
  execute_transfer_from,
}
use neutron_contracts.LsdToken.Marketing.{execute_update_marketing, execute_upload_logo}

pub data ExecuteMsg (cw : Cw20) : Type 0 where
  transfer : (recipient : String) (amount : ℕ) → ExecuteMsg cw
  burn : (amount : ℕ) → ExecuteMsg cw
  send : (contract : String) (amount : ℕ) (msg : String) → ExecuteMsg cw
  mint : (recipient : String) (amount : ℕ) → ExecuteMsg cw
  increase_allowance :
      (spender : String) (amount : ℕ) (expires : Option cw.Expiration) → ExecuteMsg cw
  decrease_allowance :
      (spender : String) (amount : ℕ) (expires : Option cw.Expiration) → ExecuteMsg cw
  transfer_from : (owner recipient : String) (amount : ℕ) → ExecuteMsg cw
  burn_from : (owner : String) (amount : ℕ) → ExecuteMsg cw
  send_from : (owner contract : String) (amount : ℕ) (msg : String) → ExecuteMsg cw
  update_marketing : (project description marketing : Option String) → ExecuteMsg cw
  upload_logo : (logo : Logo) → ExecuteMsg cw
  add_minter : (new_minter : String) → ExecuteMsg cw
  remove_minter : (gone : String) → ExecuteMsg cw
  transfer_admin : (new_admin : String) → ExecuteMsg cw

-- A call that sends no message.
abbrev pub silent :
    {cw : Cw20}
    → Outcome ContractError (Token cw)
    → Outcome ContractError (Token cw × Option Cw20ReceiveMsg)
silent m = do t ← m; ok (t, none)

abbrev pub sending :
    {cw : Cw20}
    → Outcome ContractError (Token cw × Cw20ReceiveMsg)
    → Outcome ContractError (Token cw × Option Cw20ReceiveMsg)
sending m = do (t, r) ← m; ok (t, some r)

unfoldable pub execute :
    (cw : Cw20)
    → Block
    → String
    → ExecuteMsg cw
    → Token cw
    → Outcome ContractError (Token cw × Option Cw20ReceiveMsg)
execute cw block sender (ExecuteMsg.transfer recipient amount) t =
    silent (execute_transfer cw sender recipient amount t)
execute cw block sender (ExecuteMsg.burn amount) t = silent (execute_burn sender amount t)
execute cw block sender (ExecuteMsg.send contract amount msg) t =
    sending (execute_send cw sender contract amount msg t)
execute cw block sender (ExecuteMsg.mint recipient amount) t =
    silent (execute_mint cw sender recipient amount t)
execute cw block sender (ExecuteMsg.increase_allowance spender amount expires) t =
    silent (execute_increase_allowance cw block sender spender amount expires t)
execute cw block sender (ExecuteMsg.decrease_allowance spender amount expires) t =
    silent (execute_decrease_allowance cw block sender spender amount expires t)
execute cw block sender (ExecuteMsg.transfer_from owner recipient amount) t =
    silent (execute_transfer_from cw block sender owner recipient amount t)
execute cw block sender (ExecuteMsg.burn_from owner amount) t =
    silent (execute_burn_from cw block sender owner amount t)
execute cw block sender (ExecuteMsg.send_from owner contract amount msg) t =
    sending (execute_send_from cw block sender owner contract amount msg t)
execute cw block sender (ExecuteMsg.update_marketing project description marketing) t =
    silent (execute_update_marketing cw sender project description marketing t)
execute cw block sender (ExecuteMsg.upload_logo logo) t = silent (execute_upload_logo sender logo t)
execute cw block sender (ExecuteMsg.add_minter new_minter) t =
    silent (execute_add_minter cw sender new_minter t)
execute cw block sender (ExecuteMsg.remove_minter gone) t =
    silent (execute_remove_minter sender gone t)
execute cw block sender (ExecuteMsg.transfer_admin new_admin) t =
    silent (execute_transfer_admin cw sender new_admin t)
