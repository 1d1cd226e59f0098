-- ===== src/LsdToken/Supply.antt =====
-- The calls of the token, and the supply against the sum of the balances.
use neutron_contracts.Base.{Option, String, ap, nat_eq, ok, pair_eq, string_eq, sum_values, ℕ, ◌≡◌}
use neutron_contracts.LsdToken.State.{Block, Cw20, Logo, Token}
use neutron_contracts.LsdToken.Books.{
  Books, Books-IsBacked, IsBacked, execute_add_minter-Books, execute_burn-Books,
  execute_burn_from-Books, execute_decrease_allowance-Books, execute_increase_allowance-Books,
  execute_mint-Books, execute_remove_minter-Books, execute_send-Books, execute_send_from-Books,
  execute_transfer-Books, execute_transfer_admin-Books, execute_transfer_from-Books, kept,
}
use neutron_contracts.LsdToken.Marketing.{execute_update_marketing, execute_upload_logo}
use neutron_contracts.LsdToken.Marketing.Apart.{
  Apart, execute_update_marketing-Apart, execute_upload_logo-Apart,
}
use neutron_contracts.LsdToken.Balances.{
  Cw20ReceiveMsg, execute_add_minter, execute_burn, execute_mint, execute_remove_minter,
  execute_send, execute_transfer, execute_transfer_admin,
}
use neutron_contracts.LsdToken.Allowances.{
  execute_burn_from, execute_decrease_allowance, execute_increase_allowance, execute_send_from,
  execute_transfer_from,
}

-- One call that changes the token and succeeds.
pub data Call (cw : Cw20) : Token cw → Token cw → Type 0 where
  transfer :
      {t t' : Token cw} (sender recipient : String) (amount : ℕ)
      → execute_transfer cw sender recipient amount t ≡ ok t'
      → Call cw t t'
  send :
      {t t' : Token cw} (sender contract : String) (amount : ℕ) (msg : String) (r : Cw20ReceiveMsg)
      → execute_send cw sender contract amount msg t ≡ ok (t', r)
      → Call cw t t'
  burn :
      {t t' : Token cw} (sender : String) (amount : ℕ)
      → execute_burn sender amount t ≡ ok t'
      → Call cw t t'
  mints :
      {t t' : Token cw} (sender recipient : String) (amount : ℕ)
      → execute_mint cw sender recipient amount t ≡ ok t'
      → Call cw t t'
  transfer_from :
      {t t' : Token cw} (block : Block) (sender owner recipient : String) (amount : ℕ)
      → execute_transfer_from cw block sender owner recipient amount t ≡ ok t'
      → Call cw t t'
  send_from :
      {t t' : Token cw} (block : Block) (sender owner contract : String) (amount : ℕ) (msg : String)
      (r : Cw20ReceiveMsg)
      → execute_send_from cw block sender owner contract amount msg t ≡ ok (t', r)
      → Call cw t t'
  burn_from :
      {t t' : Token cw} (block : Block) (sender owner : String) (amount : ℕ)
      → execute_burn_from cw block sender owner amount t ≡ ok t'
      → Call cw t t'
  increase_allowance :
      {t t' : Token cw} (block : Block) (sender spender : String) (amount : ℕ)
      (expires : Option cw.Expiration)
      → execute_increase_allowance cw block sender spender amount expires t ≡ ok t'
      → Call cw t t'
  decrease_allowance :
      {t t' : Token cw} (block : Block) (sender spender : String) (amount : ℕ)
      (expires : Option cw.Expiration)
      → execute_decrease_allowance cw block sender spender amount expires t ≡ ok t'
      → Call cw t t'
  add_minter :
      {t t' : Token cw} (sender new_minter : String)
      → execute_add_minter cw sender new_minter t ≡ ok t'
      → Call cw t t'
  remove_minter :
      {t t' : Token cw} (sender removed : String)
      → execute_remove_minter sender removed t ≡ ok t'
      → Call cw t t'
  transfer_admin :
      {t t' : Token cw} (sender new_admin : String)
      → execute_transfer_admin cw sender new_admin t ≡ ok t'
      → Call cw t t'
  update_marketing :
      {t t' : Token cw} (sender : String) (project description marketing : Option String)
      → execute_update_marketing cw sender project description marketing t ≡ ok t'
      → Call cw t t'
  upload_logo :
      {t t' : Token cw} (sender : String) (logo : Logo)
      → execute_upload_logo sender logo t ≡ ok t'
      → Call cw t t'

-- Marketing data and logo have no part in the books.
Apart-Books : {cw : Cw20} (t t' : Token cw) → Apart t t' → Books t t'
Apart-Books t t' apart = kept apart.info (ap sum_values apart.balances)

Call-Books : (cw : Cw20) (t t' : Token cw) → Call cw t t' → Books t t'
Call-Books cw t t' (transfer sender recipient amount h) =
    execute_transfer-Books cw sender recipient amount t t' h
Call-Books cw t t' (send sender contract amount msg r h) =
    execute_send-Books cw sender contract amount msg t t' r h
Call-Books cw t t' (burn sender amount h) = execute_burn-Books sender amount t t' h
Call-Books cw t t' (mints sender recipient amount h) =
    execute_mint-Books cw sender recipient amount t t' h
Call-Books cw t t' (transfer_from block sender owner recipient amount h) =
    execute_transfer_from-Books cw block sender owner recipient amount t t' h
Call-Books cw t t' (send_from block sender owner contract amount msg r h) =
    execute_send_from-Books cw block sender owner contract amount msg t t' r h
Call-Books cw t t' (burn_from block sender owner amount h) =
    execute_burn_from-Books cw block sender owner amount t t' h
Call-Books cw t t' (increase_allowance block sender spender amount expires h) =
    execute_increase_allowance-Books cw block sender spender amount expires t t' h
Call-Books cw t t' (decrease_allowance block sender spender amount expires h) =
    execute_decrease_allowance-Books cw block sender spender amount expires t t' h
Call-Books cw t t' (add_minter sender new_minter h) =
    execute_add_minter-Books cw sender new_minter t t' h
Call-Books cw t t' (remove_minter sender removed h) =
    execute_remove_minter-Books sender removed t t' h
Call-Books cw t t' (transfer_admin sender new_admin h) =
    execute_transfer_admin-Books cw sender new_admin t t' h
Call-Books cw t t' (update_marketing sender project description marketing h) =
    Apart-Books t t' (execute_update_marketing-Apart cw sender project description marketing t t' h)
Call-Books cw t t' (upload_logo sender logo h) =
    Apart-Books t t' (execute_upload_logo-Apart cw sender logo t t' h)

pub data Calls (cw : Cw20) : Token cw → Token cw → Type 0 where
  no_call : {t : Token cw} → Calls cw t t
  one_more : {t t' t'' : Token cw} → Calls cw t t' → Call cw t' t'' → Calls cw t t''

-- If the supply that is recorded is the sum of all balances, it is so after any calls that succeed.
pub Calls-IsBacked : (cw : Cw20) (t t' : Token cw) → Calls cw t t' → IsBacked t → IsBacked t'
Calls-IsBacked cw t t' no_call backed = backed
Calls-IsBacked cw t t' (one_more {t' = u} calls call) backed =
    Books-IsBacked u t' (Call-Books cw u t' call) (Calls-IsBacked cw t u calls backed)
