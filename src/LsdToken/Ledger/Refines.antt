-- ===== src/LsdToken/Ledger/Refines.antt =====
-- The token implements its ledger.
use neutron_contracts.Base.{
  Option, String, ap, arith, inl, inr, nat_eq, ok, pair_eq, string_eq, ℕ, ◌≡◌, ◌⊎◌,
}
use neutron_contracts.LsdToken.Ledger.{Step, balance_in, ledger_of, stays, supply_of}
use neutron_contracts.LsdToken.Ledger.Calls.{
  execute_burn-Step, execute_burn_from-Step, execute_mint-Step, execute_send-Step,
  execute_send_from-Step, execute_transfer-Step, execute_transfer_from-Step, rights_of, sender_of,
}
use neutron_contracts.LsdToken.Marketing.Apart.{
  Apart, execute_update_marketing-Apart, execute_upload_logo-Apart,
}
use neutron_contracts.LsdToken.State.{Block, Cw20, Token}
use neutron_contracts.LsdToken.Balances.{
  execute_add_minter, execute_remove_minter, execute_transfer_admin,
}
use neutron_contracts.LsdToken.Allowances.{execute_decrease_allowance, execute_increase_allowance}
use neutron_contracts.LsdToken.Supply.{Call}

module _ (cw : Cw20) where
  allowances-Step :
      (block : Block) (sender spender : String) (amount : ℕ) (expires : Option cw.Expiration)
      (t t' : Token cw)
      → (execute_increase_allowance cw block sender spender amount expires t ≡ ok t')
        ⊎ (execute_decrease_allowance cw block sender spender amount expires t ≡ ok t')
      → Step sender (rights_of t sender) (ledger_of t) (ledger_of t')
  unfolding execute_increase_allowance execute_decrease_allowance
  allowances-Step block sender spender amount expires t t' (inl h) =
      stays (λ x. ap (λ m. balance_in m x) (ground arith)) (ground arith)
  allowances-Step block sender spender amount expires t t' (inr h) =
      stays (λ x. ap (λ m. balance_in m x) (ground arith)) (ground arith)

  minters-Step :
      (sender who : String) (t t' : Token cw)
      → (execute_add_minter cw sender who t ≡ ok t')
        ⊎ ((execute_remove_minter sender who t ≡ ok t')
            ⊎ (execute_transfer_admin cw sender who t ≡ ok t'))
      → Step sender (rights_of t sender) (ledger_of t) (ledger_of t')
  unfolding execute_add_minter execute_remove_minter execute_transfer_admin
  minters-Step sender who t t' (inl h) =
      stays (λ x. ap (λ m. balance_in m x) (ground arith)) (ground arith)
  minters-Step sender who t t' (inr (inl h)) =
      stays (λ x. ap (λ m. balance_in m x) (ground arith)) (ground arith)
  minters-Step sender who t t' (inr (inr h)) =
      stays (λ x. ap (λ m. balance_in m x) (ground arith)) (ground arith)

  marketing-Step :
      (sender : String) (t t' : Token cw)
      → Apart t t'
      → Step sender (rights_of t sender) (ledger_of t) (ledger_of t')
  marketing-Step sender t t' apart =
      stays (λ x. ap (λ m. balance_in m x) apart.balances) (ap supply_of apart.info)

  -- Every call that succeeds is one step of the ledger: balances and supply stay, or an amount
  -- moves from one account to another, or is burned or minted with the supply. What leaves an
  -- account is within its balance, and the account is the sender's or has allowed the sender as
  -- much; only a minter mints.
  pub Call-Step :
      (t t' : Token cw) (call : Call cw t t')
      → Step (sender_of call) (rights_of t (sender_of call)) (ledger_of t) (ledger_of t')
  Call-Step t t' (Call.transfer sender recipient amount h) =
      execute_transfer-Step cw sender recipient amount t t' _ h
  Call-Step t t' (Call.send sender contract amount msg r h) =
      execute_send-Step cw sender contract amount msg t t' r _ h
  Call-Step t t' (Call.burn sender amount h) = execute_burn-Step cw sender amount t t' _ h
  Call-Step t t' (Call.mints sender recipient amount h) =
      execute_mint-Step cw sender recipient amount t t' h
  Call-Step t t' (Call.transfer_from block sender owner recipient amount h) =
      execute_transfer_from-Step cw block sender owner recipient amount t t' h
  Call-Step t t' (Call.send_from block sender owner contract amount msg r h) =
      execute_send_from-Step cw block sender owner contract amount msg t t' r h
  Call-Step t t' (Call.burn_from block sender owner amount h) =
      execute_burn_from-Step cw block sender owner amount t t' h
  Call-Step t t' (Call.increase_allowance block sender spender amount expires h) =
      allowances-Step block sender spender amount expires t t' (inl h)
  Call-Step t t' (Call.decrease_allowance block sender spender amount expires h) =
      allowances-Step block sender spender amount expires t t' (inr h)
  Call-Step t t' (Call.add_minter sender new_minter h) = minters-Step sender new_minter t t' (inl h)
  Call-Step t t' (Call.remove_minter sender gone h) = minters-Step sender gone t t' (inr (inl h))
  Call-Step t t' (Call.transfer_admin sender new_admin h) =
      minters-Step sender new_admin t t' (inr (inr h))
  Call-Step t t' (Call.update_marketing sender project description marketing h) =
      marketing-Step sender t t'
        (execute_update_marketing-Apart cw sender project description marketing t t' h)
  Call-Step t t' (Call.upload_logo sender logo h) =
      marketing-Step sender t t' (execute_upload_logo-Apart cw sender logo t t' h)
