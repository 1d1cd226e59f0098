-- ===== src/LsdToken/Mirror/Calls.antt =====
-- The calls of the token, and the two maps of allowances.
use neutron_contracts.LsdToken.Marketing.Apart.{
  Apart, execute_update_marketing-Apart, execute_upload_logo-Apart,
}
use neutron_contracts.Base.{
  String, after, arith, inl, inr, nat_eq, ok, pair_eq, string_eq, ℕ, ◌∙◌, ◌≡◌, ◌⊎◌,
}
use neutron_contracts.LsdToken.State.{Block, Cw20, Token, validate}
use neutron_contracts.LsdToken.Balances.{
  Cw20ReceiveMsg, execute_add_minter, execute_burn, execute_mint, execute_remove_minter,
  execute_send, execute_transfer, execute_transfer_admin, reduce_supply, sub_balance,
}
use neutron_contracts.LsdToken.Allowances.{
  deduct_allowance, execute_burn_from, execute_send_from, execute_transfer_from,
}
use neutron_contracts.LsdToken.Supply.{Call, Calls, no_call, one_more}
use neutron_contracts.LsdToken.Mirror.{
  IsMirrored, Touched, Touched-IsMirrored, deduct_allowance-Touched,
  execute_decrease_allowance-Touched, execute_increase_allowance-Touched, kept, removed, set_to,
}

-- Two calls, of which the second leaves the allowances.
Touched-kept :
    {cw : Cw20} (t t' t'' : Token cw)
    → Touched t t'
    → t''.allowances ≡ t'.allowances
    → t''.allowances_spender ≡ t'.allowances_spender
    → Touched t t''
Touched-kept t t' t'' (kept a b) e f = kept (e ∙ a) (f ∙ b)
Touched-kept t t' t'' (set_to o s a b same x y) e f = set_to o s a b same (e ∙ x) (f ∙ y)
Touched-kept t t' t'' (removed o s x y) e f = removed o s (e ∙ x) (f ∙ y)

reduce_supply-Touched :
    {cw : Cw20} (amount : ℕ) (t t' : Token cw)
    → reduce_supply amount t ≡ ok t'
    → (t'.allowances ≡ t.allowances) × (t'.allowances_spender ≡ t.allowances_spender)
unfolding reduce_supply
reduce_supply-Touched amount t t' h = (ground arith, ground arith)

Apart-Touched : {cw : Cw20} (t t' : Token cw) → Apart t t' → Touched t t'
Apart-Touched t t' apart = kept apart.by_owner apart.by_spender

module _ (cw : Cw20) where
  execute_transfer-Touched :
      (sender recipient : String) (amount : ℕ) (t t' : Token cw)
      → execute_transfer cw sender recipient amount t ≡ ok t'
      → Touched t t'
  unfolding execute_transfer
  execute_transfer-Touched sender recipient amount t t' h = kept (ground arith) (ground arith)

  execute_send-Touched :
      (sender contract : String) (amount : ℕ) (msg : String) (t t' : Token cw) (r : Cw20ReceiveMsg)
      → execute_send cw sender contract amount msg t ≡ ok (t', r)
      → Touched t t'
  unfolding execute_send
  execute_send-Touched sender contract amount msg t t' r h = kept (ground arith) (ground arith)

  execute_burn-Touched :
      (sender : String) (amount : ℕ) (t t' : Token cw)
      → execute_burn sender amount t ≡ ok t'
      → Touched t t'
  unfolding execute_burn
  execute_burn-Touched sender amount t t' h =
      after (sub_balance sender amount t.balances) h (λ m e1 h1.
        let (a, b) = reduce_supply-Touched amount (record t { balances = m }) t' h1 in kept a b)

  execute_mint-Touched :
      (sender recipient : String) (amount : ℕ) (t t' : Token cw)
      → execute_mint cw sender recipient amount t ≡ ok t'
      → Touched t t'
  unfolding execute_mint
  execute_mint-Touched sender recipient amount t t' h = kept (ground arith) (ground arith)

  minters-Touched :
      (sender who : String) (t t' : Token cw)
      → (execute_add_minter cw sender who t ≡ ok t')
        ⊎ ((execute_remove_minter sender who t ≡ ok t')
            ⊎ (execute_transfer_admin cw sender who t ≡ ok t'))
      → Touched t t'
  unfolding execute_add_minter execute_remove_minter execute_transfer_admin
  minters-Touched sender who t t' (inl h) = kept (ground arith) (ground arith)
  minters-Touched sender who t t' (inr (inl h)) = kept (ground arith) (ground arith)
  minters-Touched sender who t t' (inr (inr h)) = kept (ground arith) (ground arith)

  execute_transfer_from-Touched :
      (block : Block) (sender owner recipient : String) (amount : ℕ) (t t' : Token cw)
      → execute_transfer_from cw block sender owner recipient amount t ≡ ok t'
      → Touched t t'
  unfolding execute_transfer_from
  execute_transfer_from-Touched block sender owner recipient amount t t' h =
      after (validate cw recipient) h (λ target e1 h1. after (validate cw owner) h1 (λ source e2 h2.
        after (deduct_allowance cw source sender block amount t) h2 (λ u e3 h3.
          Touched-kept t u t' (deduct_allowance-Touched cw source sender block amount t u e3)
            (ground arith) (ground arith))))

  execute_send_from-Touched :
      (block : Block) (sender owner contract : String) (amount : ℕ) (msg : String) (t t' : Token cw)
      (r : Cw20ReceiveMsg)
      → execute_send_from cw block sender owner contract amount msg t ≡ ok (t', r)
      → Touched t t'
  unfolding execute_send_from
  execute_send_from-Touched block sender owner contract amount msg t t' r h =
      after (validate cw contract) h (λ target e1 h1. after (validate cw owner) h1 (λ source e2 h2.
        after (deduct_allowance cw source sender block amount t) h2 (λ u e3 h3.
          Touched-kept t u t' (deduct_allowance-Touched cw source sender block amount t u e3)
            (ground arith) (ground arith))))

  execute_burn_from-Touched :
      (block : Block) (sender owner : String) (amount : ℕ) (t t' : Token cw)
      → execute_burn_from cw block sender owner amount t ≡ ok t'
      → Touched t t'
  unfolding execute_burn_from
  execute_burn_from-Touched block sender owner amount t t' h =
      after (validate cw owner) h (λ source e2 h2.
        after (deduct_allowance cw source sender block amount t) h2 (λ u e3 h3.
          after (sub_balance source amount u.balances) h3 (λ m e4 h4.
            let (a, b) = reduce_supply-Touched amount (record u { balances = m }) t' h4 in
            Touched-kept t u t' (deduct_allowance-Touched cw source sender block amount t u e3) a
              b)))

  Call-Touched : (t t' : Token cw) → Call cw t t' → Touched t t'
  Call-Touched t t' (Call.transfer sender recipient amount h) =
      execute_transfer-Touched sender recipient amount t t' h
  Call-Touched t t' (Call.send sender contract amount msg r h) =
      execute_send-Touched sender contract amount msg t t' r h
  Call-Touched t t' (Call.burn sender amount h) = execute_burn-Touched sender amount t t' h
  Call-Touched t t' (Call.mints sender recipient amount h) =
      execute_mint-Touched sender recipient amount t t' h
  Call-Touched t t' (Call.transfer_from block sender owner recipient amount h) =
      execute_transfer_from-Touched block sender owner recipient amount t t' h
  Call-Touched t t' (Call.send_from block sender owner contract amount msg r h) =
      execute_send_from-Touched block sender owner contract amount msg t t' r h
  Call-Touched t t' (Call.burn_from block sender owner amount h) =
      execute_burn_from-Touched block sender owner amount t t' h
  Call-Touched t t' (Call.increase_allowance block sender spender amount expires h) =
      execute_increase_allowance-Touched cw block sender spender amount expires t t' h
  Call-Touched t t' (Call.decrease_allowance block sender spender amount expires h) =
      execute_decrease_allowance-Touched cw block sender spender amount expires t t' h
  Call-Touched t t' (Call.add_minter sender new_minter h) =
      minters-Touched sender new_minter t t' (inl h)
  Call-Touched t t' (Call.remove_minter sender gone h) =
      minters-Touched sender gone t t' (inr (inl h))
  Call-Touched t t' (Call.transfer_admin sender new_admin h) =
      minters-Touched sender new_admin t t' (inr (inr h))
  Call-Touched t t' (Call.update_marketing sender project description marketing h) =
      Apart-Touched t t'
        (execute_update_marketing-Apart cw sender project description marketing t t' h)
  Call-Touched t t' (Call.upload_logo sender logo h) =
      Apart-Touched t t' (execute_upload_logo-Apart cw sender logo t t' h)

-- If the allowances by owner and those by spender are the same, they are so after any calls that
-- succeed.
pub Calls-IsMirrored : (cw : Cw20) (t t' : Token cw) → Calls cw t t' → IsMirrored t → IsMirrored t'
Calls-IsMirrored cw t t' no_call mirrored = mirrored
Calls-IsMirrored cw t t' (one_more {t' = u} calls call) mirrored =
    Touched-IsMirrored u t' (Call-Touched cw u t' call) (Calls-IsMirrored cw t u calls mirrored)
