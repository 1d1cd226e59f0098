-- ===== src/LsdToken/Ledger/Calls.antt =====
-- The calls that move, burn and mint, as steps of the ledger.
use neutron_contracts.Base.{
  Bool, Map, Option, Outcome, String, after, ap, arith, contains, fail_if, false, inl, inr,
  may_load, nat_eq, none, not, ok, ok_injective, ok_or, pair_eq, refl, some, string_eq, subst, sym,
  true, ℕ, ◌+◌, ◌∙◌, ◌≡◌, ◌≤◌, ◌⊎◌,
}
use neutron_contracts.LsdToken.State.{
  Allowance, Block, ContractError, Cw20, MinterData, Token, TokenInfo, cannot_exceed_cap, get_cap,
  not_found, over_cap, std, unauthorized, validate,
}
use neutron_contracts.LsdToken.Ledger.{
  Rights, Step, balance_in, balance_in-add_balance, balance_in-move, balance_in-sub_balance, burns,
  ledger_of, mints, moves, only, supply_of,
}
use neutron_contracts.Base.Uint128
use neutron_contracts.LsdToken.Balances.{
  Cw20ReceiveMsg, add_balance, execute_burn, execute_mint, execute_send, execute_transfer, move,
  reduce_supply, sub_balance,
}
use neutron_contracts.LsdToken.Allowances.{
  deduct_allowance, deduct_one, execute_burn_from, execute_send_from, execute_transfer_from,
}
use neutron_contracts.LsdToken.Supply.{Call}

-- Who makes a call.
abbrev pub sender_of : {cw : Cw20} {t t' : Token cw} → Call cw t t' → String
sender_of (Call.transfer sender recipient amount h) = sender
sender_of (Call.send sender contract amount msg r h) = sender
sender_of (Call.burn sender amount h) = sender
sender_of (Call.mints sender recipient amount h) = sender
sender_of (Call.transfer_from block sender owner recipient amount h) = sender
sender_of (Call.send_from block sender owner contract amount msg r h) = sender
sender_of (Call.burn_from block sender owner amount h) = sender
sender_of (Call.increase_allowance block sender spender amount expires h) = sender
sender_of (Call.decrease_allowance block sender spender amount expires h) = sender
sender_of (Call.add_minter sender new_minter h) = sender
sender_of (Call.remove_minter sender gone h) = sender
sender_of (Call.transfer_admin sender new_admin h) = sender
sender_of (Call.update_marketing sender project description marketing h) = sender
sender_of (Call.upload_logo sender logo h) = sender

abbrev pub amount_of : {cw : Cw20} → Option (Allowance cw) → ℕ
amount_of none = 0
amount_of (some a) = a.allowance

-- What the sender may spend of an account.
abbrev pub allowed_to : {cw : Cw20} → Token cw → String → String → ℕ
allowed_to t sender owner = amount_of (may_load (owner, sender) t.allowances)

abbrev is_minter_of : Option MinterData → String → Bool
is_minter_of none a = false
is_minter_of (some minting) a = contains minting.minters a

-- Whether an account may mint.
abbrev pub is_minter : Option TokenInfo → String → Bool
is_minter none a = false
is_minter (some info) a = is_minter_of info.mint a

abbrev pub rights_of : {cw : Cw20} → Token cw → String → Rights
rights_of t sender = record {
  allowed = allowed_to t sender;
  minter = is_minter t.token_info sender;
}

is_minter-eq-ok :
    (o : Option TokenInfo) (config : TokenInfo) (minting : MinterData) (a : String)
    → ◌≡◌ {A = Outcome ContractError TokenInfo} (ok_or o unauthorized) (ok config)
    → ◌≡◌ {A = Outcome ContractError MinterData} (ok_or config.mint unauthorized) (ok minting)
    → contains minting.minters a ≡ true
    → is_minter o a ≡ true
is_minter-eq-ok none config minting a h k e = absurd cc
is_minter-eq-ok (some i) config minting a h k e = ground (arith, ok_injective h)

deduct_one-eq-ok :
    (cw : Cw20) (block : Block) (amount : ℕ) (o : Option (Allowance cw)) (a : Allowance cw)
    → deduct_one cw block amount o ≡ ok a
    → amount ≤ amount_of o
unfolding deduct_one
deduct_one-eq-ok cw block amount none a h = ground arith
deduct_one-eq-ok cw block amount (some b) a h = ground arith

deduct_allowance-eq-ok :
    (cw : Cw20) (owner spender : String) (block : Block) (amount : ℕ) (t u : Token cw)
    → deduct_allowance cw owner spender block amount t ≡ ok u
    → (amount ≤ allowed_to t spender owner)
      × (u.balances ≡ t.balances)
      × (u.token_info ≡ t.token_info)
unfolding deduct_allowance
deduct_allowance-eq-ok cw owner spender block amount t u h =
    after (deduct_one cw block amount (may_load (owner, spender) t.allowances)) h
      (λ a e1 h1. (deduct_one-eq-ok cw block amount _ a e1, ground arith, ground arith))

reduce_supply-eq-ok :
    {cw : Cw20} (amount : ℕ) (t t' : Token cw)
    → reduce_supply amount t ≡ ok t'
    → (t'.balances ≡ t.balances) × (supply_of t'.token_info + amount ≡ supply_of t.token_info)
unfolding reduce_supply
reduce_supply-eq-ok amount t t' h =
    after (ok_or t.token_info (std not_found)) h (λ info e1 h1. (ground arith, ground arith))

supply_of-eq-ok :
    (o : Option TokenInfo) (config : TokenInfo)
    → ◌≡◌ {A = Outcome ContractError TokenInfo} (ok_or o unauthorized) (ok config)
    → supply_of o ≡ config.total_supply
supply_of-eq-ok none config h = absurd cc
supply_of-eq-ok (some i) config h = ap (λ (c : TokenInfo). c.total_supply) (ok_injective h)

-- A transfer within the balances.
moved :
    {cw : Cw20} (sender : String) (rights : Rights) (t u : Token cw) (a b : String) (amount : ℕ)
    (m : Map String ℕ)
    → (a ≡ sender) ⊎ (amount ≤ rights.allowed a)
    → u.balances ≡ t.balances
    → u.token_info ≡ t.token_info
    → move a b amount u.balances ≡ ok m
    → Step sender rights (ledger_of t) (ledger_of (record u { balances = m }))
moved sender rights t u a b amount m may same info h =
    let (enough, steps) =
      balance_in-move a b amount t.balances m (ap (move a b amount) (sym same) ∙ h) in
    moves a b amount may enough steps (ap supply_of info)

burned :
    {cw : Cw20} (sender : String) (rights : Rights) (t u t' : Token cw) (a : String) (amount : ℕ)
    (m : Map String ℕ)
    → (a ≡ sender) ⊎ (amount ≤ rights.allowed a)
    → u.balances ≡ t.balances
    → u.token_info ≡ t.token_info
    → sub_balance a amount u.balances ≡ ok m
    → reduce_supply amount (record u { balances = m }) ≡ ok t'
    → Step sender rights (ledger_of t) (ledger_of t')
burned sender rights t u t' a amount m may same info h k =
    let (enough, less) =
      balance_in-sub_balance a amount t.balances m (ap (sub_balance a amount) (sym same) ∙ h) in
    let (kept, supply) = reduce_supply-eq-ok amount (record u { balances = m }) t' k in
    burns a amount may (λ x. ap (λ n. balance_in n x + only a amount x) kept ∙ less x)
      (supply ∙ ap supply_of info)

module _ (cw : Cw20) where
  pub execute_transfer-Step :
      (sender recipient : String) (amount : ℕ) (t t' : Token cw) (rights : Rights)
      → execute_transfer cw sender recipient amount t ≡ ok t'
      → Step sender rights (ledger_of t) (ledger_of t')
  unfolding execute_transfer
  execute_transfer-Step sender recipient amount t t' rights h =
      after (validate cw recipient) h (λ to e1 h1.
        after (move sender to amount t.balances) h1 (λ m e2 h2.
          subst (λ w. Step sender rights (ledger_of t) (ledger_of w)) (ok_injective h2)
            (moved sender rights t t sender to amount m (inl refl) refl refl e2)))

  pub execute_send-Step :
      (sender contract : String) (amount : ℕ) (msg : String) (t t' : Token cw) (r : Cw20ReceiveMsg)
      (rights : Rights)
      → execute_send cw sender contract amount msg t ≡ ok (t', r)
      → Step sender rights (ledger_of t) (ledger_of t')
  unfolding execute_send
  execute_send-Step sender contract amount msg t t' r rights h =
      after (validate cw contract) h (λ to e1 h1.
        after (move sender to amount t.balances) h1 (λ m e2 h2.
          subst
            (λ (w : Token cw × Cw20ReceiveMsg). Step sender rights (ledger_of t) (ledger_of w.0))
            (ok_injective h2) (moved sender rights t t sender to amount m (inl refl) refl refl e2)))

  pub execute_burn-Step :
      (sender : String) (amount : ℕ) (t t' : Token cw) (rights : Rights)
      → execute_burn sender amount t ≡ ok t'
      → Step sender rights (ledger_of t) (ledger_of t')
  unfolding execute_burn
  execute_burn-Step sender amount t t' rights h =
      after (sub_balance sender amount t.balances) h
        (λ m e1 h1. burned sender rights t t t' sender amount m (inl refl) refl refl e1 h1)

  pub execute_mint-Step :
      (sender recipient : String) (amount : ℕ) (t t' : Token cw)
      → execute_mint cw sender recipient amount t ≡ ok t'
      → Step sender (rights_of t sender) (ledger_of t) (ledger_of t')
  unfolding execute_mint
  execute_mint-Step sender recipient amount t t' h =
      after (ok_or t.token_info unauthorized) h (λ config e1 h1.
        after (ok_or config.mint unauthorized) h1 (λ minting e2 h2.
          after (fail_if (not (contains minting.minters sender)) unauthorized) h2 (λ _ e3 h3.
            after (Uint128.add config.total_supply amount) h3 (λ supply e4 h4.
              after (fail_if (over_cap (get_cap config) supply) cannot_exceed_cap) h4 (λ _ e5 h5.
                after (validate cw recipient) h5 (λ to e6 h6.
                  after (add_balance to amount t.balances) h6 (λ m e7 h7.
                    subst (λ w. Step sender (rights_of t sender) (ledger_of t) (ledger_of w))
                      (ok_injective h7)
                      (mints to amount
                        (is_minter-eq-ok t.token_info config minting sender e1 e2
                          (ground (arith, e3)))
                        (balance_in-add_balance to amount t.balances m e7)
                        (omega (
                          arith,
                          supply_of-eq-ok t.token_info config e1,
                          (Uint128.add-eq-ok config.total_supply amount e4).0,
                        ))))))))))

  pub execute_transfer_from-Step :
      (block : Block) (sender owner recipient : String) (amount : ℕ) (t t' : Token cw)
      → execute_transfer_from cw block sender owner recipient amount t ≡ ok t'
      → Step sender (rights_of t sender) (ledger_of t) (ledger_of t')
  unfolding execute_transfer_from
  execute_transfer_from-Step block sender owner recipient amount t t' h =
      after (validate cw recipient) h (λ to e1 h1. after (validate cw owner) h1 (λ from e2 h2.
        after (deduct_allowance cw from sender block amount t) h2 (λ u e3 h3.
          after (move from to amount u.balances) h3 (λ m e4 h4.
            let (may, same, info) = deduct_allowance-eq-ok cw from sender block amount t u e3 in
            subst (λ w. Step sender (rights_of t sender) (ledger_of t) (ledger_of w))
              (ok_injective h4)
              (moved sender (rights_of t sender) t u from to amount m (inr may) same info e4)))))

  pub execute_send_from-Step :
      (block : Block) (sender owner contract : String) (amount : ℕ) (msg : String) (t t' : Token cw)
      (r : Cw20ReceiveMsg)
      → execute_send_from cw block sender owner contract amount msg t ≡ ok (t', r)
      → Step sender (rights_of t sender) (ledger_of t) (ledger_of t')
  unfolding execute_send_from
  execute_send_from-Step block sender owner contract amount msg t t' r h =
      after (validate cw contract) h (λ to e1 h1. after (validate cw owner) h1 (λ from e2 h2.
        after (deduct_allowance cw from sender block amount t) h2 (λ u e3 h3.
          after (move from to amount u.balances) h3 (λ m e4 h4.
            let (may, same, info) = deduct_allowance-eq-ok cw from sender block amount t u e3 in
            subst
              (λ (w : Token cw × Cw20ReceiveMsg).
                Step sender (rights_of t sender) (ledger_of t) (ledger_of w.0))
              (ok_injective h4)
              (moved sender (rights_of t sender) t u from to amount m (inr may) same info e4)))))

  pub execute_burn_from-Step :
      (block : Block) (sender owner : String) (amount : ℕ) (t t' : Token cw)
      → execute_burn_from cw block sender owner amount t ≡ ok t'
      → Step sender (rights_of t sender) (ledger_of t) (ledger_of t')
  unfolding execute_burn_from
  execute_burn_from-Step block sender owner amount t t' h =
      after (validate cw owner) h (λ from e2 h2.
        after (deduct_allowance cw from sender block amount t) h2 (λ u e3 h3.
          after (sub_balance from amount u.balances) h3 (λ m e4 h4.
            let (may, same, info) = deduct_allowance-eq-ok cw from sender block amount t u e3 in
            burned sender (rights_of t sender) t u t' from amount m (inr may) same info e4 h4)))
