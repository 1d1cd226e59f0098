-- ===== src/LsdToken/Books.antt =====
-- What the calls on balances, allowances and minters do to the sum of the balances and the supply.
use neutron_contracts.Base.{
  Map, Option, Option-cases, String, after, ap, arith, contains, fail_if, inl, inr, may_load,
  nat_eq, not, ok, ok_or, or_zero, pair_eq, push, refl, retain, some, some_injective, string_eq,
  sum_values, sum_values-save, sym, ℕ, ◌+◌, ◌-◌, ◌==◌, ◌∙◌, ◌≡◌,
}
use neutron_contracts.Base.Uint128
use neutron_contracts.LsdToken.State.{
  Block, Cw20, Token, TokenInfo, cannot_exceed_cap, get_cap, invalid_address, over_cap,
  unauthorized, validate,
}
use neutron_contracts.LsdToken.Balances.{
  Cw20ReceiveMsg, add_balance, execute_add_minter, execute_burn, execute_mint,
  execute_remove_minter, execute_send, execute_transfer, execute_transfer_admin, move,
  reduce_supply, sub_balance,
}
use neutron_contracts.LsdToken.Allowances.{
  deduct_allowance, execute_burn_from, execute_decrease_allowance, execute_increase_allowance,
  execute_send_from, execute_transfer_from,
}

-- The sum of all balances is the supply that is recorded.
abbrev pub IsBacked : {cw : Cw20} → Token cw → Type 0
IsBacked t =
    (info : TokenInfo) → t.token_info ≡ some info → sum_values t.balances ≡ info.total_supply

sum-sub_balance :
    (a : String) (amount : ℕ) (m m' : Map String ℕ)
    → sub_balance a amount m ≡ ok m'
    → sum_values m' + amount ≡ sum_values m
unfolding sub_balance
sum-sub_balance a amount m m' h =
    ground (arith, sum_values-save a (or_zero (may_load a m) - amount) m)

sum-add_balance :
    (a : String) (amount : ℕ) (m m' : Map String ℕ)
    → add_balance a amount m ≡ ok m'
    → sum_values m' ≡ sum_values m + amount
unfolding add_balance Uint128.add
sum-add_balance a amount m m' h =
    ground (arith, sum_values-save a (or_zero (may_load a m) + amount) m)

sum-move :
    (a b : String) (amount : ℕ) (m m' : Map String ℕ)
    → move a b amount m ≡ ok m'
    → sum_values m' ≡ sum_values m
unfolding move
sum-move a b amount m m' h =
    after (sub_balance a amount m) h (λ m1 e1 h1.
      omega (arith, sum-sub_balance a amount m m1 e1, sum-add_balance b amount m1 m' h1))

-- What a call has done to the sum of the balances and to the supply.
pub data Books {cw : Cw20} (t t' : Token cw) : Type 0 where
  kept : t'.token_info ≡ t.token_info → sum_values t'.balances ≡ sum_values t.balances → Books t t'
  moved :
      (i i' : TokenInfo)
      → t.token_info ≡ some i
      → t'.token_info ≡ some i'
      → sum_values t'.balances + i.total_supply ≡ sum_values t.balances + i'.total_supply
      → Books t t'

pub Books-IsBacked : {cw : Cw20} (t t' : Token cw) → Books t t' → IsBacked t → IsBacked t'
Books-IsBacked t t' (kept a b) backed = λ info e. b ∙ backed info (sym a ∙ e)
Books-IsBacked t t' (moved i i' a b c) backed = λ info e.
    let same = ap (λ (x : TokenInfo). x.total_supply) (some_injective (sym b ∙ e)) in
    omega (arith, c, backed i a, same)

deduct_allowance-Books :
    (cw : Cw20) (owner spender : String) (block : Block) (amount : ℕ) (t t' : Token cw)
    → deduct_allowance cw owner spender block amount t ≡ ok t'
    → (t'.token_info ≡ t.token_info) × (t'.balances ≡ t.balances)
unfolding deduct_allowance
deduct_allowance-Books cw owner spender block amount t t' h = (ground arith, ground arith)

reduce_supply-eq-ok :
    {cw : Cw20} (amount : ℕ) (t t' : Token cw)
    → reduce_supply amount t ≡ ok t'
    → (i : TokenInfo) × (i' : TokenInfo) × (t.token_info ≡ some i)
      × (t'.token_info ≡ some i')
      × (i'.total_supply + amount ≡ i.total_supply)
      × (t'.balances ≡ t.balances)
unfolding reduce_supply
reduce_supply-eq-ok amount t t' h = elim (Option-cases t.token_info) [
  | inl e ↦ absurd (ground arith)
  | inr (i, e) ↦ (
    i,
    record i { total_supply = i.total_supply - amount },
    e,
    ground arith,
    ground arith,
    ground arith,
  )
]

pub execute_transfer-Books :
    (cw : Cw20) (sender recipient : String) (amount : ℕ) (t t' : Token cw)
    → execute_transfer cw sender recipient amount t ≡ ok t'
    → Books t t'
unfolding execute_transfer
execute_transfer-Books cw sender recipient amount t t' h =
    after (validate cw recipient) h (λ target e1 h1.
      after (move sender target amount t.balances) h1 (λ m e2 h2.
        kept (ground arith) (ground (arith, sum-move sender target amount t.balances m e2))))

pub execute_send-Books :
    (cw : Cw20) (sender contract : String) (amount : ℕ) (msg : String) (t t' : Token cw)
    (r : Cw20ReceiveMsg)
    → execute_send cw sender contract amount msg t ≡ ok (t', r)
    → Books t t'
unfolding execute_send
execute_send-Books cw sender contract amount msg t t' r h =
    after (validate cw contract) h (λ target e1 h1.
      after (move sender target amount t.balances) h1 (λ m e2 h2.
        kept (ground arith) (ground (arith, sum-move sender target amount t.balances m e2))))

burned-Books :
    {cw : Cw20} (source : String) (amount : ℕ) (t t' : Token cw) (m : Map String ℕ)
    → sub_balance source amount t.balances ≡ ok m
    → reduce_supply amount (record t { balances = m }) ≡ ok t'
    → Books t t'
burned-Books source amount t t' m e h =
    let (i, i', a, b, c, d) = reduce_supply-eq-ok amount (record t { balances = m }) t' h in
    moved i i' a b (omega (arith, c, ap sum_values d, sum-sub_balance source amount t.balances m e))

pub execute_burn-Books :
    {cw : Cw20} (sender : String) (amount : ℕ) (t t' : Token cw)
    → execute_burn sender amount t ≡ ok t'
    → Books t t'
unfolding execute_burn
execute_burn-Books sender amount t t' h =
    after (sub_balance sender amount t.balances) h
      (λ m e1 h1. burned-Books sender amount t t' m e1 h1)

pub execute_mint-Books :
    (cw : Cw20) (sender recipient : String) (amount : ℕ) (t t' : Token cw)
    → execute_mint cw sender recipient amount t ≡ ok t'
    → Books t t'
unfolding execute_mint Uint128.add
execute_mint-Books cw sender recipient amount t t' h =
    after (ok_or t.token_info unauthorized) h (λ i e1 h1.
      after (ok_or i.mint unauthorized) h1 (λ minting e2 h2.
        after (fail_if (not (contains minting.minters sender)) unauthorized) h2 (λ _ e3 h3.
          after (Uint128.add i.total_supply amount) h3 (λ supply e4 h4.
            after (fail_if (over_cap (get_cap i) supply) cannot_exceed_cap) h4 (λ _ e5 h5.
              after (validate cw recipient) h5 (λ target e6 h6.
                after (add_balance target amount t.balances) h6 (λ m e7 h7.
                  moved i (record i { total_supply = supply }) (ground arith) (ground arith)
                    (ground (arith, sum-add_balance target amount t.balances m e7)))))))))

-- A call that changes neither the supply nor a balance.
same_supply-Books :
    {cw : Cw20} (t t' : Token cw) (i i' : TokenInfo)
    → t.token_info ≡ some i
    → t'.token_info ≡ some i'
    → i'.total_supply ≡ i.total_supply
    → t'.balances ≡ t.balances
    → Books t t'
same_supply-Books t t' i i' a b c d = moved i i' a b (omega (arith, c, ap sum_values d))

pub execute_add_minter-Books :
    (cw : Cw20) (sender new_minter : String) (t t' : Token cw)
    → execute_add_minter cw sender new_minter t ≡ ok t'
    → Books t t'
unfolding execute_add_minter
execute_add_minter-Books cw sender new_minter t t' h =
    after (ok_or t.token_info unauthorized) h (λ i e1 h1.
      after (ok_or i.mint unauthorized) h1 (λ minting e2 h2.
        after (fail_if (not (minting.admin == sender)) unauthorized) h2 (λ _ e3 h3.
          after (ok_or (cw.addr_validate new_minter) invalid_address) h3 (λ added e4 h4.
            same_supply-Books t t' i
              (record i { mint = some (record minting { minters = push minting.minters added }) })
              (ground arith) (ground arith) refl (ground arith)))))

pub execute_remove_minter-Books :
    {cw : Cw20} (sender removed : String) (t t' : Token cw)
    → execute_remove_minter sender removed t ≡ ok t'
    → Books t t'
unfolding execute_remove_minter
execute_remove_minter-Books sender removed t t' h =
    after (ok_or t.token_info unauthorized) h (λ i e1 h1.
      after (ok_or i.mint unauthorized) h1 (λ minting e2 h2.
        after (fail_if (not (minting.admin == sender)) unauthorized) h2 (λ _ e3 h3.
          same_supply-Books t t' i
            (record i {
              mint =
                  some
                    (record minting { minters = retain (λ m. not (m == removed)) minting.minters });
            })
            (ground arith) (ground arith) refl (ground arith))))

pub execute_transfer_admin-Books :
    (cw : Cw20) (sender new_admin : String) (t t' : Token cw)
    → execute_transfer_admin cw sender new_admin t ≡ ok t'
    → Books t t'
unfolding execute_transfer_admin
execute_transfer_admin-Books cw sender new_admin t t' h =
    after (ok_or t.token_info unauthorized) h (λ i e1 h1.
      after (ok_or i.mint unauthorized) h1 (λ minting e2 h2.
        after (fail_if (not (minting.admin == sender)) unauthorized) h2 (λ _ e3 h3.
          after (ok_or (cw.addr_validate new_admin) invalid_address) h3 (λ admin e4 h4.
            same_supply-Books t t' i (record i { mint = some (record minting { admin = admin }) })
              (ground arith) (ground arith) refl (ground arith)))))

pub execute_transfer_from-Books :
    (cw : Cw20) (block : Block) (sender owner recipient : String) (amount : ℕ) (t t' : Token cw)
    → execute_transfer_from cw block sender owner recipient amount t ≡ ok t'
    → Books t t'
unfolding execute_transfer_from
execute_transfer_from-Books cw block sender owner recipient amount t t' h =
    after (validate cw recipient) h (λ target e1 h1. after (validate cw owner) h1 (λ source e2 h2.
      after (deduct_allowance cw source sender block amount t) h2 (λ t1 e3 h3.
        let same = deduct_allowance-Books cw source sender block amount t t1 e3 in
        after (move source target amount t1.balances) h3 (λ m e4 h4.
          kept (ground (arith, same.0)) (
            ground
              (arith, ap sum_values same.1, sum-move source target amount t1.balances m e4))))))

pub execute_send_from-Books :
    (cw : Cw20) (block : Block) (sender owner contract : String) (amount : ℕ) (msg : String)
    (t t' : Token cw) (r : Cw20ReceiveMsg)
    → execute_send_from cw block sender owner contract amount msg t ≡ ok (t', r)
    → Books t t'
unfolding execute_send_from
execute_send_from-Books cw block sender owner contract amount msg t t' r h =
    after (validate cw contract) h (λ target e1 h1. after (validate cw owner) h1 (λ source e2 h2.
      after (deduct_allowance cw source sender block amount t) h2 (λ t1 e3 h3.
        let same = deduct_allowance-Books cw source sender block amount t t1 e3 in
        after (move source target amount t1.balances) h3 (λ m e4 h4.
          kept (ground (arith, same.0)) (
            ground
              (arith, ap sum_values same.1, sum-move source target amount t1.balances m e4))))))

pub execute_burn_from-Books :
    (cw : Cw20) (block : Block) (sender owner : String) (amount : ℕ) (t t' : Token cw)
    → execute_burn_from cw block sender owner amount t ≡ ok t'
    → Books t t'
unfolding execute_burn_from
execute_burn_from-Books cw block sender owner amount t t' h =
    after (validate cw owner) h (λ source e2 h2.
      after (deduct_allowance cw source sender block amount t) h2 (λ t1 e3 h3.
        let same = deduct_allowance-Books cw source sender block amount t t1 e3 in
        after (sub_balance source amount t1.balances) h3 (λ m e4 h4.
          let (i, i', a, b, c, d) = reduce_supply-eq-ok amount (record t1 { balances = m }) t' h4 in
          moved i i' (sym same.0 ∙ a) b (
            omega (
              arith,
              c,
              ap sum_values d,
              ap sum_values same.1,
              sum-sub_balance source amount t1.balances m e4,
            )))))

pub execute_increase_allowance-Books :
    (cw : Cw20) (block : Block) (sender spender : String) (amount : ℕ)
    (expires : Option cw.Expiration) (t t' : Token cw)
    → execute_increase_allowance cw block sender spender amount expires t ≡ ok t'
    → Books t t'
unfolding execute_increase_allowance
execute_increase_allowance-Books cw block sender spender amount expires t t' h =
    kept (ground arith) (ap sum_values (ground arith))

pub execute_decrease_allowance-Books :
    (cw : Cw20) (block : Block) (sender spender : String) (amount : ℕ)
    (expires : Option cw.Expiration) (t t' : Token cw)
    → execute_decrease_allowance cw block sender spender amount expires t ≡ ok t'
    → Books t t'
unfolding execute_decrease_allowance
execute_decrease_allowance-Books cw block sender spender amount expires t t' h =
    kept (ground arith) (ap sum_values (ground arith))
