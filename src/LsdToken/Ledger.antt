-- ===== src/LsdToken/Ledger.antt =====
-- The token as a ledger of accounts (contracts/lsd_token): who has how much, and the supply.
pub mod Calls
pub mod Refines
use neutron_contracts.Base.{
  ==_iff, Bool, Bool-cases, Map, Option, String, after, ap, arith, fail_if, if◌then◌else◌, inl, inr,
  ltb, may_load, may_load-save, nat_eq, none, ok, ok_injective, or_zero, pair_eq, some, string_eq,
  true, ℕ, ◌+◌, ◌-◌, ◌==◌, ◌>>=◌, ◌>>◌, ◌≡◌, ◌≤◌, ◌⊎◌,
}
use neutron_contracts.Base.Uint128
use neutron_contracts.LsdToken.State.{Cw20, Token, TokenInfo, overflow, std}
use neutron_contracts.LsdToken.Balances.{add_balance, move, sub_balance}

-- A ledger forgets how balances and allowances are stored.
pub record Ledger : Type 0 where
  pub balance : String → ℕ
  pub supply : ℕ

abbrev pub supply_of : Option TokenInfo → ℕ
supply_of none = 0
supply_of (some info) = info.total_supply

abbrev pub balance_in : Map String ℕ → String → ℕ
balance_in m a = or_zero (may_load a m)

abbrev pub ledger_of : {cw : Cw20} → Token cw → Ledger
ledger_of t = record { balance = balance_in t.balances; supply = supply_of t.token_info }

-- The amount at one account, and nothing at the others.
abbrev pub only : String → ℕ → String → ℕ
only a amount x = if a == x then amount else 0

-- What a sender may do: spend of an account up to an amount, and mint.
pub record Rights : Type 0 where
  pub allowed : String → ℕ
  pub minter : Bool

-- One step of a ledger, by a sender with these rights.
pub data Step (sender : String) (rights : Rights) (l l' : Ledger) : Type 0 where
  stays :
      ((x : String) → l'.balance x ≡ l.balance x) → l'.supply ≡ l.supply → Step sender rights l l'
  moves :
      (a b : String) (amount : ℕ)
      → (a ≡ sender) ⊎ (amount ≤ rights.allowed a)
      → amount ≤ l.balance a
      → ((x : String) → l'.balance x + only a amount x ≡ l.balance x + only b amount x)
      → l'.supply ≡ l.supply
      → Step sender rights l l'
  burns :
      (a : String) (amount : ℕ)
      → (a ≡ sender) ⊎ (amount ≤ rights.allowed a)
      → ((x : String) → l'.balance x + only a amount x ≡ l.balance x)
      → l'.supply + amount ≡ l.supply
      → Step sender rights l l'
  mints :
      (b : String) (amount : ℕ)
      → rights.minter ≡ true
      → ((x : String) → l'.balance x ≡ l.balance x + only b amount x)
      → l'.supply ≡ l.supply + amount
      → Step sender rights l l'

pub balance_in-sub_balance :
    (a : String) (amount : ℕ) (m m' : Map String ℕ)
    → sub_balance a amount m ≡ ok m'
    → (amount ≤ balance_in m a)
      × ((x : String) → balance_in m' x + only a amount x ≡ balance_in m x)
unfolding sub_balance
balance_in-sub_balance a amount m m' h =
    after (fail_if (ltb (balance_in m a) amount) (std overflow)) h (λ _ e1 h1. (
      ground (arith, e1),
      λ x. elim (Bool-cases (a == x)) [
        | inl here ↦ ground (
          arith,
          e1,
          here,
          (==_iff a x).0 here,
          ap (λ n. balance_in n x) (ok_injective h1),
          may_load-save x a (balance_in m a - amount) m,
          ap (balance_in m) ((==_iff a x).0 here),
        )
        | inr elsewhere ↦ ground (
          arith,
          elsewhere,
          ap (λ n. balance_in n x) (ok_injective h1),
          may_load-save x a (balance_in m a - amount) m,
        )
      ],
    ))

pub balance_in-add_balance :
    (b : String) (amount : ℕ) (m m' : Map String ℕ)
    → add_balance b amount m ≡ ok m'
    → (x : String) → balance_in m' x ≡ balance_in m x + only b amount x
unfolding add_balance
balance_in-add_balance b amount m m' h x = after (Uint128.add (balance_in m b) amount) h (λ v e1 h1.
    elim (Bool-cases (b == x)) [
      | inl here ↦ ground (
        arith,
        here,
        (Uint128.add-eq-ok (balance_in m b) amount e1).0,
        ap (λ n. balance_in n x) (ok_injective h1),
        may_load-save x b v m,
        ap (balance_in m) ((==_iff b x).0 here),
      )
      | inr elsewhere ↦
          ground
            (arith, elsewhere, ap (λ n. balance_in n x) (ok_injective h1), may_load-save x b v m)
    ])

pub balance_in-move :
    (a b : String) (amount : ℕ) (m m' : Map String ℕ)
    → move a b amount m ≡ ok m'
    → (amount ≤ balance_in m a)
      × ((x : String) → balance_in m' x + only a amount x ≡ balance_in m x + only b amount x)
unfolding move
balance_in-move a b amount m m' h = after (sub_balance a amount m) h (λ u e1 h1.
    let (enough, less) = balance_in-sub_balance a amount m u e1 in
    (enough, λ x. omega (arith, less x, balance_in-add_balance b amount u m' h1 x)))
