-- ===== src/LsdToken/Instantiate.antt =====
-- The instantiation and the migration of the token (contracts/lsd_token/src/contract.rs, msg.rs).
pub mod Sorted
pub mod Start
use Prim.Native.Char.{Char, code}
use neutron_contracts.Base.{
  Bool, List, Map, Option, Outcome, String, [], eqb, fail_if, false, if◌then◌else◌, leb, length,
  ltb, map, nat_eq, none, not, ok, pair_eq, save, some, string_eq, true, ℕ, ◌&&◌, ◌==◌, ◌>>=◌, ◌>>◌,
  ◌||◌, ◌∷◌,
}
use neutron_contracts.Base.Uint128
use neutron_contracts.Base.Text.Search.{byte_length}
use neutron_contracts.LsdToken.State.{
  Allowances, ContractError, Cw20, Logo, LogoInfo, MinterData, Token,
  duplicate_initial_balance_addresses, generic_err, over_cap, std, validate,
}
use neutron_contracts.LsdToken.Marketing.{logo_info_of, verify_logo}

pub record Cw20Coin : Type 0 where
  pub address : String
  pub amount : ℕ

pub record InstantiateMinterData : Type 0 where
  pub admin : String
  pub minter : String
  pub cap : Option ℕ

pub record InstantiateMarketingInfo : Type 0 where
  pub project : Option String
  pub description : Option String
  pub marketing : Option String
  pub logo : Option Logo

pub record InstantiateMsg : Type 0 where
  pub name : String
  pub symbol : String
  pub decimals : ℕ
  pub initial_balances : List Cw20Coin
  pub mint : Option InstantiateMinterData
  pub marketing : Option InstantiateMarketingInfo

unfoldable pub has_valid_name : String → Bool
has_valid_name name = leb 3 (byte_length name) && leb (byte_length name) 50

-- Letters and the dash; the bytes of any other character are none of theirs.
unfoldable pub has_symbol_bytes : String → Bool
has_symbol_bytes String.[] = true
has_symbol_bytes (String.◌∷◌ c s) =
    ((eqb (code c) 45 || leb 65 (code c) && leb (code c) 90) || leb 97 (code c) && leb (code c) 122)
    && has_symbol_bytes s

unfoldable pub has_valid_symbol : String → Bool
unfolding has_symbol_bytes
has_valid_symbol symbol =
    (leb 3 (byte_length symbol) && leb (byte_length symbol) 12) && has_symbol_bytes symbol

unfoldable pub check_msg : InstantiateMsg → Outcome ContractError (Unit {0})
unfolding has_valid_name has_valid_symbol
check_msg msg = do
  fail_if (not (has_valid_name msg.name)) (std generic_err)
  fail_if (not (has_valid_symbol msg.symbol)) (std generic_err)
  fail_if (ltb 18 msg.decimals) (std generic_err)

-- The order of texts by their bytes, which in UTF-8 is that by code points.
unfoldable pub text_leb : String → String → Bool
text_leb String.[] t = true
text_leb (String.◌∷◌ c s) String.[] = false
text_leb (String.◌∷◌ c s) (String.◌∷◌ d t) =
    ltb (code c) (code d) || eqb (code c) (code d) && text_leb s t

-- `addresses.sort()`
unfoldable pub insert_text : String → List String → List String
insert_text a [] = a ∷ []
insert_text a (b ∷ bs) =
    let rest = insert_text a bs in if text_leb a b then a ∷ b ∷ bs else b ∷ rest

unfoldable pub sort_texts : List String → List String
unfolding insert_text
sort_texts [] = []
sort_texts (a ∷ rest) = insert_text a (sort_texts rest)

-- `addresses.dedup()`: of equal neighbours the first one stays.
unfoldable pub dedup_after : String → List String → List String
dedup_after a [] = []
dedup_after a (b ∷ bs) = let rest = dedup_after b bs in if a == b then rest else b ∷ rest

unfoldable pub dedup : List String → List String
unfolding dedup_after
dedup [] = []
dedup (a ∷ rest) = a ∷ dedup_after a rest

unfoldable pub validate_accounts : List Cw20Coin → Outcome ContractError (Unit {0})
unfolding sort_texts dedup
validate_accounts accounts =
    let addresses = map (λ (c : Cw20Coin). c.address) accounts in
    fail_if (not (eqb (length (dedup (sort_texts addresses))) (length accounts)))
      duplicate_initial_balance_addresses

-- The loop over the accounts, with the total so far.
unfoldable pub save_accounts :
    Cw20 → List Cw20Coin → ℕ → Map String ℕ → Outcome ContractError (ℕ × Map String ℕ)
save_accounts cw [] total m = ok (total, m)
save_accounts cw (row ∷ rows) total m = do
  address ← validate cw row.address
  total' ← Uint128.add total row.amount
  save_accounts cw rows total' (save address row.amount m)

unfoldable pub create_accounts :
    Cw20 → List Cw20Coin → Map String ℕ → Outcome ContractError (ℕ × Map String ℕ)
unfolding validate_accounts save_accounts
create_accounts cw accounts m = do validate_accounts accounts; save_accounts cw accounts 0 m

abbrev pub cap_of : Option InstantiateMinterData → Option ℕ
cap_of none = none
cap_of (some m) = m.cap

unfoldable pub minter_data :
    Cw20 → Option InstantiateMinterData → Outcome ContractError (Option MinterData)
minter_data cw none = ok none
minter_data cw (some m) = do
  admin ← validate cw m.admin
  minter ← validate cw m.minter
  ok (some (record { admin = admin; minters = minter ∷ []; cap = m.cap }))

unfoldable pub check_logo : Option Logo → Outcome ContractError (Unit {0})
check_logo none = ok tt
check_logo (some logo) = verify_logo logo

abbrev pub info_of_logo : Option Logo → Option LogoInfo
info_of_logo none = none
info_of_logo (some logo) = some (logo_info_of logo)

unfoldable pub marketing_address : Cw20 → Option String → Outcome ContractError (Option String)
marketing_address cw none = ok none
marketing_address cw (some text) = do a ← validate cw text; ok (some a)

-- The token with its marketing data.
unfoldable pub with_marketing :
    {cw : Cw20} → Option InstantiateMarketingInfo → Token cw → Outcome ContractError (Token cw)
unfolding check_logo marketing_address
with_marketing none t = ok t
with_marketing {cw} (some m) t = do
  check_logo m.logo
  marketing ← marketing_address cw m.marketing
  ok (record t {
    logo = elim m.logo [ none ↦ t.logo | some logo ↦ some logo ];
    marketing_info = some (record {
      project = m.project;
      description = m.description;
      marketing = marketing;
      logo = info_of_logo m.logo;
    });
  })

unfoldable pub instantiate :
    (cw : Cw20) → InstantiateMsg → Token cw → Outcome ContractError (Token cw)
unfolding check_msg create_accounts minter_data with_marketing
instantiate cw msg t = do
  check_msg msg
  (total_supply, balances) ← create_accounts cw msg.initial_balances t.balances
  fail_if (over_cap (cap_of msg.mint) total_supply) (std generic_err)
  mint ← minter_data cw msg.mint
  with_marketing msg.marketing (record t {
    balances = balances;
    token_info = some (record {
      name = msg.name;
      symbol = msg.symbol;
      decimals = msg.decimals;
      total_supply = total_supply;
      mint = mint;
    });
  })

-- The loop of the migration. A key is stored once, so that the order does not matter.
unfoldable pub reverse_allowances : {cw : Cw20} → Allowances cw → Allowances cw → Allowances cw
reverse_allowances [] by_spender = by_spender
reverse_allowances ((key, allowance) ∷ rest) by_spender =
    save (key.1, key.0) allowance (reverse_allowances rest by_spender)

-- The migration; whether the stored version is before 0.14.0 comes from the package cw2.
unfoldable pub migrate :
    {cw : Cw20} → Outcome ContractError Bool → Token cw → Outcome ContractError (Token cw)
unfolding reverse_allowances
migrate before_0_14 t = do
  old ← before_0_14
  ok (
      if old
      then record t { allowances_spender = reverse_allowances t.allowances t.allowances_spender }
      else t)
