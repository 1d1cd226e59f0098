-- ===== src/LsdToken/State.antt =====
-- contracts/lsd_token/src/state.rs and error.rs. The published cw20 packages and the chain's check
-- of addresses are a parameter.
use neutron_contracts.Base.{
  Bool, List, Map, Option, Outcome, String, false, ltb, nat_eq, none, ok_or, pair_eq, some,
  string_eq, ℕ,
}

pub data StdError : Type 0 where
  not_found overflow invalid_input generic_err : StdError

pub data ContractError : Type 0 where
  std : StdError → ContractError
  unauthorized cannot_set_own_account expired no_allowance : ContractError
  cannot_exceed_cap invalid_expiration invalid_address : ContractError
  logo_too_big invalid_xml_preamble invalid_png_header : ContractError
  duplicate_initial_balance_addresses : ContractError

-- What the contract calls of cw20 and of the chain: the expiration of an allowance, and the
-- address that a text names, if it is valid.
pub record Cw20 : Type 1 where
  pub Expiration : Type 0
  pub never : Expiration
  pub is_expired : (height nanos : ℕ) → Expiration → Bool
  pub addr_validate : String → Option String

pub record Block : Type 0 where
  pub height : ℕ
  pub nanos : ℕ

pub record MinterData : Type 0 where
  pub admin : String
  pub minters : List String
  pub cap : Option ℕ

pub record TokenInfo : Type 0 where
  pub name : String
  pub symbol : String
  pub decimals : ℕ
  pub total_supply : ℕ
  pub mint : Option MinterData

pub record Allowance (cw : Cw20) : Type 0 where
  pub allowance : ℕ
  pub expires : cw.Expiration

abbrev pub Allowances : Cw20 → Type 0
Allowances cw = Map (String × String) (Allowance cw)

-- A logo as the cw20 package has it: a link, or the bytes of a picture.
pub data Logo : Type 0 where
  url : String → Logo
  svg png : List ℕ → Logo

pub data LogoInfo : Type 0 where
  url_info : String → LogoInfo
  embedded : LogoInfo

pub record MarketingInfo : Type 0 where
  pub project : Option String
  pub description : Option String
  pub marketing : Option String
  pub logo : Option LogoInfo

pub record Token (cw : Cw20) : Type 0 where
  pub token_info : Option TokenInfo
  pub balances : Map String ℕ
  pub allowances : Allowances cw
  pub allowances_spender : Allowances cw
  pub marketing_info : Option MarketingInfo
  pub logo : Option Logo

-- `deps.api.addr_validate(&text)?`
abbrev pub validate : Cw20 → String → Outcome ContractError String
validate cw text = ok_or (cw.addr_validate text) (std invalid_input)

-- `TokenInfo::get_cap`
abbrev pub get_cap : TokenInfo → Option ℕ
get_cap info = elim info.mint [ none ↦ none | some m ↦ m.cap ]

-- `amount > cap`, if there is a cap
abbrev pub over_cap : Option ℕ → ℕ → Bool
over_cap none amount = false
over_cap (some limit) amount = ltb limit amount
