-- ===== src/LsdToken/Tests.antt =====
-- A token, a burn and a mint of it.
use neutron_contracts.Base.{
  IsDistinct, List, String, [], ap, arith, contains, false, if◌then◌else◌, leb, may_load, nat_eq,
  none, ok, pair_eq, refl, save, some, some_injective, string_eq, sum_values, ℕ, ◌==◌, ◌↔◌, ◌∷◌,
  ◌≡◌,
}
use neutron_contracts.Base.Uint128
use neutron_contracts.LsdToken.State.{Allowance, Cw20, Token, TokenInfo, over_cap}
use neutron_contracts.LsdToken.Balances.{
  add_balance, execute_burn, execute_mint, move, reduce_supply, sub_balance,
}
use neutron_contracts.LsdToken.Allowances.{deduct_allowance, deduct_one, execute_transfer_from}
use neutron_contracts.LsdToken.Supply.{
  Call, Calls, Calls-IsBacked, burn, mints, no_call, one_more, transfer_from,
}
use neutron_contracts.LsdToken.Ledger.{Step, ledger_of}
use neutron_contracts.LsdToken.Ledger.Calls.{rights_of}
use neutron_contracts.LsdToken.Ledger.Refines.{Call-Step}
use neutron_contracts.LsdToken.Mirror.{IsMirrored}
use neutron_contracts.LsdToken.Mirror.Calls.{Calls-IsMirrored}
use neutron_contracts.LsdToken.Instantiate.{
  InstantiateMsg, check_msg, create_accounts, dedup, dedup_after, has_symbol_bytes, has_valid_name,
  has_valid_symbol, insert_text, instantiate, migrate, minter_data, reverse_allowances,
  save_accounts, sort_texts, text_leb, validate_accounts, with_marketing,
}
use neutron_contracts.LsdToken.Instantiate.Sorted.{validate_accounts-IsDistinct}
use neutron_contracts.LsdToken.Instantiate.Start.{instantiate-IsBacked, migrate-IsMirrored}
use neutron_contracts.Base.Text.Search.{byte_length}
use neutron_contracts.LsdToken.Books.{IsBacked}

-- Expirations at a height, and every text but the empty one is an address.
abbrev test_cw20 : Cw20
test_cw20 = record {
  Expiration = ℕ;
  never = 1000000;
  is_expired = λ height nanos e. leb e height;
  addr_validate = λ a. if a == "" then none else some a;
}

abbrev token_info_of : ℕ → TokenInfo
token_info_of supply = record {
  name = "share";
  symbol = "SHR";
  decimals = 6;
  total_supply = supply;
  mint = some (record { admin = "admin"; minters = "manager" ∷ []; cap = some 1000 });
}

abbrev token_with : ℕ → List (String × ℕ) → Token test_cw20
token_with supply balances = record {
  token_info = some (token_info_of supply);
  balances = balances;
  allowances = [];
  allowances_spender = [];
  marketing_info = none;
  logo = none;
}

abbrev first_token : Token test_cw20
first_token = token_with 70 (("alice", 40) ∷ ("bob", 30) ∷ [])

abbrev last_token : Token test_cw20
last_token = token_with 85 (("alice", 30) ∷ ("bob", 30) ∷ ("carol", 25) ∷ [])

first_token-IsBacked : IsBacked first_token
unfolding sum_values
first_token-IsBacked info e = ap (λ (i : TokenInfo). i.total_supply) (some_injective e)

two-Calls : Calls test_cw20 first_token last_token
unfolding execute_burn execute_mint sub_balance add_balance reduce_supply may_load save contains
    Uint128.add
two-Calls =
    one_more
      (one_more no_call
        (burn {t' = token_with 60 (("alice", 30) ∷ ("bob", 30) ∷ [])} "alice" 10 refl))
      (mints "manager" "carol" 25 refl)

Calls-IsBacked_example : IsBacked last_token
Calls-IsBacked_example =
    Calls-IsBacked test_cw20 first_token last_token two-Calls first_token-IsBacked

abbrev start_msg : InstantiateMsg
start_msg = record {
  name = "share";
  symbol = "SHR";
  decimals = 6;
  initial_balances =
      record { address = "bob"; amount = 30 } ∷ record { address = "alice"; amount = 40 } ∷ [];
  mint = some (record { admin = "admin"; minter = "manager"; cap = some 1000 });
  marketing = none;
}

abbrev empty_token : Token test_cw20
empty_token = record (token_with 0 []) { token_info = none }

abbrev started_token : Token test_cw20
started_token = token_with 70 (("bob", 30) ∷ ("alice", 40) ∷ [])

test_cw20_lem : (text a : String) → test_cw20.addr_validate text ≡ some a → a ≡ text
test_cw20_lem text a h = ground arith

instantiate-IsBacked_example :
    IsBacked started_token
    × ((info : TokenInfo)
        → started_token.token_info ≡ some info
        → over_cap (some 1000) info.total_supply ≡ false)
unfolding instantiate check_msg has_valid_name has_valid_symbol has_symbol_bytes create_accounts
    validate_accounts sort_texts insert_text text_leb dedup dedup_after save_accounts minter_data
    with_marketing byte_length save Uint128.add
instantiate-IsBacked_example =
    instantiate-IsBacked test_cw20 test_cw20_lem start_msg empty_token started_token refl refl

validate_accounts-IsDistinct_example :
    (validate_accounts start_msg.initial_balances ≡ ok tt)
    ↔ IsDistinct {A = String} ("bob" ∷ "alice" ∷ [])
validate_accounts-IsDistinct_example = validate_accounts-IsDistinct start_msg.initial_balances

abbrev approval : Allowance test_cw20
approval = record { allowance = 25; expires = 500 }

abbrev old_token : Token test_cw20
old_token = record first_token { allowances = (("alice", "bob"), approval) ∷ [] }

abbrev approved_token : Token test_cw20
approved_token = record old_token { allowances_spender = (("bob", "alice"), approval) ∷ [] }

migrate-IsMirrored_example : IsMirrored approved_token
unfolding migrate reverse_allowances save
migrate-IsMirrored_example = migrate-IsMirrored old_token approved_token refl refl

abbrev spent : Allowance test_cw20
spent = record { allowance = 5; expires = 500 }

-- Bob has moved 20 of Alice's 40.
abbrev spent_token : Token test_cw20
spent_token = record (token_with 70 (("alice", 20) ∷ ("bob", 50) ∷ [])) {
  allowances = (("alice", "bob"), spent) ∷ [];
  allowances_spender = (("bob", "alice"), spent) ∷ [];
}

abbrev bobs_call : Call test_cw20 approved_token spent_token
unfolding execute_transfer_from deduct_allowance deduct_one move sub_balance add_balance may_load
    save Uint128.add
bobs_call =
    transfer_from {t = approved_token} {t' = spent_token} (record { height = 100; nanos = 0 }) "bob"
      "alice" "bob" 20 refl

approved_token-IsMirrored : IsMirrored approved_token
unfolding may_load
approved_token-IsMirrored owner spender = ground arith

Calls-IsMirrored_example : IsMirrored spent_token
Calls-IsMirrored_example =
    Calls-IsMirrored test_cw20 approved_token spent_token (one_more no_call bobs_call)
      approved_token-IsMirrored

Call-Step_example :
    Step "bob" (rights_of approved_token "bob") (ledger_of approved_token) (ledger_of spent_token)
unfolding bobs_call
Call-Step_example = Call-Step test_cw20 approved_token spent_token bobs_call
