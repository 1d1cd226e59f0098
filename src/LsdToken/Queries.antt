-- ===== src/LsdToken/Queries.antt =====
-- What the token tells its readers (`query_*` of contract.rs and allowances.rs, enumerable.rs).
use neutron_contracts.Base.{
  Bool, List, Map, Option, Outcome, String, [], err, if◌then◌else◌, ltb, map, may_load, nat_eq,
  none, not, ok, ok_or, or_zero, pair_eq, retain, some, string_eq, suc, true, zero, ℕ, ◌==◌, ◌>>=◌,
  ◌∷◌,
}
use neutron_contracts.LsdToken.State.{
  Allowance, ContractError, Cw20, MarketingInfo, MinterData, Token, not_found, png, std, svg, url,
  validate,
}
use neutron_contracts.LsdToken.Allowances.{no_allowance_yet}
use neutron_contracts.LsdToken.Instantiate.{text_leb}

unfoldable pub query_balance : (cw : Cw20) → String → Token cw → Outcome ContractError ℕ
query_balance cw address t = do a ← validate cw address; ok (or_zero (may_load a t.balances))

unfoldable pub query_token_info :
    {cw : Cw20} → Token cw → Outcome ContractError (String × String × ℕ × ℕ)
query_token_info t = do
  info ← ok_or t.token_info (std not_found)
  ok (info.name, info.symbol, info.decimals, info.total_supply)

unfoldable pub query_minter : {cw : Cw20} → Token cw → Outcome ContractError (Option MinterData)
query_minter t = do meta ← ok_or t.token_info (std not_found); ok meta.mint

unfoldable pub query_allowance :
    (cw : Cw20) → (owner spender : String) → Token cw → Outcome ContractError (Allowance cw)
query_allowance cw owner spender t = do
  o ← validate cw owner
  s ← validate cw spender
  ok (no_allowance_yet cw (may_load (o, s) t.allowances))

-- Without marketing data, the empty ones.
unfoldable pub query_marketing_info : {cw : Cw20} → Token cw → MarketingInfo
query_marketing_info t = elim t.marketing_info [
  | none ↦ record { project = none; description = none; marketing = none; logo = none }
  | some info ↦ info
]

-- The type and the bytes of the logo; a link has none.
unfoldable pub query_download_logo :
    {cw : Cw20} → Token cw → Outcome ContractError (String × List ℕ)
query_download_logo t = do
  logo ← ok_or t.logo (std not_found)
  elim logo [
    | svg picture ↦ ok ("image/svg+xml", picture)
    | png picture ↦ ok ("image/png", picture)
    | url link ↦ err (std not_found)
  ]

abbrev max_limit : ℕ
max_limit = 30

abbrev default_limit : ℕ
default_limit = 10

-- `limit.unwrap_or(DEFAULT_LIMIT).min(MAX_LIMIT)`
abbrev pub limit_of : Option ℕ → ℕ
limit_of none = default_limit
limit_of (some n) = if ltb n max_limit then n else max_limit

abbrev pub take_first {ℓ} : {A : Type ℓ} → ℕ → List A → List A
take_first zero l = []
take_first (suc n) [] = []
take_first (suc n) (a ∷ l) = a ∷ take_first n l

-- A range of keys in ascending order.
unfoldable pub insert_key {ℓ} : {A : Type ℓ} → String → A → List (String × A) → List (String × A)
insert_key k a [] = (k, a) ∷ []
insert_key k a ((j, b) ∷ l) =
    let rest = insert_key k a l in if text_leb k j then (k, a) ∷ (j, b) ∷ l else (j, b) ∷ rest

unfoldable pub ascending {ℓ} : {A : Type ℓ} → List (String × A) → List (String × A)
unfolding insert_key
ascending [] = []
ascending ((k, a) ∷ l) = insert_key k a (ascending l)

-- Past `Bound::ExclusiveRaw(start_after)`
abbrev pub is_after : Option String → String → Bool
is_after none k = true
is_after (some start) k = not (text_leb k start)

unfoldable pub page {ℓ} :
    {A : Type ℓ} → Option String → Option ℕ → List (String × A) → List (String × A)
unfolding ascending
page start_after limit entries =
    take_first (limit_of limit) (retain (λ e. is_after start_after e.0) (ascending entries))

-- `MAP.prefix(&first)`: the second keys and the values.
unfoldable pub with_prefix {ℓ} : {A : Type ℓ} → String → Map (String × String) A → List (String × A)
with_prefix first [] = []
with_prefix first (((a, b), v) ∷ m) =
    let rest = with_prefix first m in if a == first then (b, v) ∷ rest else rest

unfoldable pub query_owner_allowances :
    (cw : Cw20)
    → String
    → Option String
    → Option ℕ
    → Token cw
    → Outcome ContractError (List (String × Allowance cw))
unfolding page with_prefix
query_owner_allowances cw owner start_after limit t = do
  owner_addr ← validate cw owner
  ok (page start_after limit (with_prefix owner_addr t.allowances))

unfoldable pub query_spender_allowances :
    (cw : Cw20)
    → String
    → Option String
    → Option ℕ
    → Token cw
    → Outcome ContractError (List (String × Allowance cw))
unfolding page with_prefix
query_spender_allowances cw spender start_after limit t = do
  spender_addr ← validate cw spender
  ok (page start_after limit (with_prefix spender_addr t.allowances_spender))

unfoldable pub query_all_accounts : {cw : Cw20} → Option String → Option ℕ → Token cw → List String
unfolding page
query_all_accounts start_after limit t = map (λ e. e.0) (page start_after limit t.balances)
