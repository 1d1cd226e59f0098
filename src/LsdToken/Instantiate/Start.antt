-- ===== src/LsdToken/Instantiate/Start.antt =====
-- How a token starts (`instantiate` and `migrate` of contracts/lsd_token/src/contract.rs).
use neutron_contracts.Base.{
  ==_iff, ==_refl, Bool-cases, IsDistinct, List, Map, Option, String, [], after, ap, arith,
  contains, fail_if, false, if◌then◌else◌, inl, inr, map, may_load, may_load-save, nat_eq, none, ok,
  ok_injective, or_zero, pair_eq, refl, save, some, some_injective, string_eq, subst, sum_values,
  sum_values-save, sym, true, ℕ, ◌+◌, ◌==◌, ◌∙◌, ◌∷◌, ◌≡◌,
}
use neutron_contracts.LsdToken.Instantiate.{
  Cw20Coin, InstantiateMarketingInfo, InstantiateMsg, cap_of, check_msg, create_accounts,
  instantiate, migrate, minter_data, reverse_allowances, save_accounts, validate_accounts,
  with_marketing,
}
use neutron_contracts.LsdToken.State.{
  Allowances, Cw20, Token, TokenInfo, generic_err, over_cap, std, validate,
}
use neutron_contracts.Base.Uint128
use neutron_contracts.LsdToken.Mirror.{IsMirrored, exchanged}
use neutron_contracts.LsdToken.Instantiate.Sorted.{validate_accounts-IsDistinct}
use neutron_contracts.LsdToken.Books.{IsBacked}

validate-eq-ok :
    (cw : Cw20) (text a : String) → validate cw text ≡ ok a → cw.addr_validate text ≡ some a
validate-eq-ok cw text a h = ground arith

with_marketing-eq-ok :
    {cw : Cw20} (marketing : Option InstantiateMarketingInfo) (t t' : Token cw)
    → with_marketing marketing t ≡ ok t'
    → (t'.token_info ≡ t.token_info) × (t'.balances ≡ t.balances)
unfolding with_marketing
with_marketing-eq-ok none t t' h = (ground arith, ground arith)
with_marketing-eq-ok (some m) t t' h = (ground arith, ground arith)

module _ (cw : Cw20) (valid : (text a : String) → cw.addr_validate text ≡ some a → a ≡ text) where
  save_accounts-sum :
      (rows : List Cw20Coin) (total : ℕ) (m : Map String ℕ) (total' : ℕ) (m' : Map String ℕ)
      → save_accounts cw rows total m ≡ ok (total', m')
      → IsDistinct (map (λ (c : Cw20Coin). c.address) rows)
      → ((x : String)
          → contains (map (λ (c : Cw20Coin). c.address) rows) x ≡ true
          → may_load x m ≡ none)
      → sum_values m' + total ≡ sum_values m + total'
  unfolding save_accounts contains
  save_accounts-sum [] total m total' m' h distinct fresh = ground arith
  save_accounts-sum (row ∷ rows) total m total' m' h distinct fresh =
      after (validate cw row.address) h (λ a e1 h1.
        after (Uint128.add total row.amount) h1 (λ u e2 h2.
          let same = valid row.address a (validate-eq-ok cw row.address a e1) in
          let new = fresh row.address (ground (arith, ==_refl row.address)) in
          let rest =
            save_accounts-sum rows u (save a row.amount m) total' m' h2 distinct.1 (λ x listed.
              elim (Bool-cases (a == x)) [
                | inl here ↦ absurd (cc (listed, distinct.0, same, (==_iff a x).0 here))
                | inr elsewhere ↦
                    may_load-save x a row.amount m
                    ∙ ap (λ b. if b then some row.amount else may_load x m) elsewhere
                    ∙ fresh x (ground (arith, listed))
              ]) in
          omega (
            arith,
            rest,
            sum_values-save a row.amount m,
            ap or_zero (ap (λ b. may_load b m) same ∙ new),
            (Uint128.add-eq-ok total row.amount e2).0,
          )))

  -- A token starts with a supply that is the sum of the balances and is within the cap. The chain
  -- accepts an address only as it is written.
  pub instantiate-IsBacked :
      (msg : InstantiateMsg) (t t' : Token cw)
      → instantiate cw msg t ≡ ok t'
      → t.balances ≡ []
      → IsBacked t'
        × ((info : TokenInfo)
            → t'.token_info ≡ some info
            → over_cap (cap_of msg.mint) info.total_supply ≡ false)
  unfolding instantiate create_accounts sum_values may_load
  instantiate-IsBacked msg t t' h empty = after (check_msg msg) h (λ _ e1 h1.
      after (create_accounts cw msg.initial_balances t.balances) h1 (λ made e2 h2.
        after (fail_if (over_cap (cap_of msg.mint) made.0) (std generic_err)) h2 (λ _ e3 h3.
          after (minter_data cw msg.mint) h3 (λ mint e4 h4.
            after (validate_accounts msg.initial_balances) e2 (λ _ e5 h5.
              let (info_kept, balances_kept) = with_marketing-eq-ok msg.marketing _ t' h4 in
              let sum =
                save_accounts-sum msg.initial_balances 0 t.balances made.0 made.1 h5
                  ((validate_accounts-IsDistinct msg.initial_balances).0 e5)
                  (λ x listed. ap (may_load x) empty) in
              let supply : (info : TokenInfo)
                  → t'.token_info ≡ some info
                  → made.0 ≡ info.total_supply =
                λ info e.
                  ap (λ (i : TokenInfo). i.total_supply) (some_injective (sym info_kept ∙ e)) in
              (
                λ info e.
                    omega
                      (arith, sum, supply info e, ap sum_values empty, ap sum_values balances_kept),
                λ info e.
                    subst (λ n. over_cap (cap_of msg.mint) n ≡ false) (supply info e)
                      (ground (arith, e3)),
              ))))))

reverse_allowances-mirror :
    {cw : Cw20} (m : Allowances cw) (o s : String)
    → may_load (s, o) (reverse_allowances m []) ≡ may_load (o, s) m
unfolding reverse_allowances may_load
reverse_allowances-mirror [] o s = refl
reverse_allowances-mirror ((k, a) ∷ rest) o s =
    may_load-save (s, o) (k.1, k.0) a (reverse_allowances rest [])
    ∙ (λ i. if exchanged k.1 k.0 s o i then some a else reverse_allowances-mirror rest o s i)

-- The migration of a token from before 0.14.0, which has no allowances by spender, makes them the
-- same as those by owner.
pub migrate-IsMirrored :
    {cw : Cw20} (t t' : Token cw)
    → migrate (ok true) t ≡ ok t'
    → t.allowances_spender ≡ []
    → IsMirrored t'
unfolding migrate
migrate-IsMirrored t t' h empty o s =
    subst IsMirrored (ok_injective h)
      (λ p q.
        sym (reverse_allowances-mirror t.allowances p q)
        ∙ ap (λ m. may_load (q, p) (reverse_allowances t.allowances m)) (sym empty))
      o s
