-- ===== src/LsdToken/Marketing/Apart.antt =====
-- What the calls on marketing data and logo leave (contracts/lsd_token/src/contract.rs).
use neutron_contracts.Base.{
  Option, String, after, ap, nat_eq, ok, ok_injective, ok_or, pair_eq, string_eq, sym, ◌≡◌,
}
use neutron_contracts.LsdToken.State.{Cw20, Logo, Token, unauthorized}
use neutron_contracts.LsdToken.Marketing.{
  as_marketing, execute_update_marketing, execute_upload_logo, set_marketing, verify_logo,
}

-- Supply, minters, balances and allowances are as before.
pub record Apart {cw : Cw20} (t t' : Token cw) : Type 0 where
  pub info : t'.token_info ≡ t.token_info
  pub balances : t'.balances ≡ t.balances
  pub by_owner : t'.allowances ≡ t.allowances
  pub by_spender : t'.allowances_spender ≡ t.allowances_spender

pub execute_update_marketing-Apart :
    (cw : Cw20) (sender : String) (project description marketing : Option String) (t t' : Token cw)
    → execute_update_marketing cw sender project description marketing t ≡ ok t'
    → Apart t t'
unfolding execute_update_marketing
execute_update_marketing-Apart cw sender project description marketing t t' h =
    after (as_marketing sender t) h (λ old e1 h1.
      after (set_marketing cw marketing old.marketing) h1 (λ new e2 h2. record {
        info = ap (λ (w : Token cw). w.token_info) (sym (ok_injective h2));
        balances = ap (λ (w : Token cw). w.balances) (sym (ok_injective h2));
        by_owner = ap (λ (w : Token cw). w.allowances) (sym (ok_injective h2));
        by_spender = ap (λ (w : Token cw). w.allowances_spender) (sym (ok_injective h2));
      }))

pub execute_upload_logo-Apart :
    (cw : Cw20) (sender : String) (logo : Logo) (t t' : Token cw)
    → execute_upload_logo sender logo t ≡ ok t'
    → Apart t t'
unfolding execute_upload_logo
execute_upload_logo-Apart cw sender logo t t' h =
    after (ok_or t.marketing_info unauthorized) h (λ old e1 h1.
      after (verify_logo logo) h1 (λ _ e2 h2. after (as_marketing sender t) h2 (λ info e3 h3.
        record {
          info = ap (λ (w : Token cw). w.token_info) (sym (ok_injective h3));
          balances = ap (λ (w : Token cw). w.balances) (sym (ok_injective h3));
          by_owner = ap (λ (w : Token cw). w.allowances) (sym (ok_injective h3));
          by_spender = ap (λ (w : Token cw). w.allowances_spender) (sym (ok_injective h3));
        })))
