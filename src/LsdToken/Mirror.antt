-- ===== src/LsdToken/Mirror.antt =====
-- The allowances by spender are those by owner (contracts/lsd_token/src/state.rs).
pub mod Calls
use neutron_contracts.Base.{
  Option, String, after, ap, arith, fail_if, if-eq-ok, if◌then◌else◌, inl, inr, ltb, may_load,
  may_load-remove, may_load-save, nat_eq, none, ok, ok_injective, ok_or, pair_eq, refl, remove,
  save, some, string_eq, sym, ℕ, ◌-◌, ◌==◌, ◌∙◌, ◌≡◌,
}
use neutron_contracts.LsdToken.State.{
  Allowance, Block, Cw20, Token, cannot_set_own_account, not_found, std, validate,
}
use neutron_contracts.LsdToken.Allowances.{
  deduct_allowance, deduct_one, execute_decrease_allowance, execute_increase_allowance,
  increase_one, set_expires,
}

-- Each of the two maps has what the other has, with the two addresses exchanged.
abbrev pub IsMirrored : {cw : Cw20} → Token cw → Type 0
IsMirrored t =
    (owner spender : String)
    → may_load (owner, spender) t.allowances ≡ may_load (spender, owner) t.allowances_spender

-- The allowances after a call, of which one may be changed, or removed.
pub data Touched {cw : Cw20} (t t' : Token cw) : Type 0 where
  kept : t'.allowances ≡ t.allowances → t'.allowances_spender ≡ t.allowances_spender → Touched t t'
  set_to :
      (o s : String) (a b : Allowance cw)
      → (IsMirrored t → a ≡ b)
      → t'.allowances ≡ save (o, s) a t.allowances
      → t'.allowances_spender ≡ save (s, o) b t.allowances_spender
      → Touched t t'
  removed :
      (o s : String)
      → t'.allowances ≡ remove (o, s) t.allowances
      → t'.allowances_spender ≡ remove (s, o) t.allowances_spender
      → Touched t t'

pub exchanged :
    (o s p q : String)
    → ◌==◌ {A = String × String} (o, s) (p, q) ≡ ◌==◌ {A = String × String} (s, o) (q, p)
exchanged o s p q = ground arith

pub Touched-IsMirrored : {cw : Cw20} (t t' : Token cw) → Touched t t' → IsMirrored t → IsMirrored t'
Touched-IsMirrored t t' (kept a b) m p q =
    ap (may_load (p, q)) a ∙ m p q ∙ sym (ap (may_load (q, p)) b)
Touched-IsMirrored t t' (set_to o s a b same e f) m p q =
    ap (may_load (p, q)) e
    ∙ may_load-save (p, q) (o, s) a t.allowances
    ∙ (λ i. if exchanged o s p q i then some (same m i) else m p q i)
    ∙ sym (ap (may_load (q, p)) f ∙ may_load-save (q, p) (s, o) b t.allowances_spender)
Touched-IsMirrored t t' (removed o s e f) m p q =
    ap (may_load (p, q)) e
    ∙ may_load-remove (p, q) (o, s) t.allowances
    ∙ (λ i. if exchanged o s p q i then none else m p q i)
    ∙ sym (ap (may_load (q, p)) f ∙ may_load-remove (q, p) (s, o) t.allowances_spender)

pub execute_increase_allowance-Touched :
    (cw : Cw20) (block : Block) (sender spender : String) (amount : ℕ)
    (expires : Option cw.Expiration) (t t' : Token cw)
    → execute_increase_allowance cw block sender spender amount expires t ≡ ok t'
    → Touched t t'
unfolding execute_increase_allowance
execute_increase_allowance-Touched cw block sender spender amount expires t t' h =
    after (validate cw spender) h (λ to e1 h1.
      after (fail_if (to == sender) cannot_set_own_account) h1 (λ _ e2 h2.
        after (increase_one cw block expires amount (may_load (sender, to) t.allowances)) h2
          (λ a e3 h3.
            after
              (increase_one cw block expires amount (may_load (to, sender) t.allowances_spender)) h3
              (λ b e4 h4.
                set_to sender to a b
                  (λ m.
                    ok_injective
                      (sym e3 ∙ ap (increase_one cw block expires amount) (m sender to) ∙ e4))
                  (ground arith) (ground arith)))))

pub execute_decrease_allowance-Touched :
    (cw : Cw20) (block : Block) (sender spender : String) (amount : ℕ)
    (expires : Option cw.Expiration) (t t' : Token cw)
    → execute_decrease_allowance cw block sender spender amount expires t ≡ ok t'
    → Touched t t'
unfolding execute_decrease_allowance
execute_decrease_allowance-Touched cw block sender spender amount expires t t' h =
    after (validate cw spender) h (λ to e1 h1.
      after (fail_if (to == sender) cannot_set_own_account) h1 (λ _ e2 h2.
        after (ok_or (may_load (sender, to) t.allowances) (std not_found)) h2 (λ a e3 h3.
          elim (if-eq-ok (ltb amount a.allowance) h3) [
            | inl h4 ↦
                after (set_expires cw block expires (record a { allowance = a.allowance - amount }))
                  h4 (λ b e4 h5. set_to sender to b b (λ m. refl) (ground arith) (ground arith))
            | inr h4 ↦ removed sender to (ground arith) (ground arith)
          ])))

pub deduct_allowance-Touched :
    (cw : Cw20) (owner spender : String) (block : Block) (amount : ℕ) (t t' : Token cw)
    → deduct_allowance cw owner spender block amount t ≡ ok t'
    → Touched t t'
unfolding deduct_allowance
deduct_allowance-Touched cw owner spender block amount t t' h =
    after (deduct_one cw block amount (may_load (owner, spender) t.allowances)) h (λ a e1 h1.
      after (deduct_one cw block amount (may_load (spender, owner) t.allowances_spender)) h1
        (λ b e2 h2.
          set_to owner spender a b
            (λ m. ok_injective (sym e1 ∙ ap (deduct_one cw block amount) (m owner spender) ∙ e2))
            (ground arith) (ground arith)))
