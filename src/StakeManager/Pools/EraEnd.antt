-- ===== src/StakeManager/Pools/EraEnd.antt =====
-- What the last three steps of an era do to its pool (execute_era_collect_withdraw.rs,
-- execute_era_rebond.rs, execute_era_active.rs).
use neutron_contracts.Base.Uint128
use neutron_contracts.Base.{
  List, String, after, ap, arith, eqb, fail_if, if-eq-ok, if◌then◌else◌, inl, inr, length, ltb,
  nat_eq, not, ok, ok_injective, pair_eq, save, string_eq, subst, sym, ℕ, ◌==◌, ◌∙◌, ◌≡◌, ◌⊎◌,
}
use neutron_contracts.StakeManager.Errors.{
  pending_share_not_empty, status_not_allow, validators_empty,
}
use neutron_contracts.StakeManager.Messages.{MessageInfo, Msg, Response, SubMsg}
use neutron_contracts.StakeManager.Storage.{
  Storage, get_next_reply_id, load_pool, or_not_found, save_reply_payload,
}
use neutron_contracts.StakeManager.Helper.{
  Sdk, check_ibc_fee, default_update_period, get_update_pool_icq_msgs, load_ica,
  msg_with_sudo_callback, query_balance_by_addr, query_delegation_by_addr,
}
use neutron_contracts.StakeManager.Types.{
  PoolInfo, Stack, SudoPayload, active_ended, bond_ended, coin_eq, era_status_eq, rebond_ended,
  rebond_started, validator_update_status_eq, withdraw_ended, withdraw_started,
}
use neutron_contracts.StakeManager.Era.Collect.{execute_era_collect_withdraw, withdraw_amount}
use neutron_contracts.StakeManager.Era.Rebond.{execute_era_rebond, split_stake}
use neutron_contracts.StakeManager.Era.Active.{
  add_stack_fee, check_rate_change, delegated_amount, end_era, exchange_rate, execute_era_active,
  new_active_amount, protocol_fees, settle_rate, settled_pool,
}
use neutron_contracts.StakeManager.Pools.Invariant.{Always, Changes, IsValid, IsValidAt}
use neutron_contracts.Base.U64

-- A message with a callback is stored apart from the pools.
pub pools-msg_with_sudo_callback :
    (msg : Msg) (payload : SudoPayload) (s s' : Storage) (sub : SubMsg)
    → msg_with_sudo_callback msg payload s ≡ ok (sub, s')
    → s'.pools ≡ s.pools
unfolding msg_with_sudo_callback save_reply_payload get_next_reply_id U64.add
pools-msg_with_sudo_callback msg payload s s' sub h = ground arith

-- The pool while its rewards are collected.
abbrev collecting : PoolInfo → ℕ → PoolInfo
collecting p amount = record p {
  status = withdraw_started;
  era_snapshot = record p.era_snapshot { restake_amount = amount };
}

pub execute_era_collect_withdraw-Changes :
    (sdk : Sdk) (info : MessageInfo) (a : String) (s s' : Storage) (r : Response)
    → execute_era_collect_withdraw sdk info a s ≡ ok (s', r)
    → Changes Always a s s'
unfolding execute_era_collect_withdraw
execute_era_collect_withdraw-Changes sdk info a s s' r h = after (load_pool a s) h (λ p e h1.
    after (fail_if (not (p.status == bond_ended)) status_not_allow) h1 (λ _ e2 h2.
      after (load_ica p.ica_id s) h2 (λ icas e3 h3.
        after
          (withdraw_amount (record p { status = withdraw_started })
            (query_balance_by_addr sdk s icas.1.ica_addr p.sdk_greater_or_equal_v047))
          h3
          (λ amount e4 h4. elim (if-eq-ok (eqb amount 0) h4) [
            | inl h5 ↦ record {
              before = p;
              after = record p { status = withdraw_ended };
              loaded = ground (arith, e);
              stored = ap (λ (w : Storage × Response). w.0.pools) (sym (ok_injective h5));
              keeps = λ q v. tt;
            }
            | inr h5 ↦ after (check_ibc_fee sdk info) h5 (λ fee e6 h6.
                after (msg_with_sudo_callback _ _ s) h6 (λ sent e7 h7. record {
                  before = p;
                  after = collecting p amount;
                  loaded = ground (arith, e);
                  stored =
                      ap (λ (w : Storage × Response). w.0.pools) (sym (ok_injective h7))
                      ∙ ap (save a (collecting p amount))
                          (pools-msg_with_sudo_callback _ _ s sent.1 sent.0 e7);
                  keeps = λ q v. tt;
                }))
          ]))))

-- A restake that sends its delegations does not save the pool.
pub execute_era_rebond-Changes :
    (sdk : Sdk) (info : MessageInfo) (a : String) (vals : List String) (s s' : Storage)
    (r : Response)
    → execute_era_rebond sdk info a vals s ≡ ok (s', r)
    → Changes Always a s s' ⊎ (s'.pools ≡ s.pools)
unfolding execute_era_rebond
execute_era_rebond-Changes sdk info a vals s s' r h = after (load_pool a s) h (λ p e h1.
    after (fail_if (not (p.status == withdraw_ended)) status_not_allow) h1 (λ _ e2 h2.
      after (load_ica p.ica_id s) h2 (λ icas e3 h3.
        elim (if-eq-ok (eqb p.era_snapshot.restake_amount 0) h3) [
          | inl h4 ↦ inl (record {
            before = p;
            after = record p { status = rebond_ended };
            loaded = ground (arith, e);
            stored = ap (λ (w : Storage × Response). w.0.pools) (sym (ok_injective h4));
            keeps = λ q v. tt;
          })
          | inr h4 ↦ after (fail_if (eqb (length vals) 0) validators_empty) h4 (λ _ e5 h5.
              after
                (split_stake (record p { status = rebond_started }) a p.era_snapshot.restake_amount
                  vals)
                h5
                (λ msgs e6 h6. after (check_ibc_fee sdk info) h6 (λ fee e7 h7.
                  after (msg_with_sudo_callback _ _ s) h7 (λ sent e8 h8. inr (
                    ap (λ (w : Storage × Response). w.0.pools) (sym (ok_injective h8))
                    ∙ pools-msg_with_sudo_callback _ _ s sent.1 sent.0 e8)))))
        ])))

pools-add_stack_fee :
    (a : String) (fee : ℕ) (s s' : Storage) → add_stack_fee a fee s ≡ ok s' → s'.pools ≡ s.pools
unfolding add_stack_fee
pools-add_stack_fee a fee s s' h = ground arith

settled_status :
    (p : PoolInfo) (lsd_total rate active platform_fee stack_fee : ℕ) (out : PoolInfo × ℕ × ℕ)
    → settled_pool p lsd_total rate active platform_fee stack_fee ≡ ok out
    → out.0.status ≡ active_ended
unfolding settled_pool
settled_status p lsd_total rate active platform_fee stack_fee out h =
    after
      (if eqb platform_fee 0
        then ok p.total_platform_fee
        else Uint128.add p.total_platform_fee platform_fee)
      h (λ platform_total e h1. ap (λ (w : PoolInfo × ℕ × ℕ). w.0.status) (sym (ok_injective h1)))

ended_era :
    (p : PoolInfo) (stack : Stack) (total : ℕ) (out : PoolInfo × ℕ × ℕ)
    → end_era p stack total ≡ ok out
    → out.0.status ≡ active_ended
unfolding end_era
ended_era p stack total out h = after (protocol_fees p stack total) h (λ fees e1 h1.
    after (new_active_amount p total) h1 (λ new_active e2 h2.
      after (Uint128.add p.total_lsd_token_amount fees.0) h2 (λ with_platform e3 h3.
        after (Uint128.add with_platform fees.1) h3 (λ lsd_total e4 h4.
          after (exchange_rate new_active lsd_total) h4 (λ new_rate e5 h5.
            after (check_rate_change p new_rate) h5 (λ _ e6 h6.
              after (settle_rate p new_rate new_active) h6 (λ settled e7 h7.
                settled_status p lsd_total settled.0 settled.1 fees.0 fees.1 out h7)))))))

ended-IsValid : (p : PoolInfo) → p.status ≡ active_ended → IsValid p
ended-IsValid p e = subst (λ st. IsValidAt st p) (sym e) tt

pub execute_era_active-Changes :
    (sdk : Sdk) (a : String) (s s' : Storage) (r : Response)
    → execute_era_active sdk a s ≡ ok (s', r)
    → Changes Always a s s'
unfolding execute_era_active
execute_era_active-Changes sdk a s s' r h = after (load_pool a s) h (λ p e h1.
    after (fail_if (not (p.status == rebond_ended)) status_not_allow) h1 (λ _ e2 h2.
      after (fail_if (ltb 0 (length p.share_tokens)) pending_share_not_empty) h2 (λ _ e3 h3.
        after (delegated_amount p (query_delegation_by_addr sdk s a p.sdk_greater_or_equal_v047)) h3
          (λ total e4 h4. after (or_not_found s.stack) h4 (λ stack e5 h5.
            after (end_era p stack total) h5 (λ out e6 h6.
              after (add_stack_fee a out.2 s) h6 (λ t e7 h7.
                after (get_update_pool_icq_msgs sdk s a p.ica_id default_update_period) h7
                  (λ msgs e8 h8. record {
                    before = p;
                    after = out.0;
                    loaded = ground (arith, e);
                    stored =
                        ap (λ (w : Storage × Response). w.0.pools) (sym (ok_injective h8))
                        ∙ ap (save a out.0) (pools-add_stack_fee a out.2 s t e7);
                    keeps = λ q v. ended-IsValid out.0 (ended_era p stack total out e6);
                  }))))))))
