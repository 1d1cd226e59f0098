-- ===== src/StakeManager/Pools/Between.antt =====
-- What withdrawals, changes of validators and the liquid staking module do to the pools
-- (execute_withdraw.rs, execute_pool_rm_validator.rs, execute_pool_update_validator.rs,
-- execute_redeem_token_for_share.rs, execute_stake_lsm.rs).
use neutron_contracts.Base.{
  List, Outcome, String, [], after, ap, arith, contains, eqb, fail_if, if-eq-ok, inl, inr, length,
  ltb, nat_eq, not, ok, ok_injective, ok_or, pair_eq, refl, save, string_eq, sym, ℕ, ◌==◌, ◌||◌,
  ◌∙◌, ◌≡◌, ◌⊎◌,
}
use neutron_contracts.Base.Text.{parse, split}
use neutron_contracts.StakeManager.Lsm.{
  execute_redeem_token_for_share, lsm_parts, redeem_tokens, sudo_redeem_token_for_share_callback,
  sudo_redeem_token_for_share_failed_callback, sudo_stake_lsm_callback,
  sudo_stake_lsm_failed_callback,
}
use neutron_contracts.StakeManager.Withdraw.{
  execute_withdraw, finish_withdraw, release_unstakes, skip_three, sudo_withdraw_callback,
  sudo_withdraw_failed_callback,
}
use neutron_contracts.Base.Uint128
use neutron_contracts.StakeManager.Errors.{
  ContractError, era_process_not_end, lsm_stake_not_support, new_validator_already_exist,
  old_validator_not_exist, status_not_allow, tokens_len_not_match, unauthorized,
  unsupported_message,
}
use neutron_contracts.StakeManager.Messages.{Env, MessageInfo, Response}
use neutron_contracts.StakeManager.Storage.{
  Storage, get_next_reply_id, load_pool, save_reply_payload,
}
use neutron_contracts.StakeManager.Helper.{
  Sdk, cal_base, check_ibc_fee, load_ica, msg_with_sudo_callback, query_delegation_by_addr,
}
use neutron_contracts.StakeManager.Types.{
  Addr, Coin, PoolInfo, SudoPayload, active_ended, coin_eq, end, era_status_eq,
  validator_update_status_eq,
}
use neutron_contracts.StakeManager.Validators.{
  execute_pool_update_validator, redelegate_all, sudo_rm_validator_callback,
  sudo_rm_validator_failed_callback, sudo_update_validator_callback,
  sudo_update_validator_failed_callback,
}
use neutron_contracts.StakeManager.Pools.EraEnd.{pools-msg_with_sudo_callback}
use neutron_contracts.Base.U64
use neutron_contracts.StakeManager.Setup.Icq.{Icq}
use neutron_contracts.StakeManager.Setup.StakeLsm.{execute_stake_lsm}
use neutron_contracts.StakeManager.Pools.Invariant.{Always, Changes, IsValid}

-- A pool whose era has ended is valid whatever its amounts are.
pub set_pool :
    {s0 s' : Storage} (a : String) (s : Storage) (p q : PoolInfo) {r0 r : Response}
    → load_pool a s ≡ ok p
    → s0.pools ≡ save a q s.pools
    → ◌≡◌ {A = Outcome ContractError (Storage × Response)} (ok (s0, r0)) (ok (s', r))
    → (IsValid p → IsValid q)
    → Changes Always a s s'
set_pool a s p q e saved h keeps = record {
  before = p;
  after = q;
  loaded = ground (arith, e);
  stored = ap (λ (w : Storage × Response). w.0.pools) (sym (ok_injective h)) ∙ saved;
  keeps = λ _. keeps;
}

pub execute_withdraw-pools :
    (sdk : Sdk) (info : MessageInfo) (a : String) (receiver : Addr) (is : List ℕ) (s s' : Storage)
    (r : Response)
    → execute_withdraw sdk info a receiver is s ≡ ok (s', r)
    → s'.pools ≡ s.pools
unfolding execute_withdraw msg_with_sudo_callback save_reply_payload get_next_reply_id U64.add
execute_withdraw-pools sdk info a receiver is s s' r h = ground arith

pub sudo_withdraw_callback-pools :
    (payload : SudoPayload) (s s' : Storage) (r : Response)
    → (sudo_withdraw_callback payload s ≡ ok (s', r))
      ⊎ (sudo_withdraw_failed_callback payload s ≡ ok (s', r))
    → s'.pools ≡ s.pools
unfolding sudo_withdraw_callback sudo_withdraw_failed_callback finish_withdraw
sudo_withdraw_callback-pools payload s s' r (inl h) = ground arith
sudo_withdraw_callback-pools payload s s' r (inr h) =
    after
      (release_unstakes payload.pool_addr (skip_three (split "_" payload.message))
        s.unstakes_of_index)
      h (λ m e h1. ap (λ (w : Storage × Response). w.0.pools) (sym (ok_injective h1)))

pub execute_stake_lsm-pools :
    (sdk : Sdk) (icq : Icq) (env : Env) (info : MessageInfo) (user a : String) (s s' : Storage)
    (r : Response)
    → execute_stake_lsm sdk icq env info user a s ≡ ok (s', r)
    → s'.pools ≡ s.pools
unfolding execute_stake_lsm msg_with_sudo_callback save_reply_payload get_next_reply_id U64.add
execute_stake_lsm-pools sdk icq env info user a s s' r h = ground arith

pub sudo_rm_validator_callback-Changes :
    (payload : SudoPayload) (s s' : Storage) (r : Response)
    → (sudo_rm_validator_callback payload s ≡ ok (s', r))
      ⊎ (sudo_rm_validator_failed_callback payload s ≡ ok (s', r))
    → Changes Always payload.pool_addr s s'
unfolding sudo_rm_validator_callback sudo_rm_validator_failed_callback
sudo_rm_validator_callback-Changes payload s s' r (inl h) =
    after (load_pool payload.pool_addr s) h
      (λ p e h1. set_pool payload.pool_addr s p _ e refl h1 (λ v. ground arith))
sudo_rm_validator_callback-Changes payload s s' r (inr h) =
    after (load_pool payload.pool_addr s) h
      (λ p e h1. set_pool payload.pool_addr s p _ e refl h1 (λ v. ground arith))

pub sudo_update_validator_callback-Changes :
    (payload : SudoPayload) (s s' : Storage) (r : Response)
    → (sudo_update_validator_callback payload s ≡ ok (s', r))
      ⊎ (sudo_update_validator_failed_callback payload s ≡ ok (s', r))
    → Changes Always payload.pool_addr s s'
unfolding sudo_update_validator_callback sudo_update_validator_failed_callback
sudo_update_validator_callback-Changes payload s s' r (inl h) =
    after (load_pool payload.pool_addr s) h
      (λ p e h1. set_pool payload.pool_addr s p _ e refl h1 (λ v. ground arith))
sudo_update_validator_callback-Changes payload s s' r (inr h) =
    after (load_pool payload.pool_addr s) h
      (λ p e h1. set_pool payload.pool_addr s p _ e refl h1 (λ v. ground arith))

pub sudo_redeem_token_for_share_callback-Changes :
    (payload : SudoPayload) (s s' : Storage) (r : Response)
    → (sudo_redeem_token_for_share_callback payload s ≡ ok (s', r))
      ⊎ (sudo_redeem_token_for_share_failed_callback payload s ≡ ok (s', r))
    → Changes Always payload.pool_addr s s'
unfolding sudo_redeem_token_for_share_callback sudo_redeem_token_for_share_failed_callback
sudo_redeem_token_for_share_callback-Changes payload s s' r (inl h) =
    after (load_pool payload.pool_addr s) h
      (λ p e h1. set_pool payload.pool_addr s p _ e refl h1 (λ v. ground arith))
sudo_redeem_token_for_share_callback-Changes payload s s' r (inr h) =
    after (load_pool payload.pool_addr s) h
      (λ p e h1. set_pool payload.pool_addr s p _ e refl h1 (λ v. ground arith))

pub sudo_stake_lsm_callback-Changes :
    (payload : SudoPayload) (s s' : Storage) (r : Response)
    → sudo_stake_lsm_callback payload s ≡ ok (s', r)
    → Changes Always payload.pool_addr s s'
unfolding sudo_stake_lsm_callback
sudo_stake_lsm_callback-Changes payload s s' r h =
    after (ok_or (lsm_parts payload.message) (unsupported_message payload.message)) h
      (λ parts e1 h1.
        after
          (ok_or (parse Uint128.modulus parts.token_amount) (unsupported_message payload.message))
          h1
          (λ token_amount e2 h2.
            after
              (ok_or (parse Uint128.modulus parts.share_token_amount)
                (unsupported_message payload.message))
              h2
              (λ share_amount e3 h3. after (load_pool payload.pool_addr s) h3 (λ p e h4.
                after (Uint128.add p.active token_amount) h4 (λ active e5 h5.
                  after (Uint128.mul token_amount cal_base) h5 (λ scaled e6 h6.
                    after (Uint128.div scaled p.rate) h6 (λ minted e7 h7.
                      after (Uint128.add p.total_lsd_token_amount minted) h7 (λ total e8 h8.
                        set_pool payload.pool_addr s p _ e refl h8 (λ v. ground arith)))))))))

pub execute_redeem_token_for_share-Changes :
    (sdk : Sdk) (info : MessageInfo) (a : String) (tokens : List Coin) (s s' : Storage)
    (r : Response)
    → execute_redeem_token_for_share sdk info a tokens s ≡ ok (s', r)
    → Changes Always a s s'
unfolding execute_redeem_token_for_share
execute_redeem_token_for_share-Changes sdk info a tokens s s' r h =
    after (fail_if (eqb (length tokens) 0 || ltb 10 (length tokens)) tokens_len_not_match) h
      (λ _ e1 h1. after (load_pool a s) h1 (λ p e h2.
        after (fail_if (not p.lsm_support) lsm_stake_not_support) h2 (λ _ e3 h3.
          after (load_ica p.ica_id s) h3 (λ icas e4 h4.
            after (redeem_tokens p icas.0.ica_addr tokens []) h4 (λ redeemed e5 h5.
              after (check_ibc_fee sdk info) h5 (λ fee e6 h6.
                after (msg_with_sudo_callback _ _ s) h6 (λ sent e7 h7.
                  set_pool a s p _ e
                    (ap (save a _) (pools-msg_with_sudo_callback _ _ s sent.1 sent.0 e7)) h7
                    (λ v. ground arith))))))))

pub execute_pool_update_validator-Changes :
    (sdk : Sdk) (info : MessageInfo) (a old new : String) (s s' : Storage) (r : Response)
    → execute_pool_update_validator sdk info a old new s ≡ ok (s', r)
    → Changes Always a s s'
unfolding execute_pool_update_validator
execute_pool_update_validator-Changes sdk info a old new s s' r h =
    after (load_pool a s) h (λ p e h1.
      after (fail_if (not (info.sender == p.admin)) unauthorized) h1 (λ _ e2 h2.
        after (fail_if (not (p.status == active_ended)) era_process_not_end) h2 (λ _ e3 h3.
          after (fail_if (not (p.validator_update_status == end)) status_not_allow) h3 (λ _ e4 h4.
            after (fail_if (not (contains p.validator_addrs old)) old_validator_not_exist) h4
              (λ _ e5 h5.
                after (fail_if (contains p.validator_addrs new) new_validator_already_exist) h5
                  (λ _ e6 h6.
                    after (query_delegation_by_addr sdk s a p.sdk_greater_or_equal_v047) h6
                      (λ response e7 h7. after (load_ica p.ica_id s) h7 (λ icas e8 h8.
                        elim (if-eq-ok
                          (eqb (length (redelegate_all p a old new response.delegations)) 0) h8) [
                            | inl h9 ↦ set_pool a s p _ e refl h9 (λ v. ground arith)
                            | inr h9 ↦ after (check_ibc_fee sdk info) h9 (λ fee e10 h10.
                                after (msg_with_sudo_callback _ _ s) h10 (λ sent e11 h11.
                                  set_pool a s p _ e
                                    (ap (save a _)
                                      (pools-msg_with_sudo_callback _ _ s sent.1 sent.0 e11))
                                    h11 (λ v. ground arith)))
                          ]))))))))

-- The refund is a message only.
pub sudo_stake_lsm_failed_callback-pools :
    (payload : SudoPayload) (s s' : Storage) (r : Response)
    → sudo_stake_lsm_failed_callback payload s ≡ ok (s', r)
    → s'.pools ≡ s.pools
unfolding sudo_stake_lsm_failed_callback
sudo_stake_lsm_failed_callback-pools payload s s' r h =
    after (ok_or (lsm_parts payload.message) (unsupported_message payload.message)) h
      (λ parts e1 h1.
        after
          (ok_or (parse Uint128.modulus parts.share_token_amount)
            (unsupported_message payload.message))
          h1 (λ amount e2 h2. ap (λ (w : Storage × Response). w.0.pools) (sym (ok_injective h2))))
