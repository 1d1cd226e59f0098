-- ===== src/StakeManager/Validators/Acknowledged.antt =====
-- A replacement of a validator and its acknowledgement (execute_pool_update_validator.rs).
use neutron_contracts.Base.{
  All, List, Option, Outcome, String, [], after, ap, arith, contains, eqb, fail_if, false, if-eq-ok,
  inl, inr, length, may_load, may_load-save_self, nat_eq, none, not, ok, ok_injective, pair_eq,
  push, refl, retain, save, some, some_injective, string_eq, sym, ℕ, ◌==◌, ◌>>=◌, ◌∙◌, ◌∷◌, ◌≡◌,
}
use neutron_contracts.Base.U64
use neutron_contracts.Base.Text.{has_char, join, split}
use neutron_contracts.Base.Text.RoundTrip.{split-join}
use neutron_contracts.StakeManager.Types.{
  PoolInfo, SudoPayload, active_ended, coin_eq, end, era_status_eq, start,
  validator_update_status_eq, wait_query_update,
}
use neutron_contracts.StakeManager.Errors.{
  ContractError, era_process_not_end, new_validator_already_exist, old_validator_not_exist,
  status_not_allow, unauthorized,
}
use neutron_contracts.StakeManager.Messages.{MessageInfo, Msg, Response, SubMsg}
use neutron_contracts.StakeManager.Storage.{
  Storage, get_next_reply_id, load_pool, or_default, or_not_found, read_reply_payload,
  reply_id_range_start, save_pool, save_reply_payload,
}
use neutron_contracts.StakeManager.Helper.{
  Sdk, check_ibc_fee, load_ica, msg_with_sudo_callback, query_delegation_by_addr,
}
use neutron_contracts.StakeManager.Validators.{
  execute_pool_update_validator, redelegate_all, sudo_update_validator_callback,
}
use neutron_contracts.StakeManager.Validators.Update.{replaced, with_replaced}

split-join-push :
    (l : List String) (x : String)
    → All (λ v. has_char "_" v ≡ false) (push l x)
    → split "_" (join "_" (push l x)) ≡ push l x
split-join-push [] x all = split-join "_" x [] all
split-join-push (y ∷ l) x all = split-join "_" y (push l x) all

-- The payload is kept under the id at which the reply will come.
msg_with_sudo_callback-eq-ok :
    (m : Msg) (payload : SudoPayload) (s s' : Storage) (sub : SubMsg) (id : ℕ)
    → msg_with_sudo_callback m payload s ≡ ok (sub, s')
    → sub.reply_on_success ≡ some id
    → (read_reply_payload s' id ≡ ok payload) × (s'.pools ≡ s.pools)
unfolding msg_with_sudo_callback save_reply_payload read_reply_payload get_next_reply_id
msg_with_sudo_callback-eq-ok m payload s s' sub id h e =
    after (save_reply_payload payload s) h (λ kept e1 h1.
      after (get_next_reply_id s) e1 (λ next e2 h2.
        after (U64.add (or_default s.latest_reply_id reply_id_range_start) 1) e2 (λ n e3 h3.
          let same_id : next.0 ≡ id =
            ap (λ (x : ℕ × Storage). x.0) (ok_injective h2)
            ∙ some_injective
                (ap (λ (x : SubMsg × Storage). x.0.reply_on_success) (ok_injective h1) ∙ e) in
          let stored : ◌≡◌ {A = Storage} s' (record next.1 {
            reply_id_to_payload = save next.0 payload next.1.reply_id_to_payload;
          }) =
            ap (λ (x : SubMsg × Storage). x.1) (sym (ok_injective h1))
            ∙ ap (λ (x : ℕ × Storage). x.1) (sym (ok_injective h2)) in
          (
            ap (λ (x : Storage). or_not_found (may_load id x.reply_id_to_payload)) stored
                ∙ ap
                    (λ k.
                      or_not_found (may_load k (save next.0 payload next.1.reply_id_to_payload)))
                    (sym same_id)
                ∙ ap or_not_found (may_load-save_self next.0 payload next.1.reply_id_to_payload),
            ap (λ (x : Storage). x.pools) stored
                ∙ ap (λ (x : ℕ × Storage). x.1.pools) (sym (ok_injective h3)),
          ))))

abbrev first_or : SubMsg → Response → SubMsg
first_or sub [] = sub
first_or sub (m ∷ r) = m

-- One message is sent, and the pool is stored.
sent_one :
    (m : Msg) (payload : SudoPayload) (a : String) (q : PoolInfo) (s s' : Storage) (sub : SubMsg)
    (id : ℕ)
    → ◌≡◌ {A = Outcome ContractError (Storage × Response)}
        (msg_with_sudo_callback m payload s >>= λ x. ok (save_pool a q x.1, x.0 ∷ []))
        (ok (s', sub ∷ []))
    → sub.reply_on_success ≡ some id
    → (may_load a s'.pools ≡ some q) × (read_reply_payload s' id ≡ ok payload)
unfolding read_reply_payload
sent_one m payload a q s s' sub id h e = after (msg_with_sudo_callback m payload s) h (λ made e1 h1.
    let new : ◌≡◌ {A = Storage × Response} (s', sub ∷ []) (save_pool a q made.1, made.0 ∷ []) =
      sym (ok_injective h1) in
    let replied =
      ap (λ (x : Storage × Response). (first_or sub x.1).reply_on_success) (sym new) ∙ e in
    (
      ap (λ (x : Storage × Response). may_load a x.0.pools) new
          ∙ may_load-save_self a q made.1.pools,
      ap (λ (x : Storage × Response). read_reply_payload x.0 id) new
          ∙ (msg_with_sudo_callback-eq-ok m payload s made.1 made.0 id e1 replied).0,
    ))

ok_or_injective :
    {o : Option PoolInfo} {p : PoolInfo}
    → ◌≡◌ {A = Outcome ContractError PoolInfo} (or_not_found o) (ok p)
    → some p ≡ o
ok_or_injective {o = none} h = absurd cc
ok_or_injective {o = some q} h = ap some (sym (ok_injective h))

-- What the replacement leaves when it has sent a redelegation.
replacement_sent :
    (sdk : Sdk) (info : MessageInfo) (a old new : String) (s s' : Storage) (sub : SubMsg)
    (p : PoolInfo) (id : ℕ)
    → may_load a s.pools ≡ some p
    → execute_pool_update_validator sdk info a old new s ≡ ok (s', sub ∷ [])
    → sub.reply_on_success ≡ some id
    → (may_load a s'.pools ≡ some (with_replaced p old new start))
      × (payload : SudoPayload) × (read_reply_payload s' id ≡ ok payload)
      × (payload.message ≡ join "_" (replaced old new p.validator_addrs))
unfolding execute_pool_update_validator read_reply_payload
replacement_sent sdk info a old new s s' sub p id e h replied = after (load_pool a s) h (λ p' e0 h0.
    after (fail_if (not (info.sender == p'.admin)) unauthorized) h0 (λ _ e1 h1.
      after (fail_if (not (p'.status == active_ended)) era_process_not_end) h1 (λ _ e2 h2.
        after (fail_if (not (p'.validator_update_status == end)) status_not_allow) h2 (λ _ e3 h3.
          after (fail_if (not (contains p'.validator_addrs old)) old_validator_not_exist) h3
            (λ _ e4 h4.
              after (fail_if (contains p'.validator_addrs new) new_validator_already_exist) h4
                (λ _ e5 h5.
                  after (query_delegation_by_addr sdk s a p'.sdk_greater_or_equal_v047) h5
                    (λ response e6 h6. after (load_ica p'.ica_id s) h6 (λ icas e7 h7.
                      elim (if-eq-ok
                        (eqb (length (redelegate_all p' a old new response.delegations)) 0) h7) [
                          | inl h8 ↦ absurd (ground arith)
                          | inr h8 ↦ after (check_ibc_fee sdk info) h8 (λ fee e9 h9.
                              let same : p' ≡ p = some_injective (ok_or_injective e0 ∙ e) in
                              let kept =
                                sent_one _ _ a (with_replaced p' old new start) s s' sub id h9
                                  replied in
                              (
                                kept.0 ∙ ap (λ w. some (with_replaced w old new start)) same,
                                _,
                                kept.1,
                                ap (λ (w : PoolInfo). join "_" (replaced old new w.validator_addrs))
                                    same,
                              ))
                        ]))))))))

-- A replacement that has sent a redelegation is acknowledged: the callback on the payload that was
-- kept succeeds, and leaves the validators as the replacement has set them, to be queried anew. No
-- address of a validator holds an underscore, the pool's account is the pool's address, and the
-- pools are as the replacement has left them.
pub sudo_update_validator_callback_keeps :
    (sdk : Sdk) (info : MessageInfo) (old new : String) (s s' t : Storage) (sub : SubMsg)
    (p : PoolInfo) (id : ℕ) (payload : SudoPayload)
    → may_load payload.pool_addr s.pools ≡ some p
    → execute_pool_update_validator sdk info payload.pool_addr old new s ≡ ok (s', sub ∷ [])
    → sub.reply_on_success ≡ some id
    → read_reply_payload s' id ≡ ok payload
    → All (λ v. has_char "_" v ≡ false) (replaced old new p.validator_addrs)
    → t.pools ≡ s'.pools
    → (t' : Storage) × (q : PoolInfo) × (sudo_update_validator_callback payload t ≡ ok (t', []))
      × (may_load payload.pool_addr t'.pools ≡ some q)
      × (q.validator_addrs ≡ replaced old new p.validator_addrs)
      × (q.validator_update_status ≡ wait_query_update)
unfolding sudo_update_validator_callback
sudo_update_validator_callback_keeps sdk info old new s s' t sub p id payload e h replied kept plain
      same =
    let (stored, sent, found, text) =
      replacement_sent sdk info payload.pool_addr old new s s' sub p id e h replied in
    let here = ap (may_load payload.pool_addr) same ∙ stored in
    let ended = record (with_replaced p old new start) {
      validator_addrs = split "_" payload.message;
      validator_update_status = wait_query_update;
    } in
    (
      save_pool payload.pool_addr ended t,
      ended,
      ground (arith, here),
      may_load-save_self payload.pool_addr ended t.pools,
      ap (λ (w : SudoPayload). split "_" w.message) (ok_injective (sym kept ∙ found))
          ∙ ap (split "_") text
          ∙ split-join-push (retain (λ v. not (v == old)) p.validator_addrs) new plain,
      refl,
    )
