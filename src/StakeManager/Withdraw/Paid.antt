-- ===== src/StakeManager/Withdraw/Paid.antt =====
-- What a withdrawal pays, and that no unstake is paid twice
-- (contracts/stake_manager/src/execute_withdraw.rs).
use neutron_contracts.Base.U64
use neutron_contracts.Base.{
  All-contains, IsOk, List, Outcome-cases, String, [], after, ap, arith, contains, eqb, fail_if,
  inl, inr, length, may_load, may_load-save_self, nat_eq, ok, pair_eq, some, string_eq, subst, sym,
  true, ℕ, ◌++◌, ◌<◌, ◌∙◌, ◌∷◌, ◌≡◌,
}
use neutron_contracts.StakeManager.Types.{
  Addr, PoolInfo, SudoPayload, UnstakeInfo, coin_eq, era_status_eq, user_withdraw,
  validator_update_status_eq,
}
use neutron_contracts.StakeManager.Errors.{empty_unstake_list, encode_err_zero_withdraw_amount}
use neutron_contracts.StakeManager.Messages.{MessageInfo, Msg, ProtobufAny, Response, submit_tx}
use neutron_contracts.StakeManager.Storage.{
  Storage, get_next_reply_id, load_pool, or_default, reply_id_range_start, save_reply_payload,
}
use neutron_contracts.StakeManager.Helper.{
  Sdk, check_ibc_fee, gen_msg_send, load_ica, msg_with_sudo_callback,
}
use neutron_contracts.StakeManager.Withdraw.{
  Unstakes, execute_withdraw, take_unstakes, withdraw_message,
}
use neutron_contracts.StakeManager.Withdraw.Taken.{IsReady, Taken, mark, take_unstakes-Taken}

-- The transaction that a response has the remote account run.
abbrev pub tx_msgs : Msg → List ProtobufAny
tx_msgs (submit_tx sent) = sent.msgs
tx_msgs _ = []

abbrev pub submitted : Response → List ProtobufAny
submitted [] = []
submitted (m ∷ ms) = tx_msgs m.msg ++ submitted ms

-- The payload that is kept for the acknowledgement.
abbrev pub withdraw_payload : String → Addr → Addr → List ℕ → ℕ → String → SudoPayload
withdraw_payload pool_addr receiver sender is total port = record {
  message = withdraw_message total sender receiver is;
  pool_addr = pool_addr;
  port_id = port;
  tx_type = user_withdraw;
}

-- What a withdrawal has done: the pool, the unstakes it took, and the one payment of their sum.
pub record Paid (info : MessageInfo) (pool_addr : String) (receiver : Addr) (is : List ℕ)
    (s s' : Storage) (r : Response) : Type 0 where
  pub pool : PoolInfo
  pub stored : may_load pool_addr s.pools ≡ some pool
  pub total : ℕ
  pub positive : 0 < total
  pub taken : Taken pool pool_addr info.sender is 0 s.unstakes_of_index total s'.unstakes_of_index
  pub port : String
  pub saved :
      may_load (or_default s.latest_reply_id reply_id_range_start) s'.reply_id_to_payload
      ≡ some (withdraw_payload pool_addr receiver info.sender is total port)
  pub payment : submitted r ≡ gen_msg_send pool_addr receiver pool.remote_denom total ∷ []

-- A withdrawal that succeeds takes only unstakes of the sender whose unbonding is over and of
-- which no withdrawal is under way, each of them once, marks them, leaves all others, and has the
-- pool send exactly the sum of their amounts to the receiver.
pub execute_withdraw-Paid :
    (sdk : Sdk) (info : MessageInfo) (pool_addr : String) (receiver : Addr) (is : List ℕ)
    (s s' : Storage) (r : Response)
    → execute_withdraw sdk info pool_addr receiver is s ≡ ok (s', r)
    → Paid info pool_addr receiver is s s' r
unfolding execute_withdraw msg_with_sudo_callback save_reply_payload get_next_reply_id U64.add
execute_withdraw-Paid sdk info pool_addr receiver is s s' r h =
    after (fail_if (eqb (length is) 0) empty_unstake_list) h (λ _ e0 h0.
      after (load_pool pool_addr s) h0 (λ p e1 h1.
        after (take_unstakes p pool_addr info.sender is 0 s.unstakes_of_index) h1
          (λ (total, unstakes) e2 h2.
            after (fail_if (eqb total 0) encode_err_zero_withdraw_amount) h2 (λ _ e3 h3.
              after (check_ibc_fee sdk info) h3 (λ ibc_fee e4 h4.
                after (load_ica p.ica_id s) h4 (λ (pool_ica_info, _, _) e5 h5. record {
                  pool = p;
                  stored = ground arith;
                  total = total;
                  positive = ground arith;
                  taken =
                      subst (Taken p pool_addr info.sender is 0 s.unstakes_of_index total)
                        {x = unstakes} {y = s'.unstakes_of_index} (ground arith)
                        (take_unstakes-Taken p pool_addr info.sender is 0 s.unstakes_of_index total
                          unstakes e2);
                  port = pool_ica_info.ctrl_port_id;
                  saved = ground (
                    arith,
                    may_load-save_self (or_default s.latest_reply_id reply_id_range_start)
                        (withdraw_payload pool_addr receiver info.sender is total
                          pool_ica_info.ctrl_port_id)
                        s.reply_id_to_payload,
                  );
                  payment = ground arith;
                }))))))

not_both :
    (p : PoolInfo) (pool_addr : String) (sender : Addr) (i : ℕ) (m m' m'' : Unstakes)
    → m'' ≡ m'
    → (u : UnstakeInfo) → may_load (pool_addr, i) m ≡ some u
    → may_load (pool_addr, i) m' ≡ mark (may_load (pool_addr, i) m)
    → IsReady p pool_addr sender m'' i
    → ⊥
not_both p pool_addr sender i m m' m'' same u stored marked ready =
    let e : may_load (pool_addr, i) m' ≡ some ready.unstake =
      ap (may_load (pool_addr, i)) (sym same) ∙ ready.stored in
    ground (arith, e, ready.free)

-- After a withdrawal, no other withdrawal of one of its unstakes succeeds, whoever sends it, as
-- long as the unstakes are as the first has left them.
pub execute_withdraw_once :
    (sdk sdk' : Sdk) (info info' : MessageInfo) (pool_addr : String) (receiver receiver' : Addr)
    (is js : List ℕ) (i : ℕ) (s s' s'' : Storage) (r : Response)
    → execute_withdraw sdk info pool_addr receiver is s ≡ ok (s', r)
    → s''.unstakes_of_index ≡ s'.unstakes_of_index
    → contains is i ≡ true
    → contains js i ≡ true
    → ¬ IsOk (execute_withdraw sdk' info' pool_addr receiver' js s'')
execute_withdraw_once sdk sdk' info info' pool_addr receiver receiver' is js i s s' s'' r h same a b
      good =
    elim (Outcome-cases (execute_withdraw sdk' info' pool_addr receiver' js s'')) [
      | inl ((s3, r3), e) ↦
          let first = execute_withdraw-Paid sdk info pool_addr receiver is s s' r h in
          let second = execute_withdraw-Paid sdk' info' pool_addr receiver' js s'' s3 r3 e in
          let was = All-contains _ is i first.taken.ready a in
          not_both second.pool pool_addr info'.sender i s.unstakes_of_index s'.unstakes_of_index
            s''.unstakes_of_index same was.unstake was.stored
            (All-contains _ is i first.taken.marked a) (All-contains _ js i second.taken.ready b)
      | inr (inl (_, e)) ↦ ground arith
      | inr (inr e) ↦ ground arith
    ]
