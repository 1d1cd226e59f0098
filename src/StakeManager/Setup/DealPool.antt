-- ===== src/StakeManager/Setup/DealPool.antt =====
-- `deal_pool` and `set_withdraw_sub_msg` of contracts/stake_manager/src/helper.rs.
use neutron_contracts.Base.{
  List, Outcome, String, [], fail_if, nat_eq, not, ok, pair_eq, save, string_eq, unwrap, ℕ, ◌++◌,
  ◌==◌, ◌>>=◌, ◌>>◌, ◌∷◌,
}
use neutron_contracts.Base.Text.Search.{slice_to}
use neutron_contracts.StakeManager.Types.{
  IcaInfo, PoolInfo, QueryKind, TxType, coin_eq, era_status_eq, init_started,
  validator_update_status_eq,
}
use neutron_contracts.StakeManager.Errors.{ContractError, denom_trace_not_match}
use neutron_contracts.StakeManager.Messages.{
  Env, InstantiateLsd, MessageInfo, Response, SubMsg, instantiate_lsd, message,
  set_withdraw_address, submit_tx,
}
use neutron_contracts.StakeManager.Storage.{Storage}
use neutron_contracts.StakeManager.Helper.{
  Sdk, default_timeout_seconds, default_update_period, min_ntrn_ibc_fee, msg_with_sudo_callback,
}
use neutron_contracts.StakeManager.Setup.Icq.{
  Icq, default_decimals, query_denom_trace_from_ibc_denom, register_query_submsg,
}

unfoldable pub set_withdraw_sub_msg :
    Sdk → PoolInfo → IcaInfo → IcaInfo → Storage → Outcome ContractError (SubMsg × Storage)
set_withdraw_sub_msg sdk p pool_ica withdraw_ica s = do
  min_fee ← sdk.query_min_ibc_fee
  msg_with_sudo_callback
      (submit_tx (record {
        connection_id = pool_ica.ctrl_connection_id;
        interchain_account_id = p.ica_id;
        msgs =
            record {
              type_url = "/cosmos.distribution.v1beta1.MsgSetWithdrawAddress";
              value = set_withdraw_address pool_ica.ica_addr withdraw_ica.ica_addr;
            }
            ∷ [];
        memo = "";
        timeout = default_timeout_seconds;
        fee = min_ntrn_ibc_fee min_fee;
      }))
      (record {
        message = withdraw_ica.ica_addr;
        pool_addr = pool_ica.ica_addr;
        port_id = pool_ica.ctrl_port_id;
        tx_type = TxType.set_withdraw_addr;
      })
      s

-- The four registrations, of balances of both accounts, delegations and validators.
unfoldable pub register_queries :
    Icq → PoolInfo → IcaInfo → IcaInfo → Storage → Outcome ContractError (List SubMsg × Storage)
register_queries icq p pool_ica withdraw_ica s = do
  pool_balance ←
      icq.new_register_balance_query_msg pool_ica.ctrl_connection_id pool_ica.ica_addr
        p.remote_denom default_update_period
  (m₁, s₁) ← register_query_submsg pool_balance pool_ica.ica_addr QueryKind.balances s
  withdraw_balance ←
      icq.new_register_balance_query_msg withdraw_ica.ctrl_connection_id withdraw_ica.ica_addr
        p.remote_denom default_update_period
  (m₂, s₂) ← register_query_submsg withdraw_balance withdraw_ica.ica_addr QueryKind.balances s₁
  delegation ←
      icq.new_register_delegator_delegations_query_msg p.sdk_greater_or_equal_v047
        pool_ica.ctrl_connection_id pool_ica.ica_addr p.validator_addrs default_update_period
  (m₃, s₃) ← register_query_submsg delegation pool_ica.ica_addr QueryKind.delegations s₂
  validator ←
      icq.new_register_staking_validators_query_msg pool_ica.ctrl_connection_id p.validator_addrs 6
  (m₄, s₄) ← register_query_submsg validator pool_ica.ica_addr QueryKind.validators s₃
  ok (m₁ ∷ m₂ ∷ m₃ ∷ m₄ ∷ [], s₄)

-- The storage with the new pool, its first rate and its stack fee.
abbrev pub store_new_pool : String → PoolInfo → Storage → Storage
store_new_pool pool_addr p s = record s {
  pools = save pool_addr p s.pools;
  era_rate = save (pool_addr, p.era) p.rate s.era_rate;
  total_stack_fee = save pool_addr 0 s.total_stack_fee;
}

unfoldable pub deal_pool :
    Sdk
    → Icq
    → Env
    → MessageInfo
    → PoolInfo
    → IcaInfo
    → IcaInfo
    → ℕ
    → String
    → String
    → Storage
    → Outcome ContractError (Storage × Response)
unfolding register_queries set_withdraw_sub_msg
deal_pool sdk icq env info p pool_ica withdraw_ica lsd_code_id lsd_token_name lsd_token_symbol s =
    do
      denom_trace ← query_denom_trace_from_ibc_denom icq p.ibc_denom
      fail_if (not (denom_trace.base_denom == p.remote_denom)) denom_trace_not_match
      salt ← unwrap (slice_to 40 pool_ica.ica_addr)
      lsd_token ← icq.instantiate2_address lsd_code_id env.contract_address salt
      let p' = record p { lsd_token = lsd_token; status = init_started }
      let instantiate_msg : InstantiateLsd = record {
        admin = info.sender;
        code_id = lsd_code_id;
        name = lsd_token_name;
        symbol = lsd_token_symbol;
        decimals = default_decimals;
        mint_admin = p'.admin;
        minter = env.contract_address;
        salt = salt;
      }
      (queries, s₁) ←
          register_queries icq p' pool_ica withdraw_ica (store_new_pool pool_ica.ica_addr p' s)
      (set_withdraw, s₂) ← set_withdraw_sub_msg sdk p' pool_ica withdraw_ica s₁
      ok (s₂, message (instantiate_lsd instantiate_msg) ∷ (queries ++ set_withdraw ∷ []))
