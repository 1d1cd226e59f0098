-- ===== src/StakeManager/Lsm.antt =====
-- contracts/stake_manager/src/execute_redeem_token_for_share.rs, and the callbacks of
-- execute_stake_lsm.rs.
use neutron_contracts.Base.{
  List, Option, Outcome, String, [], contains, eqb, fail_if, length, ltb, nat_eq, none, not, ok,
  ok_or, pair_eq, push, retain, some, string_eq, ◌++◌, ◌>>=◌, ◌>>◌, ◌||◌, ◌∷◌,
}
use neutron_contracts.Base.Text.{join, parse, split}
use neutron_contracts.Base.Uint128
use neutron_contracts.StakeManager.Types.{
  Coin, PoolInfo, SudoPayload, TxType, coin_eq, era_status_eq, validator_update_status_eq,
}
use neutron_contracts.StakeManager.Errors.{
  ContractError, duplicate_token, lsm_stake_not_support, share_token_not_exist,
  tokens_len_not_match, unsupported_message,
}
use neutron_contracts.StakeManager.Messages.{
  HostMsg, MessageInfo, ProtobufAny, Response, bank_send, message, mint, submit_tx,
}
use neutron_contracts.StakeManager.Storage.{Storage, load_pool, save_pool}
use neutron_contracts.StakeManager.Helper.{
  Sdk, cal_base, check_ibc_fee, default_timeout_seconds, load_ica, msg_with_sudo_callback,
}

-- `redeem_token_for_share_msg` of helper.rs
unfoldable pub redeem_msg : String → Coin → ProtobufAny
redeem_msg delegator token = record {
  type_url = "/cosmos.staking.v1beta1.MsgRedeemTokensForShares";
  value = HostMsg.redeem_token_for_share delegator token.denom token.amount;
}

-- The loop over the tokens, with the denominations seen so far.
unfoldable pub redeem_tokens :
    PoolInfo
    → String
    → List Coin
    → List String
    → Outcome ContractError (List String × List ProtobufAny)
redeem_tokens p ica_addr [] denoms = ok (denoms, [])
redeem_tokens p ica_addr (token ∷ tokens) denoms = do
  fail_if (not (contains p.share_tokens token)) share_token_not_exist
  fail_if (contains denoms token.denom) duplicate_token
  (all_denoms, msgs) ← redeem_tokens p ica_addr tokens (push denoms token.denom)
  ok (all_denoms, redeem_msg ica_addr token ∷ msgs)

unfoldable pub execute_redeem_token_for_share :
    Sdk → MessageInfo → String → List Coin → Storage → Outcome ContractError (Storage × Response)
unfolding redeem_tokens
execute_redeem_token_for_share sdk info pool_addr tokens s = do
  fail_if (eqb (length tokens) 0 || ltb 10 (length tokens)) tokens_len_not_match
  p ← load_pool pool_addr s
  fail_if (not p.lsm_support) lsm_stake_not_support
  (pool_ica_info, _, _) ← load_ica p.ica_id s
  (denoms, msgs) ← redeem_tokens p pool_ica_info.ica_addr tokens []
  ibc_fee ← check_ibc_fee sdk info
  (sub_msg, s') ←
      msg_with_sudo_callback
        (submit_tx (record {
          connection_id = pool_ica_info.ctrl_connection_id;
          interchain_account_id = p.ica_id;
          msgs = msgs;
          memo = "";
          timeout = default_timeout_seconds;
          fee = ibc_fee;
        }))
        (record {
          message = join "," denoms;
          pool_addr = pool_addr;
          port_id = pool_ica_info.ctrl_port_id;
          tx_type = TxType.redeem_token_for_share;
        })
        s
  let p' = record p { redeemming_share_token_denom = p.redeemming_share_token_denom ++ denoms }
  ok (save_pool pool_addr p' s', sub_msg ∷ [])

unfoldable pub sudo_redeem_token_for_share_callback :
    SudoPayload → Storage → Outcome ContractError (Storage × Response)
sudo_redeem_token_for_share_callback payload s = do
  p ← load_pool payload.pool_addr s
  let removed = split "," payload.message
  let p' = record p {
    share_tokens = retain (λ (t : Coin). not (contains removed t.denom)) p.share_tokens;
    redeemming_share_token_denom =
        retain (λ d. not (contains removed d)) p.redeemming_share_token_denom;
  }
  ok (save_pool payload.pool_addr p' s, [])

unfoldable pub sudo_redeem_token_for_share_failed_callback :
    SudoPayload → Storage → Outcome ContractError (Storage × Response)
sudo_redeem_token_for_share_failed_callback payload s = do
  p ← load_pool payload.pool_addr s
  let removed = split "," payload.message
  let p' = record p {
    redeemming_share_token_denom =
        retain (λ d. not (contains removed d)) p.redeemming_share_token_denom;
  }
  ok (save_pool payload.pool_addr p' s, [])

-- The five parts of the payload's message: staker, token amount, share token amount, the share
-- token's denomination here and its denomination on the host chain.
pub record LsmParts : Type 0 where
  pub staker : String
  pub token_amount : String
  pub share_token_amount : String
  pub share_token_ibc_denom : String
  pub share_token_denom : String

unfoldable pub lsm_parts : String → Option LsmParts
lsm_parts text = elim (split "_" text) [
  | a ∷ b ∷ c ∷ d ∷ e ∷ [] ↦ some (record {
    staker = a;
    token_amount = b;
    share_token_amount = c;
    share_token_ibc_denom = d;
    share_token_denom = e;
  })
  | _ ↦ none
]

unfoldable pub sudo_stake_lsm_callback :
    SudoPayload → Storage → Outcome ContractError (Storage × Response)
unfolding lsm_parts
sudo_stake_lsm_callback payload s = do
  parts ← ok_or (lsm_parts payload.message) (unsupported_message payload.message)
  token_amount ←
      ok_or (parse Uint128.modulus parts.token_amount) (unsupported_message payload.message)
  share_token_amount ←
      ok_or (parse Uint128.modulus parts.share_token_amount) (unsupported_message payload.message)
  p ← load_pool payload.pool_addr s
  active ← Uint128.add p.active token_amount
  scaled ← Uint128.mul token_amount cal_base
  lsd_token_amount ← Uint128.div scaled p.rate
  total ← Uint128.add p.total_lsd_token_amount lsd_token_amount
  let share : Coin = record { denom = parts.share_token_denom; amount = share_token_amount }
  let p' = record p {
    active = active;
    total_lsd_token_amount = total;
    share_tokens = push p.share_tokens share;
  }
  ok (
    save_pool payload.pool_addr p' s,
    message (mint p.lsd_token parts.staker lsd_token_amount) ∷ [],
  )

unfoldable pub sudo_stake_lsm_failed_callback :
    SudoPayload → Storage → Outcome ContractError (Storage × Response)
unfolding lsm_parts
sudo_stake_lsm_failed_callback payload s = do
  parts ← ok_or (lsm_parts payload.message) (unsupported_message payload.message)
  share_token_amount ←
      ok_or (parse Uint128.modulus parts.share_token_amount) (unsupported_message payload.message)
  let refund : Coin = record { denom = parts.share_token_ibc_denom; amount = share_token_amount }
  ok (s, message (bank_send parts.staker (refund ∷ [])) ∷ [])
