-- ===== src/StakeManager/Helper.antt =====
-- contracts/stake_manager/src/helper.rs and query.rs: fees, message builders and the interchain
-- queries. The neutron SDK is a parameter.
use neutron_contracts.Base.{
  ℕ, String, Bool, false, not, ◌&&◌, List, [], ◌∷◌, some, Outcome, ok, ◌>>=◌, ◌>>◌, fail_if,
  string_eq, nat_eq, pair_eq, may_load, retain, leb, ◌==◌,
}
use neutron_contracts.Base.Uint128
use neutron_contracts.StakeManager.Types.{
  Addr, Coin, Delegation, DelegatorDelegationsResponse, BalanceResponse, IcaInfo, QueryKind,
  query_kind_to_string, SudoPayload,
}
use neutron_contracts.StakeManager.Types
use neutron_contracts.StakeManager.Errors.{ContractError, params_error_funds_not_match}
use neutron_contracts.StakeManager.Messages.{
  MessageInfo, IbcFee, ProtobufAny, Msg, SubMsg, delegate, undelegate, begin_redelegate,
  withdraw_delegator_reward, send,
}
use neutron_contracts.StakeManager.Storage.{Storage, or_not_found, save_reply_payload}

abbrev pub fee_denom : String
fee_denom = "untrn"

abbrev pub cal_base : ℕ
cal_base = 1000000

abbrev pub default_rate : ℕ
default_rate = 1000000

abbrev pub stake_split_threshold : ℕ
stake_split_threshold = 10000

-- 30 * 60 * 60
abbrev pub default_timeout_seconds : ℕ
default_timeout_seconds = 108000

abbrev pub default_update_period : ℕ
default_update_period = 86400

abbrev pub default_fast_period : ℕ
default_fast_period = 60

pub data QueryType : Type 0 where
  kv tx : QueryType

pub record RegisteredQuery : Type 0 where
  pub query_type : QueryType
  pub last_submitted_result_local_height : ℕ

-- What the contract calls of the neutron SDK. The Boolean of the two readers of query results
-- chooses between the formats of the SDK 0.47 and 0.45.
pub record Sdk : Type 0 where
  pub query_min_ibc_fee : Outcome ContractError IbcFee
  pub get_registered_query : ℕ → Outcome ContractError RegisteredQuery
  pub check_query_type : QueryType → QueryType → Outcome ContractError (Unit {0})
  pub query_kv_balances : Bool → ℕ → Outcome ContractError (List Coin)
  pub query_kv_delegations : Bool → ℕ → Outcome ContractError (List Delegation)
  pub update_interchain_query : (query_id period : ℕ) → Outcome ContractError Msg

abbrev pub filter_fee : List Coin → List Coin
filter_fee = retain (λ a. a.denom == fee_denom)

unfoldable pub min_ntrn_ibc_fee : IbcFee → IbcFee
min_ntrn_ibc_fee fee = record {
  recv_fee = filter_fee fee.recv_fee;
  ack_fee = filter_fee fee.ack_fee;
  timeout_fee = filter_fee fee.timeout_fee;
}

abbrev pub first_amount : List Coin → ℕ
first_amount [] = 0
first_amount (c ∷ cs) = c.amount

unfoldable pub total_ibc_fee : IbcFee → Outcome ContractError ℕ
total_ibc_fee ibc_fee = do
  two ← Uint128.add (first_amount ibc_fee.recv_fee) (first_amount ibc_fee.ack_fee)
  Uint128.add two (first_amount ibc_fee.timeout_fee)

-- `funds.len() == 1 && funds[0].denom == FEE_DENOM && funds[0].amount >= total`
abbrev pub pays_fee : List Coin → ℕ → Bool
pays_fee [] total = false
pays_fee (c ∷ []) total = c.denom == fee_denom && leb total c.amount
pays_fee (c ∷ d ∷ cs) total = false

unfoldable pub check_ibc_fee : Sdk → MessageInfo → Outcome ContractError IbcFee
check_ibc_fee sdk info = do
  min_fee ← sdk.query_min_ibc_fee
  let ibc_fee = min_ntrn_ibc_fee min_fee
  total ← total_ibc_fee ibc_fee
  fail_if (not (pays_fee info.funds total)) params_error_funds_not_match
  ok ibc_fee

unfoldable pub gen_delegation_txs : String → String → String → ℕ → ProtobufAny
gen_delegation_txs delegator validator remote_denom amount = record {
  type_url = "/cosmos.staking.v1beta1.MsgDelegate";
  value = delegate delegator validator remote_denom amount;
}

unfoldable pub gen_redelegate_txs : String → String → String → String → ℕ → ProtobufAny
gen_redelegate_txs delegator source target remote_denom amount = record {
  type_url = "/cosmos.staking.v1beta1.BeginRedelegate";
  value = begin_redelegate delegator source target remote_denom amount;
}

unfoldable pub gen_msg_send : String → String → String → ℕ → ProtobufAny
gen_msg_send from_address to_address denom amount = record {
  type_url = "/cosmos.bank.v1beta1.MsgSend";
  value = send from_address to_address denom amount;
}

-- Two messages that execute_era_bond.rs builds in place.
unfoldable pub undelegate_msg : String → String → String → ℕ → ProtobufAny
undelegate_msg delegator validator denom amount = record {
  type_url = "/cosmos.staking.v1beta1.MsgUndelegate";
  value = undelegate delegator validator denom amount;
}

unfoldable pub withdraw_msg : String → String → ProtobufAny
withdraw_msg delegator validator = record {
  type_url = "/cosmos.distribution.v1beta1.MsgWithdrawDelegatorReward";
  value = withdraw_delegator_reward delegator validator;
}

unfoldable pub get_query_id : Storage → String → QueryKind → Outcome ContractError ℕ
get_query_id s addr query_kind = do
  reply_id ← or_not_found (may_load (addr, query_kind_to_string query_kind) s.address_to_reply_id)
  or_not_found (may_load reply_id s.reply_id_to_query_id)

-- The pool's and the withdraw account's entries of `INFO_OF_ICA_ID`
unfoldable pub load_ica : String → Storage → Outcome ContractError (IcaInfo × IcaInfo × Addr)
load_ica ica_id s = or_not_found (may_load ica_id s.info_of_ica_id)

unfoldable pub get_update_pool_icq_msgs :
    Sdk → Storage → String → String → ℕ → Outcome ContractError (List Msg)
get_update_pool_icq_msgs sdk s pool_addr pool_ica_id period = do
  pool_balances_query_id ← get_query_id s pool_addr Types.balances
  (_, withdraw_ica_info, _) ← load_ica pool_ica_id s
  withdraw_balances_query_id ← get_query_id s withdraw_ica_info.ica_addr Types.balances
  pool_delegations_query_id ← get_query_id s pool_addr Types.delegations
  pool_validators_query_id ← get_query_id s pool_addr Types.validators
  m₁ ← sdk.update_interchain_query pool_balances_query_id period
  m₂ ← sdk.update_interchain_query withdraw_balances_query_id period
  m₃ ← sdk.update_interchain_query pool_delegations_query_id period
  m₄ ← sdk.update_interchain_query pool_validators_query_id period
  ok (m₁ ∷ m₂ ∷ m₃ ∷ m₄ ∷ [])

unfoldable pub query_balance_by_addr :
    Sdk → Storage → String → Bool → Outcome ContractError BalanceResponse
query_balance_by_addr sdk s addr v047 = do
  registered_query_id ← get_query_id s addr Types.balances
  registered_query ← sdk.get_registered_query registered_query_id
  sdk.check_query_type registered_query.query_type kv
  coins ← sdk.query_kv_balances v047 registered_query_id
  ok (record {
    coins = coins;
    last_submitted_local_height = registered_query.last_submitted_result_local_height;
  })

unfoldable pub query_delegation_by_addr :
    Sdk → Storage → String → Bool → Outcome ContractError DelegatorDelegationsResponse
query_delegation_by_addr sdk s addr v047 = do
  registered_query_id ← get_query_id s addr Types.delegations
  registered_query ← sdk.get_registered_query registered_query_id
  sdk.check_query_type registered_query.query_type kv
  delegations ← sdk.query_kv_delegations v047 registered_query_id
  ok (record {
    delegations = delegations;
    last_submitted_local_height = registered_query.last_submitted_result_local_height;
  })

-- `msg_with_sudo_callback` of tx_callback.rs
unfoldable pub msg_with_sudo_callback :
    Msg → SudoPayload → Storage → Outcome ContractError (SubMsg × Storage)
msg_with_sudo_callback m payload s = do
  (id, s') ← save_reply_payload payload s
  ok (record { reply_on_success = some id; msg = m }, s')
