-- ===== src/StakeManager/Setup/Icq.antt =====
-- The registration of interchain queries: query_callback.rs, and what helper.rs has for it. The
-- neutron SDK's side and the chain's answers are a parameter.
pub mod Registered
use neutron_contracts.Base.{
  Bool, List, Option, Outcome, String, [], err, false, if◌then◌else◌, may_load, nat_eq, none, ok,
  ok_or, pair_eq, panic, remove, save, some, string_eq, true, ℕ, ◌/◌, ◌>>=◌, ◌>>◌, ◌∷◌,
}
use neutron_contracts.Base.Text.{split}
use neutron_contracts.StakeManager.Types.{
  Addr, Coin, PoolInfo, QueryKind, coin_eq, era_status_eq, query_kind_to_string,
  validator_update_status_eq,
}
use neutron_contracts.StakeManager.Errors.{ContractError, denom_not_match, icq_new_key_build_failed}
use neutron_contracts.StakeManager.Messages.{
  KvKey, Msg, Response, SubMsg, message, register_interchain_query, update_interchain_query,
  update_query_keys,
}
use neutron_contracts.StakeManager.Storage.{Storage, get_next_query_reply_id}
use neutron_contracts.StakeManager.Helper.{
  Sdk, default_update_period, filter_fee, first_amount, get_query_id, kv,
}

abbrev pub default_decimals : ℕ
default_decimals = 6

abbrev pub default_era_seconds : ℕ
default_era_seconds = 86400

abbrev pub min_era_seconds : ℕ
min_era_seconds = 28800

abbrev pub max_era_seconds : ℕ
max_era_seconds = 86400

abbrev pub unbonding_seconds : ℕ
unbonding_seconds = 1814400

abbrev pub validater_len_limit : ℕ
validater_len_limit = 10

abbrev pub interchain_account_id_len_limit : ℕ
interchain_account_id_len_limit = 10

abbrev pub ica_withdraw_sufix : String
ica_withdraw_sufix = "-withdraw_addr"

pub record DenomTrace : Type 0 where
  pub path : String
  pub base_denom : String

-- The answer of a counterparty that has opened a channel.
pub record OpenAckVersion : Type 0 where
  pub version : String
  pub controller_connection_id : String
  pub host_connection_id : String
  pub address : String
  pub encoding : String
  pub tx_type : String

-- A validator as the interchain queries report it.
pub record Validator : Type 0 where
  pub operator_address : String
  pub tokens : String
  pub delegator_shares : String

-- What the contract calls of the SDK and of the chain when it sets up a pool. The Boolean chooses
-- between the formats of the SDK 0.47 and 0.45.
pub record Icq : Type 0 where
  pub new_register_balance_query_msg :
      (connection_id addr denom : String) (update_period : ℕ) → Outcome ContractError Msg
  pub new_register_delegator_delegations_query_msg :
      (v047 : Bool) (connection_id delegator : String) (validators : List String)
      (update_period : ℕ)
      → Outcome ContractError Msg
  pub new_register_staking_validators_query_msg :
      (connection_id : String) (validators : List String) (update_period : ℕ)
      → Outcome ContractError Msg
  pub update_query_keys : (query_id : ℕ) (keys : List KvKey) → Outcome ContractError Msg
  pub query_kv_validators : ℕ → Outcome ContractError (List Validator)
  pub query_denom_trace : (hash : String) → Outcome ContractError DenomTrace
  pub query_deposit : Outcome ContractError (List Coin)
  pub instantiate2_address : (code_id : ℕ) (creator salt : String) → Outcome ContractError Addr
  pub get_port_id : (contract interchain_account_id : String) → String
  pub parse_version : String → Option OpenAckVersion

unfoldable pub register_query_submsg :
    Msg → String → QueryKind → Storage → Outcome ContractError (SubMsg × Storage)
register_query_submsg msg addr query_kind s = do
  (next_reply_id, s') ← get_next_query_reply_id s
  let known = record s' {
    address_to_reply_id =
        save (addr, query_kind_to_string query_kind) next_reply_id s'.address_to_reply_id;
  }
  let sub_msg : SubMsg = record { reply_on_success = some next_reply_id; msg = msg }
  elim query_kind [
    | QueryKind.balances ↦ ok (sub_msg, known)
    | QueryKind.delegations ↦ ok (sub_msg, known)
    | QueryKind.validators ↦ ok (
      sub_msg,
      record known {
        reply_id_to_need_update = save next_reply_id true known.reply_id_to_need_update;
      },
    )
  ]

-- The reply to a registration, with the query's id in its data, if it can be parsed.
unfoldable pub write_reply_id_to_query_id :
    ℕ → Outcome ContractError ℕ → Storage → Outcome ContractError (Storage × Response)
write_reply_id_to_query_id reply_id resp s = do
  query_id ← resp
  ok (
    record s {
      reply_id_to_query_id = save reply_id query_id s.reply_id_to_query_id;
      query_id_to_reply_id = save query_id reply_id s.query_id_to_reply_id;
    },
    [],
  )

-- Whether the period of a query that has answered is to be set.
abbrev pub or_false : Option Bool → Bool
or_false none = false
or_false (some b) = b

unfoldable pub sudo_kv_query_result : Sdk → ℕ → Storage → Outcome ContractError (Storage × Response)
sudo_kv_query_result sdk query_id s = elim (may_load query_id s.query_id_to_reply_id) [
  | none ↦ ok (s, [])
  | some reply_id ↦ (do
    let s' = record s { query_id_to_reply_id = remove query_id s.query_id_to_reply_id }
    if or_false (may_load reply_id s'.reply_id_to_need_update)
        then (do
          update_msg ← sdk.update_interchain_query query_id default_update_period
          ok (
            record s' { reply_id_to_need_update = remove reply_id s'.reply_id_to_need_update },
            message update_msg ∷ [],
          ))
        else ok (s', []))
]

unfoldable pub query_validator_by_addr :
    Sdk → Icq → Storage → String → Outcome ContractError (List Validator)
query_validator_by_addr sdk icq s addr = do
  registered_query_id ← get_query_id s addr QueryKind.validators
  registered_query ← sdk.get_registered_query registered_query_id
  sdk.check_query_type registered_query.query_type kv
  icq.query_kv_validators registered_query_id

-- The part after the one slash of a text.
abbrev pub second_of_two : List String → Option String
second_of_two (a ∷ b ∷ []) = some b
second_of_two _ = none

unfoldable pub query_denom_trace_from_ibc_denom : Icq → String → Outcome ContractError DenomTrace
query_denom_trace_from_ibc_denom icq ibc_denom = do
  denom_hash ← ok_or (second_of_two (split "/" ibc_denom)) denom_not_match
  icq.query_denom_trace denom_hash

unfoldable pub total_icq_register_fee : List Coin → ℕ
total_icq_register_fee fee = first_amount (filter_fee fee)

-- The keys of a registration that the SDK has built.
abbrev pub keys_of : Outcome ContractError Msg → Outcome ContractError (List KvKey)
keys_of (ok (register_interchain_query q)) = ok q.keys
keys_of panic = panic
keys_of _ = err icq_new_key_build_failed

unfoldable pub deal_validators_icq_update :
    Icq → String → PoolInfo → String → Storage → Outcome ContractError (Storage × Response)
deal_validators_icq_update icq pool_addr p ctrl_connection_id s = do
  new_delegations_keys ← keys_of (
      icq.new_register_delegator_delegations_query_msg p.sdk_greater_or_equal_v047
        ctrl_connection_id pool_addr p.validator_addrs default_update_period)
  delegations_query_id ← get_query_id s pool_addr QueryKind.delegations
  update_pool_delegations_msg ← icq.update_query_keys delegations_query_id new_delegations_keys
  new_validators_keys ← keys_of (
      icq.new_register_staking_validators_query_msg ctrl_connection_id p.validator_addrs
        default_update_period)
  validators_query_id ← get_query_id s pool_addr QueryKind.validators
  update_pool_validators_msg ← icq.update_query_keys validators_query_id new_validators_keys
  ok (s, message update_pool_delegations_msg ∷ message update_pool_validators_msg ∷ [])
