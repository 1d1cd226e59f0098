-- ===== src/StakeManager/Messages.antt =====
-- What the contract sends: messages to the token contract, interchain transactions and transfers,
-- and what a call receives. Protobuf and JSON encodings are left out: a message is its fields.
use neutron_contracts.Base.{List, Option, String, nat_eq, none, pair_eq, string_eq, ℕ, ◌/◌}
use neutron_contracts.StakeManager.Types.{Addr, Coin}

pub record Env : Type 0 where
  pub height : ℕ
  pub nanos : ℕ
  pub contract_address : Addr

-- `env.block.time.seconds()`
abbrev pub seconds : Env → ℕ
seconds env = env.nanos / 1000000000

pub record MessageInfo : Type 0 where
  pub sender : Addr
  pub funds : List Coin

-- The messages that the interchain account executes on the host chain.
pub data HostMsg : Type 0 where
  delegate : (delegator validator denom : String) (amount : ℕ) → HostMsg
  undelegate : (delegator validator denom : String) (amount : ℕ) → HostMsg
  begin_redelegate : (delegator source target denom : String) (amount : ℕ) → HostMsg
  withdraw_delegator_reward : (delegator validator : String) → HostMsg
  set_withdraw_address : (delegator withdraw : String) → HostMsg
  send : (from_address to_address denom : String) (amount : ℕ) → HostMsg
  redeem_token_for_share : (delegator denom : String) (amount : ℕ) → HostMsg

pub record ProtobufAny : Type 0 where
  pub type_url : String
  pub value : HostMsg

pub record IbcFee : Type 0 where
  pub recv_fee : List Coin
  pub ack_fee : List Coin
  pub timeout_fee : List Coin

pub record IbcTransfer : Type 0 where
  pub source_port : String
  pub source_channel : String
  pub sender : String
  pub receiver : String
  pub token : Coin
  pub timeout_timestamp : ℕ
  pub memo : String
  pub fee : IbcFee

pub record SubmitTx : Type 0 where
  pub connection_id : String
  pub interchain_account_id : String
  pub msgs : List ProtobufAny
  pub memo : String
  pub timeout : ℕ
  pub fee : IbcFee

-- A key of the remote chain's store that an interchain query reads.
pub record KvKey : Type 0 where
  pub path : String
  pub key : List ℕ

pub record RegisterInterchainQuery : Type 0 where
  pub keys : List KvKey
  pub connection_id : String
  pub update_period : ℕ

-- `WasmMsg::Instantiate2` of a share token without initial balances: the minter is the contract,
-- the admin of the minters is the pool's, and there is no cap.
pub record InstantiateLsd : Type 0 where
  pub admin : Addr
  pub code_id : ℕ
  pub name : String
  pub symbol : String
  pub decimals : ℕ
  pub mint_admin : Addr
  pub minter : Addr
  pub salt : String

pub data Msg : Type 0 where
  mint : (contract recipient : String) (amount : ℕ) → Msg
  transfer_from : (contract owner recipient : String) (amount : ℕ) → Msg
  burn_from : (contract owner : String) (amount : ℕ) → Msg
  bank_send : (to_address : String) (amount : List Coin) → Msg
  ibc_transfer : IbcTransfer → Msg
  submit_tx : SubmitTx → Msg
  update_interchain_query : (query_id period : ℕ) → Msg
  update_query_keys : (query_id : ℕ) (keys : List KvKey) → Msg
  register_interchain_query : RegisterInterchainQuery → Msg
  register_interchain_account :
      (connection_id interchain_account_id : String) (register_fee : Option (List Coin)) → Msg
  instantiate_lsd : InstantiateLsd → Msg

-- A message with the id under which its success is reported, if it is.
pub record SubMsg : Type 0 where
  pub reply_on_success : Option ℕ
  pub msg : Msg

abbrev pub Response : Type 0
Response = List SubMsg

-- `add_message`
abbrev pub message : Msg → SubMsg
message m = record { reply_on_success = none; msg = m }
