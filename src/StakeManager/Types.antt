-- ===== src/StakeManager/Types.antt =====
-- The data types of contracts/stake_manager/src/state.rs. Amounts, heights, eras and times are
-- natural numbers; addresses, denominations and identifiers are texts.
use neutron_contracts.Base.{
  ℕ, String, ◌≡◌, Bool, List, Eq, eqb, ◌↔◌, ◌&&◌, ◌==◌, ==_iff, string_eq, nat_eq, arith, true,
  false,
}
use neutron_contracts.Base.Int.{ℤ}

abbrev pub Addr : Type 0
Addr = String

pub record Coin : Type 0 where
  pub denom : String
  pub amount : ℕ

pub record Stack : Type 0 where
  pub admin : Addr
  pub stack_fee_receiver : Addr
  pub stack_fee_commission : ℕ
  pub pools : List String
  pub lsd_token_code_id : ℕ

pub record EraSnapshot : Type 0 where
  pub era : ℕ
  pub bond : ℕ
  pub unbond : ℕ
  pub active : ℕ
  pub restake_amount : ℕ
  pub last_step_height : ℕ

pub data EraStatus : Type 0 where
  register_ended init_started init_failed : EraStatus
  era_update_started era_update_ended : EraStatus
  bond_started bond_ended : EraStatus
  withdraw_started withdraw_ended : EraStatus
  rebond_started rebond_ended active_ended : EraStatus

pub data ValidatorUpdateStatus : Type 0 where
  start wait_query_update end : ValidatorUpdateStatus

pub data WithdrawStatus : Type 0 where
  default pending : WithdrawStatus

pub record PoolInfo : Type 0 where
  pub bond : ℕ
  pub unbond : ℕ
  pub active : ℕ
  pub lsd_token : Addr
  pub ica_id : String
  pub ibc_denom : String
  pub channel_id_of_ibc_denom : String
  pub remote_denom : String
  pub validator_addrs : List String
  pub era : ℕ
  pub rate : ℕ
  pub era_seconds : ℕ
  pub offset : ℤ
  pub minimal_stake : ℕ
  pub unstake_times_limit : ℕ
  pub next_unstake_index : ℕ
  pub unbonding_period : ℕ
  pub status : EraStatus
  pub validator_update_status : ValidatorUpdateStatus
  pub unbond_commission : ℕ
  pub platform_fee_commission : ℕ
  pub total_platform_fee : ℕ
  pub total_lsd_token_amount : ℕ
  pub platform_fee_receiver : Addr
  pub admin : Addr
  pub share_tokens : List Coin
  pub redeemming_share_token_denom : List String
  pub era_snapshot : EraSnapshot
  pub paused : Bool
  pub lsm_support : Bool
  pub lsm_pending_limit : ℕ
  pub rate_change_limit : ℕ
  pub sdk_greater_or_equal_v047 : Bool

pub record UnstakeInfo : Type 0 where
  pub era : ℕ
  pub pool_addr : String
  pub unstaker : String
  pub amount : ℕ
  pub status : WithdrawStatus
  pub index : ℕ

pub record IcaInfo : Type 0 where
  pub ctrl_connection_id : String
  pub host_connection_id : String
  pub ctrl_channel_id : String
  pub host_channel_id : String
  pub ctrl_port_id : String
  pub ica_addr : String

-- The delegations and balances that the interchain queries report.
pub record Delegation : Type 0 where
  pub delegator : Addr
  pub validator : String
  pub amount : Coin

pub record DelegatorDelegationsResponse : Type 0 where
  pub delegations : List Delegation
  pub last_submitted_local_height : ℕ

pub record BalanceResponse : Type 0 where
  pub coins : List Coin
  pub last_submitted_local_height : ℕ

pub data QueryKind : Type 0 where
  balances delegations validators : QueryKind

-- `QueryKind::to_string`
unfoldable pub query_kind_to_string : QueryKind → String
query_kind_to_string balances = "balances"
query_kind_to_string delegations = "delegations"
query_kind_to_string validators = "validators"

pub data TxType : Type 0 where
  set_withdraw_addr update_validator rm_validator user_withdraw : TxType
  era_update era_bond era_collect_withdraw era_rebond : TxType
  redeem_token_for_share stake_lsm : TxType

pub record SudoPayload : Type 0 where
  pub message : String
  pub pool_addr : String
  pub port_id : String
  pub tx_type : TxType

-- The derived equality of the enums, by the position of the constructor.
abbrev pub era_status_code : EraStatus → ℕ
era_status_code register_ended = 0
era_status_code init_started = 1
era_status_code init_failed = 2
era_status_code era_update_started = 3
era_status_code era_update_ended = 4
era_status_code bond_started = 5
era_status_code bond_ended = 6
era_status_code withdraw_started = 7
era_status_code withdraw_ended = 8
era_status_code rebond_started = 9
era_status_code rebond_ended = 10
era_status_code active_ended = 11

abbrev pub beq_era_status : EraStatus → EraStatus → Bool
beq_era_status a b = eqb (era_status_code a) (era_status_code b)

pub beq_era_status_iff : (a b : EraStatus) → (beq_era_status a b ≡ true) ↔ (a ≡ b)
beq_era_status_iff a b = ground arith

instance abbrev pub era_status_eq : Eq EraStatus
era_status_eq = record { same = beq_era_status; same_iff = beq_era_status_iff }

abbrev pub validator_update_status_code : ValidatorUpdateStatus → ℕ
validator_update_status_code start = 0
validator_update_status_code wait_query_update = 1
validator_update_status_code end = 2

abbrev pub beq_validator_update_status : ValidatorUpdateStatus → ValidatorUpdateStatus → Bool
beq_validator_update_status a b =
    eqb (validator_update_status_code a) (validator_update_status_code b)

pub beq_validator_update_status_iff :
    (a b : ValidatorUpdateStatus) → (beq_validator_update_status a b ≡ true) ↔ (a ≡ b)
beq_validator_update_status_iff a b = ground arith

instance abbrev pub validator_update_status_eq : Eq ValidatorUpdateStatus
validator_update_status_eq = record {
  same = beq_validator_update_status;
  same_iff = beq_validator_update_status_iff;
}

abbrev pub is_pending : WithdrawStatus → Bool
is_pending default = false
is_pending pending = true

abbrev pub beq_coin : Coin → Coin → Bool
beq_coin a b = a.denom == b.denom && a.amount == b.amount

pub beq_coin_iff : (a b : Coin) → (beq_coin a b ≡ true) ↔ (a ≡ b)
beq_coin_iff a b = ground (arith, ==_iff a.denom b.denom)

instance abbrev pub coin_eq : Eq Coin
coin_eq = record { same = beq_coin; same_iff = beq_coin_iff }
