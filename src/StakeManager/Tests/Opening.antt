-- ===== src/StakeManager/Tests/Opening.antt =====
-- The opening of a pool's two channels, at concrete values.
use neutron_contracts.Base.{
  [], false, may_load, nat_eq, ok, pair_eq, panic, refl, some, string_eq, true, ◌>>=◌, ◌∷◌, ◌≡◌,
}
use neutron_contracts.Base.Text.{split}
use neutron_contracts.Base.Text.Search.{has_text, strip_suffix}
use neutron_contracts.StakeManager.Types.{coin_eq, era_status_eq, validator_update_status_eq}
use neutron_contracts.StakeManager.Storage.{Storage}
use neutron_contracts.StakeManager.Helper.{load_ica}
use neutron_contracts.StakeManager.Setup.Icq.{Icq}
use neutron_contracts.StakeManager.Setup.Register.{account_of, unopened}
use neutron_contracts.StakeManager.Setup.Register.Opened.{
  Ack, acknowledge, both_open, sudo_open_ack-any_order, with_ack,
}
use neutron_contracts.StakeManager.Tests.{active_storage}

-- The counterparty's version is taken for the address of the account.
abbrev addressed_icq : Icq
addressed_icq = record {
  new_register_balance_query_msg = λ _ _ _ _. panic;
  new_register_delegator_delegations_query_msg = λ _ _ _ _ _. panic;
  new_register_staking_validators_query_msg = λ _ _ _. panic;
  update_query_keys = λ _ _. panic;
  query_kv_validators = λ _. panic;
  query_denom_trace = λ _. panic;
  query_deposit = ok [];
  instantiate2_address = λ _ _ _. panic;
  get_port_id = λ contract ica_id. ica_id;
  parse_version = λ text. some (record {
    version = "ics27-1";
    controller_connection_id = "connection-0";
    host_connection_id = "connection-7";
    address = text;
    encoding = "proto3";
    tx_type = "sdk_multi_msg";
  });
}

abbrev pool_opened : Ack addressed_icq true "new"
unfolding account_of has_text strip_suffix split
pool_opened = record {
  port_id = "icacontroller-manager.new";
  channel_id = "channel-3";
  counterparty_channel_id = "channel-30";
  counterparty_version = "cosmos1pool";
  raw = "new";
  version = _;
  names = refl;
  account = refl;
  parsed = refl;
  addressed = refl;
}

abbrev withdraw_opened : Ack addressed_icq false "new"
unfolding account_of has_text strip_suffix split
withdraw_opened = record {
  port_id = "icacontroller-manager.new-withdraw_addr";
  channel_id = "channel-4";
  counterparty_channel_id = "channel-40";
  counterparty_version = "cosmos1withdraw";
  raw = "new-withdraw_addr";
  version = _;
  names = refl;
  account = refl;
  parsed = refl;
  addressed = refl;
}

abbrev registered : Storage
registered = record active_storage {
  info_of_ica_id =
      (
        "new",
        (unopened "connection-0" "pool-port", unopened "connection-0" "withdraw-port", "admin"),
      )
      ∷ [];
}

sudo_open_ack-any_order_example :
    ((acknowledge pool_opened registered >>= λ (s', _). acknowledge withdraw_opened s')
      ≡ ok (
        both_open "new"
            (with_ack pool_opened (unopened "connection-0" "pool-port"))
            (with_ack withdraw_opened (unopened "connection-0" "withdraw-port"))
            "admin"
            registered,
        [],
      ))
    × ((acknowledge withdraw_opened registered >>= λ (s', _). acknowledge pool_opened s')
        ≡ ok (
          both_open "new"
              (with_ack pool_opened (unopened "connection-0" "pool-port"))
              (with_ack withdraw_opened (unopened "connection-0" "withdraw-port"))
              "admin"
              registered,
          [],
        ))
unfolding load_ica may_load pool_opened
sudo_open_ack-any_order_example =
    sudo_open_ack-any_order pool_opened withdraw_opened registered
      (unopened "connection-0" "pool-port") (unopened "connection-0" "withdraw-port") "admin" refl
      refl refl refl
