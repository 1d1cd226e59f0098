-- ===== src/StakeManager/Tests/Callbacks.antt =====
-- The theorems on what comes back from the remote chain, at concrete storages.
use neutron_contracts.Base.{
  String, [], arith, contains, false, may_load, nat_eq, ok, pair_eq, refl, retain, save, some,
  string_eq, true, ℕ, ◌<◌, ◌∷◌, ◌≡◌, ◌≢◌, ◌≤◌,
}
use neutron_contracts.Base.Text.{join}
use neutron_contracts.StakeManager.Types.{
  PoolInfo, SudoPayload, active_ended, coin_eq, end, era_status_eq, query_kind_to_string,
  update_validator, validator_update_status_eq, wait_query_update,
}
use neutron_contracts.StakeManager.Messages.{Response, SubMsg, message, mint}
use neutron_contracts.StakeManager.Storage.{
  Storage, get_next_reply_id, query_reply_id_range_start, read_reply_payload, reply_id_range_end,
  reply_id_range_start, save_reply_payload,
}
use neutron_contracts.StakeManager.Helper.{
  Sdk, check_ibc_fee, get_query_id, kv, load_ica, min_ntrn_ibc_fee, msg_with_sudo_callback,
  query_delegation_by_addr, total_ibc_fee,
}
use neutron_contracts.StakeManager.Validators.{
  execute_pool_update_validator, redelegate_all, sudo_update_validator_callback,
  sudo_update_validator_failed_callback,
}
use neutron_contracts.StakeManager.Validators.Acknowledged.{sudo_update_validator_callback_keeps}
use neutron_contracts.Base.Uint128
use neutron_contracts.Base.U64
use neutron_contracts.StakeManager.Storage.ReplyId.{InRange, save_reply_payload_total}
use neutron_contracts.StakeManager.Withdraw.{
  check_unstake, execute_withdraw, sudo_withdraw_failed_callback, take_unstakes,
}
use neutron_contracts.StakeManager.Withdraw.Paid.{withdraw_payload}
use neutron_contracts.StakeManager.Withdraw.Restored.{execute_withdraw_restored}
use neutron_contracts.StakeManager.Validators.Update.{
  Replaces, execute_pool_update_validator-Replaces,
  sudo_update_validator_failed_callback_unrestored,
}
use neutron_contracts.StakeManager.Tests.{
  active_storage, from, ica_info, ntrn, pool_in, run, test_sdk, withdrawn,
}

abbrev kept_payload : SudoPayload
kept_payload = withdraw_payload "pool" "cosmos1alice" "alice" (1 ∷ []) 250 ica_info.ctrl_port_id

execute_withdraw_restored_example :
    (t' : Storage) × (sudo_withdraw_failed_callback kept_payload withdrawn.0 ≡ ok (t', []))
    × ((q : String) (j : ℕ)
        → may_load (q, j) t'.unstakes_of_index ≡ may_load (q, j) active_storage.unstakes_of_index)
unfolding execute_withdraw take_unstakes check_unstake Uint128.add U64.add check_ibc_fee
    total_ibc_fee min_ntrn_ibc_fee load_ica msg_with_sudo_callback save_reply_payload
    get_next_reply_id may_load save retain
execute_withdraw_restored_example =
    execute_withdraw_restored test_sdk (from "alice" (ntrn 2000)) "pool" "cosmos1alice" (1 ∷ [])
      active_storage withdrawn.0 withdrawn.0 withdrawn.1 kept_payload refl refl refl refl
      (omega arith, tt) refl

-- An SDK whose queries report a delegation to the first validator.
abbrev delegating_sdk : Sdk
delegating_sdk = record test_sdk {
  get_registered_query =
      λ _. ok (record { query_type = kv; last_submitted_result_local_height = 60 });
  query_kv_delegations = λ _ _. ok (
      record {
        delegator = "cosmos1pool";
        validator = "val1";
        amount = record { denom = "uatom"; amount = 70 };
      }
      ∷ []);
}

abbrev queried_storage : Storage
queried_storage = record active_storage {
  address_to_reply_id = (("pool", "delegations"), 5) ∷ [];
  reply_id_to_query_id = (5, 9) ∷ [];
}

abbrev replacing : Storage × Response
replacing = run queried_storage (
    execute_pool_update_validator delegating_sdk (from "admin" (ntrn 2000)) "pool" "val1" "val3"
      queried_storage)

execute_pool_update_validator-Replaces_example :
    ((from "admin" (ntrn 2000)).sender ≡ (pool_in active_ended).admin)
    × ((pool_in active_ended).status ≡ active_ended)
    × ((pool_in active_ended).validator_update_status ≡ end)
    × ((q : PoolInfo) × (may_load "pool" replacing.0.pools ≡ some q)
        × Replaces "val1" "val3" ("val1" ∷ "val2" ∷ []) q.validator_addrs)
unfolding execute_pool_update_validator redelegate_all query_delegation_by_addr get_query_id
    query_kind_to_string contains Uint128.add U64.add check_ibc_fee total_ibc_fee min_ntrn_ibc_fee
    load_ica msg_with_sudo_callback save_reply_payload get_next_reply_id may_load save retain
execute_pool_update_validator-Replaces_example =
    execute_pool_update_validator-Replaces delegating_sdk (from "admin" (ntrn 2000)) "pool" "val1"
      "val3" queried_storage replacing.0 replacing.1 (pool_in active_ended) refl refl

abbrev replace_payload : SudoPayload
replace_payload = record {
  message = "val2_val3";
  pool_addr = "pool";
  port_id = "icacontroller-1";
  tx_type = update_validator;
}

sudo_update_validator_failed_callback_unrestored_example :
    (t' : Storage) × (q : PoolInfo) × (sudo_update_validator_failed_callback replace_payload
        replacing.0
      ≡ ok (t', []))
    × (may_load "pool" t'.pools ≡ some q)
    × (q.validator_update_status ≡ end)
    × (contains q.validator_addrs "val1" ≡ false)
    × (contains q.validator_addrs "val3" ≡ true)
unfolding execute_pool_update_validator redelegate_all query_delegation_by_addr get_query_id
    query_kind_to_string contains Uint128.add U64.add check_ibc_fee total_ibc_fee min_ntrn_ibc_fee
    load_ica msg_with_sudo_callback save_reply_payload get_next_reply_id may_load save retain
sudo_update_validator_failed_callback_unrestored_example =
    sudo_update_validator_failed_callback_unrestored delegating_sdk (from "admin" (ntrn 2000))
      "val1" "val3" queried_storage replacing.0 replacing.0 replacing.1 replace_payload
      (pool_in active_ended) refl refl refl

-- The storage in which the pool's account is the pool's address.
abbrev addressed_storage : Storage
addressed_storage = record queried_storage {
  info_of_ica_id = ("ica", (record ica_info { ica_addr = "pool" }, ica_info, "admin")) ∷ [];
}

abbrev addressed : Storage × Response
addressed = run addressed_storage (
    execute_pool_update_validator delegating_sdk (from "admin" (ntrn 2000)) "pool" "val1" "val3"
      addressed_storage)

abbrev first_message : Response → SubMsg
first_message [] = message (mint "" "" 0)
first_message (m ∷ r) = m

sudo_update_validator_callback_keeps_example :
    (t' : Storage) × (q : PoolInfo) × (sudo_update_validator_callback replace_payload addressed.0
      ≡ ok (t', []))
    × (may_load "pool" t'.pools ≡ some q)
    × (q.validator_addrs ≡ "val2" ∷ "val3" ∷ [])
    × (q.validator_update_status ≡ wait_query_update)
unfolding execute_pool_update_validator redelegate_all query_delegation_by_addr get_query_id
    query_kind_to_string contains Uint128.add U64.add check_ibc_fee total_ibc_fee min_ntrn_ibc_fee
    load_ica msg_with_sudo_callback save_reply_payload read_reply_payload get_next_reply_id may_load
    save retain join
sudo_update_validator_callback_keeps_example =
    sudo_update_validator_callback_keeps delegating_sdk (from "admin" (ntrn 2000)) "val1" "val3"
      addressed_storage addressed.0 addressed.0 (first_message addressed.1) (pool_in active_ended)
      1000000000 replace_payload refl refl refl refl (refl, (refl, tt)) refl

save_reply_payload_total_example :
    (id : ℕ) × (s' : Storage) × (save_reply_payload kept_payload
        (record active_storage { latest_reply_id = some reply_id_range_end })
      ≡ ok (id, s'))
    × ((reply_id_range_start ≤ id) × (id ≤ reply_id_range_end))
    × (id < query_reply_id_range_start)
    × InRange s'.latest_reply_id
    × (s'.latest_reply_id ≢ some id)
    × (read_reply_payload s' id ≡ ok kept_payload)
save_reply_payload_total_example =
    save_reply_payload_total kept_payload
      (record active_storage { latest_reply_id = some reply_id_range_end })
      (omega arith, omega arith)
