-- ===== src/StakeManager/Withdraw.antt =====
-- contracts/stake_manager/src/execute_withdraw.rs.
pub mod Taken
pub mod Paid
pub mod Restored
use neutron_contracts.Base.{
  List, Map, Outcome, String, [], contains, eqb, err, fail_if, if◌then◌else◌, length, ltb, map,
  may_load, nat_eq, none, not, ok, pair_eq, remove, save, some, string_eq, unwrap, ℕ, ◌==◌, ◌>>=◌,
  ◌>>◌, ◌∷◌,
}
use neutron_contracts.Base.Text.{concat, join, parse, split, to_string}
use neutron_contracts.Base.Uint128
use neutron_contracts.Base.U64
use neutron_contracts.StakeManager.Types.{
  Addr, PoolInfo, SudoPayload, UnstakeInfo, coin_eq, default, era_status_eq, is_pending, pending,
  user_withdraw, validator_update_status_eq,
}
use neutron_contracts.StakeManager.Errors.{
  ContractError, empty_unstake_list, encode_err_zero_withdraw_amount,
  unstake_index_not_withdrawable, unstake_index_pool_not_match, unstake_index_status_not_match,
  unstake_index_unstaker_not_match, unsupported_message,
}
use neutron_contracts.StakeManager.Messages.{MessageInfo, Response, submit_tx}
use neutron_contracts.StakeManager.Storage.{Storage, load_pool, or_not_found}
use neutron_contracts.StakeManager.Helper.{
  Sdk, check_ibc_fee, default_timeout_seconds, gen_msg_send, load_ica, msg_with_sudo_callback,
}

abbrev pub Unstakes : Type 0
Unstakes = Map (String × ℕ) UnstakeInfo

-- The checks on one unstake.
unfoldable pub check_unstake :
    PoolInfo → String → Addr → ℕ → UnstakeInfo → Outcome ContractError (Unit {0})
check_unstake p pool_addr sender index u = do
  fail_if (not (u.pool_addr == pool_addr)) (unstake_index_pool_not_match index)
  fail_if (not (u.unstaker == sender)) (unstake_index_unstaker_not_match index)
  fail_if (is_pending u.status) (unstake_index_status_not_match index)
  ready ← U64.add u.era p.unbonding_period
  fail_if (ltb p.era ready) (unstake_index_not_withdrawable index)

-- The loop over the indices: the sum of the amounts, and the unstakes marked pending.
unfoldable pub take_unstakes :
    PoolInfo → String → Addr → List ℕ → ℕ → Unstakes → Outcome ContractError (ℕ × Unstakes)
unfolding check_unstake
take_unstakes p pool_addr sender [] total m = ok (total, m)
take_unstakes p pool_addr sender (index ∷ indices) total m = do
  u ← or_not_found (may_load (pool_addr, index) m)
  check_unstake p pool_addr sender index u
  total' ← Uint128.add total u.amount
  take_unstakes p pool_addr sender indices total'
      (save (pool_addr, index) (record u { status = pending }) m)

-- `format!("{}_{}_{}_{}", total, sender, receiver, indices.join("_"))`
unfoldable pub withdraw_message : ℕ → Addr → Addr → List ℕ → String
withdraw_message total sender receiver indices = concat (to_string total) (
    String.◌∷◌ "_" (
      concat sender
        (String.◌∷◌ "_" (concat receiver (String.◌∷◌ "_" (join "_" (map to_string indices)))))))

unfoldable pub execute_withdraw :
    Sdk
    → MessageInfo
    → String
    → Addr
    → List ℕ
    → Storage
    → Outcome ContractError (Storage × Response)
execute_withdraw sdk info pool_addr receiver indices s = do
  fail_if (eqb (length indices) 0) empty_unstake_list
  p ← load_pool pool_addr s
  (total, unstakes) ← take_unstakes p pool_addr info.sender indices 0 s.unstakes_of_index
  fail_if (eqb total 0) encode_err_zero_withdraw_amount
  ibc_fee ← check_ibc_fee sdk info
  (pool_ica_info, _, _) ← load_ica p.ica_id s
  (sub_msg, s') ←
      msg_with_sudo_callback
        (submit_tx (record {
          connection_id = pool_ica_info.ctrl_connection_id;
          interchain_account_id = p.ica_id;
          msgs = gen_msg_send pool_addr receiver p.remote_denom total ∷ [];
          memo = "";
          timeout = default_timeout_seconds;
          fee = ibc_fee;
        }))
        (record {
          message = withdraw_message total info.sender receiver indices;
          pool_addr = pool_addr;
          port_id = pool_ica_info.ctrl_port_id;
          tx_type = user_withdraw;
        })
        (record s { unstakes_of_index = unstakes })
  ok (s', sub_msg ∷ [])

-- `unstakes.retain(…)`: the indices kept, and the map without those removed.
unfoldable pub remove_unstakes : String → List String → List ℕ → Unstakes → List ℕ × Unstakes
remove_unstakes pool_addr index_list [] m = ([], m)
remove_unstakes pool_addr index_list (i ∷ is) m =
    let found = contains index_list (to_string i) in
    let (kept, m') =
      remove_unstakes pool_addr index_list is (if found then remove (pool_addr, i) m else m) in
    (if found then kept else i ∷ kept, m')

-- The indices of a user after a withdrawal has arrived.
unfoldable pub finish_withdraw : String → Addr → List String → Storage → Storage
unfolding remove_unstakes
finish_withdraw pool_addr user index_list s =
    elim (may_load (user, pool_addr) s.unstakes_index_for_user) [
      | none ↦ s
      | some unstakes ↦
          let (kept, m) = remove_unstakes pool_addr index_list unstakes s.unstakes_of_index in
          record s {
            unstakes_of_index = m;
            unstakes_index_for_user = save (user, pool_addr) kept s.unstakes_index_for_user;
          }
    ]

unfoldable pub sudo_withdraw_callback :
    SudoPayload → Storage → Outcome ContractError (Storage × Response)
sudo_withdraw_callback payload s = elim (split "_" payload.message) [
  | total ∷ user ∷ receiver ∷ index ∷ indices ↦
      ok (finish_withdraw payload.pool_addr user (user ∷ receiver ∷ index ∷ indices) s, [])
  | _ ↦ err (unsupported_message payload.message)
]

-- `parts.iter().skip(3)`: each index is parsed, and its unstake is released again.
unfoldable pub release_unstakes : String → List String → Unstakes → Outcome ContractError Unstakes
release_unstakes pool_addr [] m = ok m
release_unstakes pool_addr (part ∷ parts) m = do
  index ← unwrap (parse U64.modulus part)
  u ← or_not_found (may_load (pool_addr, index) m)
  release_unstakes pool_addr parts (save (pool_addr, index) (record u { status = default }) m)

abbrev pub skip_three : List String → List String
skip_three [] = []
skip_three (a ∷ []) = []
skip_three (a ∷ b ∷ []) = []
skip_three (a ∷ b ∷ c ∷ parts) = parts

unfoldable pub sudo_withdraw_failed_callback :
    SudoPayload → Storage → Outcome ContractError (Storage × Response)
unfolding release_unstakes
sudo_withdraw_failed_callback payload s = do
  m ←
      release_unstakes payload.pool_addr (skip_three (split "_" payload.message))
        s.unstakes_of_index
  ok (record s { unstakes_of_index = m }, [])
