-- ===== src/StakeManager/Storage.antt =====
-- The storage of contracts/stake_manager/src/state.rs: one field for each `Item` and `Map`. An item
-- that was never saved is `none`. The stored bytes of a payload are the payload.
pub mod ReplyId
use neutron_contracts.Base.{
  Bool, List, Map, Option, Outcome, String, [], if◌then◌else◌, ltb, may_load, nat_eq, none, ok,
  ok_or, pair_eq, save, some, string_eq, ℕ, ◌>>=◌,
}
use neutron_contracts.Base.U64
use neutron_contracts.StakeManager.Types.{
  Addr, IcaInfo, PoolInfo, Stack, SudoPayload, UnstakeInfo, coin_eq, era_status_eq,
  validator_update_status_eq,
}
use neutron_contracts.StakeManager.Errors.{ContractError, not_found, std}

pub record Storage : Type 0 where
  pub stack : Option Stack
  pub total_stack_fee : Map String ℕ
  pub pools : Map String PoolInfo
  pub unstakes_of_index : Map (String × ℕ) UnstakeInfo
  pub unstakes_index_for_user : Map (Addr × String) (List ℕ)
  pub info_of_ica_id : Map String (IcaInfo × IcaInfo × Addr)
  pub latest_reply_id : Option ℕ
  pub latest_query_reply_id : Option ℕ
  pub reply_id_to_payload : Map ℕ SudoPayload
  pub sudo_payload : Map (String × ℕ) SudoPayload
  pub address_to_reply_id : Map (String × String) ℕ
  pub reply_id_to_query_id : Map ℕ ℕ
  pub reply_id_to_need_update : Map ℕ Bool
  pub query_id_to_reply_id : Map ℕ ℕ
  pub validators_unbonds_time : Map (String × String) (List ℕ)
  pub era_rate : Map (String × ℕ) ℕ

-- `?` on a `load` of a missing key
abbrev pub or_not_found {ℓ} : {A : Type ℓ} → Option A → Outcome ContractError A
or_not_found o = ok_or o (std not_found)

-- `.unwrap_or_else(|_| vec![])`
abbrev pub or_empty : Option (List ℕ) → List ℕ
or_empty none = []
or_empty (some l) = l

-- `POOLS.load(deps.storage, pool_addr)?`
abbrev pub load_pool : String → Storage → Outcome ContractError PoolInfo
load_pool pool_addr s = or_not_found (may_load pool_addr s.pools)

-- `POOLS.save(deps.storage, pool_addr, &pool_info)?`
abbrev pub save_pool : String → PoolInfo → Storage → Storage
save_pool pool_addr p s = record s { pools = save pool_addr p s.pools }

abbrev pub reply_id_range_start : ℕ
reply_id_range_start = 1000000000

abbrev pub reply_id_range_end : ℕ
reply_id_range_end = 1001000000

abbrev pub query_reply_id_range_start : ℕ
query_reply_id_range_start = 2000000000

abbrev pub query_reply_id_range_end : ℕ
query_reply_id_range_end = 2001000000

abbrev pub or_default : Option ℕ → ℕ → ℕ
or_default none d = d
or_default (some n) d = n

unfoldable pub get_next_reply_id : Storage → Outcome ContractError (ℕ × Storage)
get_next_reply_id s = do
  let id = or_default s.latest_reply_id reply_id_range_start
  save_id ← U64.add id 1
  ok (
    id,
    record s {
      latest_reply_id =
          some (if ltb reply_id_range_end save_id then reply_id_range_start else save_id);
    },
  )

unfoldable pub get_next_query_reply_id : Storage → Outcome ContractError (ℕ × Storage)
get_next_query_reply_id s = do
  let id = or_default s.latest_query_reply_id query_reply_id_range_start
  save_id ← U64.add id 1
  ok (
    id,
    record s {
      latest_query_reply_id =
          some
            (if ltb query_reply_id_range_end save_id then query_reply_id_range_start else save_id);
    },
  )

unfoldable pub save_reply_payload : SudoPayload → Storage → Outcome ContractError (ℕ × Storage)
save_reply_payload payload s = do
  (id, s') ← get_next_reply_id s
  ok (id, record s' { reply_id_to_payload = save id payload s'.reply_id_to_payload })

unfoldable pub read_reply_payload : Storage → ℕ → Outcome ContractError SudoPayload
read_reply_payload s id = or_not_found (may_load id s.reply_id_to_payload)

unfoldable pub save_sudo_payload : String → ℕ → SudoPayload → Storage → Storage
save_sudo_payload channel_id seq_id payload s = record s {
  sudo_payload = save (channel_id, seq_id) payload s.sudo_payload;
}

unfoldable pub read_sudo_payload : Storage → String → ℕ → Outcome ContractError SudoPayload
read_sudo_payload s channel_id seq_id = or_not_found (may_load (channel_id, seq_id) s.sudo_payload)
