-- ===== src/Bridge/Calls.antt =====
-- The calls of contracts/bridge/src/contract.rs.
use neutron_contracts.Base.{
  List, Option, Outcome, String, [], contains, fail_if, false, has, if◌then◌else◌, leb, length,
  list_eq, ltb, may_load, nat_eq, none, not, ok, ok_or, pair_eq, push, remove, retain, save, some,
  string_eq, true, ℕ, ◌==◌, ◌>>=◌, ◌>>◌, ◌∷◌,
}
use neutron_contracts.Bridge.State.{
  BridgeInfo, Bytes, ContractError, Crates, Proposal, Storage, already_executed, duplicate,
  get_proposal_id, invalid_address, not_exist, not_found, relayers_len_not_match, std, unauthorized,
}

-- The message `Mint` to a token contract.
pub record Mint : Type 0 where
  pub token : String
  pub recipient : String
  pub amount : ℕ

unfoldable pub instantiate : String → ℕ → List String → Storage → Outcome ContractError Storage
instantiate admin threshold relayers s = do
  fail_if (ltb (length relayers) threshold) relayers_len_not_match
  ok (record s {
    bridge_info = some (record { admin = admin; threshold = threshold; relayers = relayers });
  })

unfoldable pub query_bridge_info : Storage → Outcome ContractError BridgeInfo
query_bridge_info s = ok_or s.bridge_info (std not_found)

unfoldable pub query_proposal :
    Crates → ℕ → ℕ → String → String → ℕ → Storage → Outcome ContractError Proposal
query_proposal crates chain_id deposit_nonce resource_id recipient amount s =
    ok_or
      (may_load (get_proposal_id crates chain_id deposit_nonce resource_id recipient amount)
        s.proposals)
      (std not_found)

abbrev pub new_proposal : ℕ → ℕ → String → String → ℕ → Proposal
new_proposal chain_id deposit_nonce resource_id recipient amount = record {
  chain_id = chain_id;
  deposit_nonce = deposit_nonce;
  resource_id = resource_id;
  recipient = recipient;
  amount = amount;
  executed = false;
  voters = [];
}

-- The stored proposal, or the new one.
abbrev pub stored_or : Proposal → Option Proposal → Proposal
stored_or fresh none = fresh
stored_or fresh (some p) = p

-- What a vote does once the proposal is known.
unfoldable pub vote :
    BridgeInfo → String → Bytes → Proposal → Storage → Outcome ContractError (Storage × List Mint)
vote info sender id p s = do
  fail_if (contains p.voters sender) duplicate
  fail_if p.executed already_executed
  let voters = push p.voters sender
  if leb info.threshold (length voters)
      then (do
        token ← ok_or (may_load p.resource_id s.resource_id_to_token) (std not_found)
        ok (
          record s {
            proposals = save id (record p { voters = voters; executed = true }) s.proposals;
          },
          record { token = token; recipient = p.recipient; amount = p.amount } ∷ [],
        ))
      else ok (record s { proposals = save id (record p { voters = voters }) s.proposals }, [])

unfoldable pub execute_vote_proposal :
    Crates
    → String
    → ℕ
    → ℕ
    → String
    → String
    → ℕ
    → Storage
    → Outcome ContractError (Storage × List Mint)
execute_vote_proposal crates sender chain_id deposit_nonce resource_id recipient amount s = do
  info ← ok_or s.bridge_info (std not_found)
  fail_if (not (contains info.relayers sender)) unauthorized
  let id = get_proposal_id crates chain_id deposit_nonce resource_id recipient amount
  vote info sender id
      (stored_or (new_proposal chain_id deposit_nonce resource_id recipient amount)
        (may_load id s.proposals))
      s

-- `BRIDGE_INFO.load`, and the check that the sender is the admin.
unfoldable pub as_admin : String → Storage → Outcome ContractError BridgeInfo
as_admin sender s = do
  info ← ok_or s.bridge_info (std not_found)
  fail_if (not (info.admin == sender)) unauthorized
  ok info

unfoldable pub execute_add_relayer : String → String → Storage → Outcome ContractError Storage
unfolding as_admin
execute_add_relayer sender relayer s = do
  info ← as_admin sender s
  fail_if (contains info.relayers relayer) duplicate
  ok (record s { bridge_info = some (record info { relayers = push info.relayers relayer }) })

unfoldable pub execute_remove_relayer : String → String → Storage → Outcome ContractError Storage
unfolding as_admin
execute_remove_relayer sender relayer s = do
  info ← as_admin sender s
  fail_if (not (contains info.relayers relayer)) not_exist
  let relayers = retain (λ r. not (r == relayer)) info.relayers
  fail_if (ltb (length relayers) info.threshold) relayers_len_not_match
  ok (record s { bridge_info = some (record info { relayers = relayers }) })

unfoldable pub execute_add_resource_id_to_token :
    String → String → String → Storage → Outcome ContractError Storage
unfolding as_admin
execute_add_resource_id_to_token sender resource_id token s = do
  info ← as_admin sender s
  fail_if (has resource_id s.resource_id_to_token) duplicate
  ok (record s { resource_id_to_token = save resource_id token s.resource_id_to_token })

unfoldable pub execute_remove_resource_id :
    String → String → Storage → Outcome ContractError Storage
unfolding as_admin
execute_remove_resource_id sender resource_id s = do
  info ← as_admin sender s
  fail_if (not (has resource_id s.resource_id_to_token)) not_exist
  ok (record s { resource_id_to_token = remove resource_id s.resource_id_to_token })

unfoldable pub execute_change_threshold : String → ℕ → Storage → Outcome ContractError Storage
unfolding as_admin
execute_change_threshold sender threshold s = do
  info ← as_admin sender s
  fail_if (ltb (length info.relayers) threshold) relayers_len_not_match
  ok (record s { bridge_info = some (record info { threshold = threshold }) })

unfoldable pub execute_transfer_admin :
    Crates → String → String → Storage → Outcome ContractError Storage
unfolding as_admin
execute_transfer_admin crates sender new_admin s = do
  info ← as_admin sender s
  admin ← ok_or (crates.addr_validate new_admin) invalid_address
  ok (record s { bridge_info = some (record info { admin = admin }) })

pub data ExecuteMsg : Type 0 where
  vote_proposal :
      (chain_id deposit_nonce : ℕ) (resource_id recipient : String) (amount : ℕ) → ExecuteMsg
  add_relayer : (relayer : String) → ExecuteMsg
  remove_relayer : (relayer : String) → ExecuteMsg
  add_resource_id_to_token : (resource_id token : String) → ExecuteMsg
  remove_resource_id : (resource_id : String) → ExecuteMsg
  change_threshold : (threshold : ℕ) → ExecuteMsg
  transfer_admin : (new_admin : String) → ExecuteMsg

abbrev pub without_messages :
    Outcome ContractError Storage → Outcome ContractError (Storage × List Mint)
without_messages m = do s ← m; ok (s, [])

unfoldable pub execute :
    Crates → String → ExecuteMsg → Storage → Outcome ContractError (Storage × List Mint)
execute crates sender (vote_proposal chain_id deposit_nonce resource_id recipient amount) s =
    execute_vote_proposal crates sender chain_id deposit_nonce resource_id recipient amount s
execute crates sender (add_relayer relayer) s =
    without_messages (execute_add_relayer sender relayer s)
execute crates sender (remove_relayer relayer) s =
    without_messages (execute_remove_relayer sender relayer s)
execute crates sender (add_resource_id_to_token resource_id token) s =
    without_messages (execute_add_resource_id_to_token sender resource_id token s)
execute crates sender (remove_resource_id resource_id) s =
    without_messages (execute_remove_resource_id sender resource_id s)
execute crates sender (change_threshold threshold) s =
    without_messages (execute_change_threshold sender threshold s)
execute crates sender (transfer_admin new_admin) s =
    without_messages (execute_transfer_admin crates sender new_admin s)
