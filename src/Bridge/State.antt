-- ===== src/Bridge/State.antt =====
-- contracts/bridge/src/state.rs and error.rs. The hash function, the bytes of a text and the
-- chain's check of addresses are a parameter.
use neutron_contracts.Base.{
  Bool, List, Map, Option, String, [], list_eq, nat_eq, pair_eq, string_eq, suc, zero, ℕ, ◌%◌, ◌++◌,
  ◌/◌, ◌^◌, ◌∷◌,
}

pub data StdError : Type 0 where
  not_found : StdError

pub data ContractError : Type 0 where
  std : StdError → ContractError
  unauthorized not_exist relayers_len_not_match invalid_address : ContractError
  duplicate already_executed : ContractError

abbrev pub Bytes : Type 0
Bytes = List ℕ

-- What the contract calls of other crates: the digest of `sha2`, the bytes of a text, and the
-- address that a text names, if it is valid.
pub record Crates : Type 0 where
  pub digest : Bytes → Bytes
  pub as_bytes : String → Bytes
  pub addr_validate : String → Option String

pub record BridgeInfo : Type 0 where
  pub admin : String
  pub threshold : ℕ
  pub relayers : List String

pub record Proposal : Type 0 where
  pub chain_id : ℕ
  pub deposit_nonce : ℕ
  pub resource_id : String
  pub recipient : String
  pub amount : ℕ
  pub executed : Bool
  pub voters : List String

pub record Storage : Type 0 where
  pub bridge_info : Option BridgeInfo
  pub proposals : Map Bytes Proposal
  pub resource_id_to_token : Map String String

-- `to_be_bytes` of an unsigned integer of this many bytes
unfoldable pub to_be_bytes : ℕ → ℕ → Bytes
to_be_bytes zero n = []
to_be_bytes (suc w) n = (n / 256 ^ w % 256) ∷ to_be_bytes w n

unfoldable pub hash : Crates → String → Bytes → Bytes
hash crates ty key = crates.digest (crates.digest (crates.as_bytes ty) ++ key)

-- The bytes that are hashed.
unfoldable pub proposal_key : Crates → ℕ → ℕ → String → String → ℕ → Bytes
proposal_key crates chain_id deposit_nonce resource_id recipient amount =
    to_be_bytes 8 chain_id
    ++ (to_be_bytes 8 deposit_nonce
        ++ (crates.as_bytes resource_id ++ (crates.as_bytes recipient ++ to_be_bytes 16 amount)))

unfoldable pub get_proposal_id : Crates → ℕ → ℕ → String → String → ℕ → Bytes
unfolding proposal_key hash
get_proposal_id crates chain_id deposit_nonce resource_id recipient amount =
    hash crates "proposalId"
      (proposal_key crates chain_id deposit_nonce resource_id recipient amount)
