-- ===== src/Bridge/Relayers.antt =====
-- The relayers and the threshold of a bridge.
use neutron_contracts.Base.{
  IsDistinct, List, Outcome, String, [], after, ap, arith, contains, fail_if, inl, inr, length,
  length-append, list_eq, ltb, nat_eq, not, ok, ok_injective, ok_or, pair_eq, push, push-IsDistinct,
  retain, retain-IsDistinct, some, some_injective, string_eq, subst, sym, ℕ, ◌==◌, ◌∙◌, ◌∷◌, ◌≡◌,
  ◌≤◌, ◌⊎◌,
}
use neutron_contracts.Bridge.State.{
  BridgeInfo, Bytes, ContractError, Crates, Proposal, Storage, duplicate, invalid_address,
  not_found, relayers_len_not_match, std, unauthorized,
}
use neutron_contracts.Bridge.Calls.{
  ExecuteMsg, Mint, add_relayer, add_resource_id_to_token, as_admin, change_threshold, execute,
  execute_add_relayer, execute_add_resource_id_to_token, execute_change_threshold,
  execute_remove_relayer, execute_remove_resource_id, execute_transfer_admin, execute_vote_proposal,
  instantiate, remove_relayer, remove_resource_id, transfer_admin, vote, vote_proposal,
  without_messages,
}

-- As many relayers as the threshold, each named once.
abbrev pub HasQuorum : BridgeInfo → Type 0
HasQuorum info = (info.threshold ≤ length info.relayers) × IsDistinct info.relayers

abbrev pub IsQuorate : Storage → Type 0
IsQuorate s = (info : BridgeInfo) → s.bridge_info ≡ some info → HasQuorum info

-- The bridge's data after a call: a value with a quorum, or as before.
data Quorum (s s' : Storage) : Type 0 where
  kept : s'.bridge_info ≡ s.bridge_info → Quorum s s'
  set_to :
      (info : BridgeInfo)
      → s'.bridge_info ≡ some info
      → (IsQuorate s → HasQuorum info)
      → Quorum s s'

Quorum-IsQuorate : (s s' : Storage) → Quorum s s' → IsQuorate s → IsQuorate s'
Quorum-IsQuorate s s' (kept same) q info e = q info (sym same ∙ e)
Quorum-IsQuorate s s' (set_to new e0 enough) q info e =
    subst HasQuorum (some_injective (sym e0 ∙ e)) (enough q)

pub instantiate-IsQuorate :
    (admin : String) (threshold : ℕ) (relayers : List String) (s s' : Storage)
    → instantiate admin threshold relayers s ≡ ok s'
    → IsDistinct relayers
    → IsQuorate s'
unfolding instantiate
instantiate-IsQuorate admin threshold relayers s s' h distinct info e =
    after (fail_if (ltb (length relayers) threshold) relayers_len_not_match) h (λ _ e1 h1.
      let new : BridgeInfo = record { admin = admin; threshold = threshold; relayers = relayers } in
      let same = some_injective (ap (λ (w : Storage). w.bridge_info) (ok_injective h1) ∙ e) in
      subst HasQuorum same (ground (arith, e1), distinct))

vote-Quorum :
    (info : BridgeInfo) (sender : String) (id : Bytes) (p : Proposal) (s s' : Storage)
    (r : List Mint)
    → vote info sender id p s ≡ ok (s', r)
    → s'.bridge_info ≡ s.bridge_info
unfolding vote
vote-Quorum info sender id p s s' r h = ground arith

pub as_admin-eq-ok :
    (sender : String) (s : Storage) (info : BridgeInfo)
    → as_admin sender s ≡ ok info
    → s.bridge_info ≡ some info
unfolding as_admin
as_admin-eq-ok sender s info h = ground arith

add_relayer-Quorum :
    (sender relayer : String) (s s' : Storage)
    → execute_add_relayer sender relayer s ≡ ok s'
    → Quorum s s'
unfolding execute_add_relayer
add_relayer-Quorum sender relayer s s' h = after (as_admin sender s) h (λ info e h1.
    after (fail_if (contains info.relayers relayer) duplicate) h1 (λ _ e2 h2.
      set_to (record info { relayers = push info.relayers relayer })
        (ap (λ (w : Storage). w.bridge_info) (sym (ok_injective h2)))
        (λ q.
          let (enough, distinct) = q info (as_admin-eq-ok sender s info e) in
          (
            omega (arith, enough, length-append info.relayers (relayer ∷ [])),
            push-IsDistinct info.relayers relayer distinct (ground (arith, e2)),
          ))))

remove_relayer-Quorum :
    (sender relayer : String) (s s' : Storage)
    → execute_remove_relayer sender relayer s ≡ ok s'
    → Quorum s s'
unfolding execute_remove_relayer
remove_relayer-Quorum sender relayer s s' h = after (as_admin sender s) h (λ info e h1.
    set_to (record info { relayers = retain (λ r. not (r == relayer)) info.relayers })
      (ground arith)
      (λ q. (
        ground arith,
        retain-IsDistinct (λ r. not (r == relayer)) info.relayers
            (q info (as_admin-eq-ok sender s info e)).1,
      )))

change_threshold-Quorum :
    (sender : String) (threshold : ℕ) (s s' : Storage)
    → execute_change_threshold sender threshold s ≡ ok s'
    → Quorum s s'
unfolding execute_change_threshold
change_threshold-Quorum sender threshold s s' h = after (as_admin sender s) h (λ info e h1.
    set_to (record info { threshold = threshold }) (ground arith)
      (λ q. (ground arith, (q info (as_admin-eq-ok sender s info e)).1)))

transfer_admin-Quorum :
    (crates : Crates) (sender new_admin : String) (s s' : Storage)
    → execute_transfer_admin crates sender new_admin s ≡ ok s'
    → Quorum s s'
unfolding execute_transfer_admin
transfer_admin-Quorum crates sender new_admin s s' h = after (as_admin sender s) h (λ info e h1.
    after (ok_or (crates.addr_validate new_admin) invalid_address) h1 (λ admin e2 h2.
      set_to (record info { admin = admin }) (ground arith)
        (λ q. q info (as_admin-eq-ok sender s info e))))

pub bridge_info-execute_vote_proposal :
    (crates : Crates) (sender : String) (c n : ℕ) (rid to : String) (amount : ℕ) (s s' : Storage)
    (r : List Mint)
    → execute_vote_proposal crates sender c n rid to amount s ≡ ok (s', r)
    → s'.bridge_info ≡ s.bridge_info
unfolding execute_vote_proposal
bridge_info-execute_vote_proposal crates sender c n rid to amount s s' r h =
    after (ok_or s.bridge_info (std not_found)) h (λ info e1 h1.
      after (fail_if (not (contains info.relayers sender)) unauthorized) h1
        (λ _ e2 h2. vote-Quorum info sender _ _ s s' r h2))

resource_ids-Quorum :
    (sender rid token : String) (s s' : Storage)
    → (execute_add_resource_id_to_token sender rid token s ≡ ok s')
      ⊎ (execute_remove_resource_id sender rid s ≡ ok s')
    → Quorum s s'
unfolding execute_add_resource_id_to_token execute_remove_resource_id
resource_ids-Quorum sender rid token s s' (inl h) =
    after (as_admin sender s) h (λ info e h1. kept (ground arith))
resource_ids-Quorum sender rid token s s' (inr h) =
    after (as_admin sender s) h (λ info e h1. kept (ground arith))

-- A call without messages is its state.
pub without_messages-eq-ok :
    (m : Outcome ContractError Storage) (s' : Storage) (r : List Mint)
    → without_messages m ≡ ok (s', r)
    → m ≡ ok s'
without_messages-eq-ok m s' r h = ground arith

execute-Quorum :
    (crates : Crates) (sender : String) (msg : ExecuteMsg) (s s' : Storage) (r : List Mint)
    → execute crates sender msg s ≡ ok (s', r)
    → Quorum s s'
unfolding execute
execute-Quorum crates sender (vote_proposal c n rid to amount) s s' r h =
    kept (bridge_info-execute_vote_proposal crates sender c n rid to amount s s' r h)
execute-Quorum crates sender (add_relayer relayer) s s' r h =
    add_relayer-Quorum sender relayer s s' (without_messages-eq-ok _ s' r h)
execute-Quorum crates sender (remove_relayer relayer) s s' r h =
    remove_relayer-Quorum sender relayer s s' (without_messages-eq-ok _ s' r h)
execute-Quorum crates sender (add_resource_id_to_token rid token) s s' r h =
    resource_ids-Quorum sender rid token s s' (inl (without_messages-eq-ok _ s' r h))
execute-Quorum crates sender (remove_resource_id rid) s s' r h =
    resource_ids-Quorum sender rid "" s s' (inr (without_messages-eq-ok _ s' r h))
execute-Quorum crates sender (change_threshold threshold) s s' r h =
    change_threshold-Quorum sender threshold s s' (without_messages-eq-ok _ s' r h)
execute-Quorum crates sender (transfer_admin new_admin) s s' r h =
    transfer_admin-Quorum crates sender new_admin s s' (without_messages-eq-ok _ s' r h)

-- If a bridge has at least as many relayers as votes are needed, each named once, it is so after
-- every call that succeeds.
pub execute-IsQuorate :
    (crates : Crates) (sender : String) (msg : ExecuteMsg) (s s' : Storage) (r : List Mint)
    → execute crates sender msg s ≡ ok (s', r)
    → IsQuorate s
    → IsQuorate s'
execute-IsQuorate crates sender msg s s' r h =
    Quorum-IsQuorate s s' (execute-Quorum crates sender msg s s' r h)
