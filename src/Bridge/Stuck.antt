-- ===== src/Bridge/Stuck.antt =====
-- A proposal that all relayers have voted for, below the threshold of then, is stuck.
use neutron_contracts.Base.{
  ==_iff, Bool, Bool-cases, List, Option, String, after, ap, arith, contains, contains-retain,
  false, inl, inr, list_eq, may_load, nat_eq, none, not, ok, ok_or, pair_eq, retain, some,
  some_injective, string_eq, subst, sym, true, ℕ, ◌==◌, ◌∙◌, ◌≡◌, ◌⊎◌,
}
use neutron_contracts.Bridge.State.{
  BridgeInfo, Bytes, Crates, Proposal, Storage, get_proposal_id, invalid_address,
}
use neutron_contracts.Bridge.Calls.{
  ExecuteMsg, Mint, add_relayer, add_resource_id_to_token, as_admin, change_threshold, execute,
  execute_add_resource_id_to_token, execute_change_threshold, execute_remove_relayer,
  execute_remove_resource_id, execute_transfer_admin, execute_vote_proposal, new_proposal,
  remove_relayer, remove_resource_id, stored_or, transfer_admin, vote_proposal,
}
use neutron_contracts.Bridge.Relayers.{
  as_admin-eq-ok, bridge_info-execute_vote_proposal, without_messages-eq-ok,
}
use neutron_contracts.Bridge.Votes.{execute_vote_proposal-Voted}
use neutron_contracts.Bridge.Once.{executions, voters_of}

-- All relayers have voted for the proposal, and it is not executed.
pub record IsStuck (s : Storage) (id : Bytes) : Type 0 where
  pub info : BridgeInfo
  pub set_up : s.bridge_info ≡ some info
  pub all_voted :
      (r : String)
      → contains info.relayers r ≡ true
      → contains (voters_of (may_load id s.proposals)) r ≡ true
  pub waiting : executions (may_load id s.proposals) ≡ 0

-- A call that leaves the proposal, and adds no relayer.
fewer-IsStuck :
    (s s' : Storage) (id : Bytes) (stuck : IsStuck s id) (info' : BridgeInfo)
    → s'.bridge_info ≡ some info'
    → may_load id s'.proposals ≡ may_load id s.proposals
    → ((r : String) → contains info'.relayers r ≡ true → contains stuck.info.relayers r ≡ true)
    → IsStuck s' id
fewer-IsStuck s s' id stuck info' set same fewer = record {
  info = info';
  set_up = set;
  all_voted =
      λ r member. ap (λ o. contains (voters_of o) r) same ∙ stuck.all_voted r (fewer r member);
  waiting = ap executions same ∙ stuck.waiting;
}

voted_twice :
    (fresh : Proposal) (o : Option Proposal) (r : String)
    → contains (voters_of o) r ≡ true
    → contains (stored_or fresh o).voters r ≡ false
    → ⊥
unfolding contains
voted_twice fresh none r a b = cc
voted_twice fresh (some p) r a b = cc

vote-IsStuck :
    (crates : Crates) (sender : String) (c n : ℕ) (rid to : String) (amount : ℕ) (s s' : Storage)
    (r : List Mint) (id : Bytes)
    → execute_vote_proposal crates sender c n rid to amount s ≡ ok (s', r)
    → IsStuck s id
    → IsStuck s' id
unfolding execute_vote_proposal
vote-IsStuck crates sender c n rid to amount s s' r id h stuck =
    let k = get_proposal_id crates c n rid to amount in
    let fresh = new_proposal c n rid to amount in
    let (info, set, member, v) =
      execute_vote_proposal-Voted crates sender c n rid to amount s s' r h in
    let mine = some_injective (sym stuck.set_up ∙ set) in
    elim (Bool-cases (k == id)) [
      | inl same ↦ absurd (
          voted_twice fresh (may_load id s.proposals) sender
            (stuck.all_voted sender
              (ap (λ (i : BridgeInfo). contains i.relayers sender) mine ∙ member))
            (subst (λ j. contains (stored_or fresh (may_load j s.proposals)).voters sender ≡ false)
              ((==_iff k id).0 same) v.first))
      | inr other ↦
          fewer-IsStuck s s' id stuck info
            (bridge_info-execute_vote_proposal crates sender c n rid to amount s s' r h ∙ set)
            (v.others id other) (λ q m. ap (λ (i : BridgeInfo). contains i.relayers q) mine ∙ m)
    ]

abbrev pub adds_relayer : ExecuteMsg → Bool
adds_relayer (add_relayer relayer) = true
adds_relayer _ = false

retained :
    (relayers : List String) (relayer r : String)
    → contains (retain (λ x. not (x == relayer)) relayers) r ≡ true
    → contains relayers r ≡ true
retained relayers relayer r m = elim (Bool-cases (contains relayers r)) [
  | inl yet ↦ yet
  | inr no_more ↦ absurd (cc (m, contains-retain (λ x. not (x == relayer)) relayers r no_more))
]

remove_relayer-IsStuck :
    (sender relayer : String) (s s' : Storage) (id : Bytes)
    → execute_remove_relayer sender relayer s ≡ ok s'
    → IsStuck s id
    → IsStuck s' id
unfolding execute_remove_relayer
remove_relayer-IsStuck sender relayer s s' id h stuck = after (as_admin sender s) h (λ info e h1.
    let mine = some_injective (sym stuck.set_up ∙ as_admin-eq-ok sender s info e) in
    fewer-IsStuck s s' id stuck
      (record info { relayers = retain (λ r. not (r == relayer)) info.relayers }) (ground arith)
      (ap (may_load id) (ground arith))
      (λ r m.
        ap (λ (i : BridgeInfo). contains i.relayers r) mine ∙ retained info.relayers relayer r m))

change_threshold-IsStuck :
    (sender : String) (threshold : ℕ) (s s' : Storage) (id : Bytes)
    → execute_change_threshold sender threshold s ≡ ok s'
    → IsStuck s id
    → IsStuck s' id
unfolding execute_change_threshold
change_threshold-IsStuck sender threshold s s' id h stuck =
    after (as_admin sender s) h (λ info e h1.
      let mine = some_injective (sym stuck.set_up ∙ as_admin-eq-ok sender s info e) in
      fewer-IsStuck s s' id stuck (record info { threshold = threshold }) (ground arith)
        (ap (may_load id) (ground arith))
        (λ r m. ap (λ (i : BridgeInfo). contains i.relayers r) mine ∙ m))

transfer_admin-IsStuck :
    (crates : Crates) (sender new_admin : String) (s s' : Storage) (id : Bytes)
    → execute_transfer_admin crates sender new_admin s ≡ ok s'
    → IsStuck s id
    → IsStuck s' id
unfolding execute_transfer_admin
transfer_admin-IsStuck crates sender new_admin s s' id h stuck =
    after (as_admin sender s) h (λ info e h1.
      after (ok_or (crates.addr_validate new_admin) invalid_address) h1 (λ admin e2 h2.
        let mine = some_injective (sym stuck.set_up ∙ as_admin-eq-ok sender s info e) in
        fewer-IsStuck s s' id stuck (record info { admin = admin }) (ground arith)
          (ap (may_load id) (ground arith))
          (λ r m. ap (λ (i : BridgeInfo). contains i.relayers r) mine ∙ m)))

resource_ids-IsStuck :
    (sender rid token : String) (s s' : Storage) (id : Bytes)
    → (execute_add_resource_id_to_token sender rid token s ≡ ok s')
      ⊎ (execute_remove_resource_id sender rid s ≡ ok s')
    → IsStuck s id
    → IsStuck s' id
unfolding execute_add_resource_id_to_token execute_remove_resource_id
resource_ids-IsStuck sender rid token s s' id (inl h) stuck =
    after (as_admin sender s) h (λ info e h1.
      fewer-IsStuck s s' id stuck stuck.info (ground (arith, stuck.set_up))
        (ap (may_load id) (ground arith)) (λ r m. m))
resource_ids-IsStuck sender rid token s s' id (inr h) stuck =
    after (as_admin sender s) h (λ info e h1.
      fewer-IsStuck s s' id stuck stuck.info (ground (arith, stuck.set_up))
        (ap (may_load id) (ground arith)) (λ r m. m))

-- Once all relayers have voted for a proposal that is not executed, every call but the addition
-- of a relayer leaves it so: no vote executes it, although the threshold may have fallen to the
-- votes that it has.
pub execute-IsStuck :
    (crates : Crates) (sender : String) (msg : ExecuteMsg) (s s' : Storage) (r : List Mint)
    (id : Bytes)
    → adds_relayer msg ≡ false
    → execute crates sender msg s ≡ ok (s', r)
    → IsStuck s id
    → IsStuck s' id
unfolding execute
execute-IsStuck crates sender (vote_proposal c n rid to amount) s s' r id other h stuck =
    vote-IsStuck crates sender c n rid to amount s s' r id h stuck
execute-IsStuck crates sender (add_relayer relayer) s s' r id other h stuck = absurd (cc)
execute-IsStuck crates sender (remove_relayer relayer) s s' r id other h stuck =
    remove_relayer-IsStuck sender relayer s s' id (without_messages-eq-ok _ s' r h) stuck
execute-IsStuck crates sender (add_resource_id_to_token rid token) s s' r id other h stuck =
    resource_ids-IsStuck sender rid token s s' id (inl (without_messages-eq-ok _ s' r h)) stuck
execute-IsStuck crates sender (remove_resource_id rid) s s' r id other h stuck =
    resource_ids-IsStuck sender rid "" s s' id (inr (without_messages-eq-ok _ s' r h)) stuck
execute-IsStuck crates sender (change_threshold threshold) s s' r id other h stuck =
    change_threshold-IsStuck sender threshold s s' id (without_messages-eq-ok _ s' r h) stuck
execute-IsStuck crates sender (transfer_admin new_admin) s s' r id other h stuck =
    transfer_admin-IsStuck crates sender new_admin s s' id (without_messages-eq-ok _ s' r h) stuck
