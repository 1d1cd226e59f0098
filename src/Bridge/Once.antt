-- ===== src/Bridge/Once.antt =====
-- Over all calls, a proposal is minted at most once.
use neutron_contracts.Base.{
  ==_iff, ==_refl, Bool-cases, IsDistinct, List, Option, Outcome, String, [], ap, arith, false,
  if◌then◌else◌, inl, inr, length, list_eq, map, may_load, nat_eq, none, ok, pair_eq,
  push-IsDistinct, refl, some, string_eq, subst, sym, ℕ, ◌++◌, ◌+◌, ◌==◌, ◌∙◌, ◌∷◌, ◌≡◌,
}
use neutron_contracts.Bridge.State.{
  Bytes, ContractError, Crates, Proposal, Storage, get_proposal_id,
}
use neutron_contracts.Bridge.Calls.{
  ExecuteMsg, Mint, add_relayer, add_resource_id_to_token, change_threshold, execute,
  execute_add_relayer, execute_add_resource_id_to_token, execute_change_threshold,
  execute_remove_relayer, execute_remove_resource_id, execute_transfer_admin, execute_vote_proposal,
  new_proposal, remove_relayer, remove_resource_id, stored_or, transfer_admin, vote_proposal,
  without_messages,
}
use neutron_contracts.Bridge.Votes.{execute_vote_proposal-Voted}

-- The proposal that a message votes for; the other messages mint nothing.
abbrev pub voted_id : Crates → ExecuteMsg → Bytes
voted_id crates (vote_proposal c n rid to amount) = get_proposal_id crates c n rid to amount
voted_id crates _ = []

-- How often a proposal was minted, by a log of proposals and mints.
abbrev pub minted : Bytes → List (Bytes × Mint) → ℕ
minted id [] = 0
minted id ((j, m) ∷ log) = (if j == id then 1 else 0) + minted id log

-- Calls that succeed, one after the other, and the mints that they send.
pub data Run (crates : Crates) : Storage → Storage → List (Bytes × Mint) → Type 0 where
  begin : {s : Storage} → Run crates s s []
  call :
      {s s' s'' : Storage} {log : List (Bytes × Mint)} (sender : String) (msg : ExecuteMsg)
      (r : List Mint)
      → Run crates s s' log
      → execute crates sender msg s' ≡ ok (s'', r)
      → Run crates s s'' (map (λ m. (voted_id crates msg, m)) r ++ log)

abbrev pub executions : Option Proposal → ℕ
executions none = 0
executions (some p) = if p.executed then 1 else 0

abbrev pub voters_of : Option Proposal → List String
voters_of none = []
voters_of (some p) = p.voters

-- The log has each proposal as often as it is executed, and nobody has voted for one twice.
pub record Recorded (s : Storage) (log : List (Bytes × Mint)) : Type 0 where
  pub once : (id : Bytes) → minted id log ≡ executions (may_load id s.proposals)
  pub distinct : (id : Bytes) → IsDistinct (voters_of (may_load id s.proposals))

minted-append :
    (id k : Bytes) (r : List Mint) (log : List (Bytes × Mint))
    → minted id (map (λ m. (k, m)) r ++ log) ≡ (if k == id then length r else 0) + minted id log
minted-append id k [] log = ground arith
minted-append id k (m ∷ r) log = ground (arith, minted-append id k r log)

unvoted :
    (fresh : Proposal) (o : Option Proposal)
    → fresh.executed ≡ false
    → (stored_or fresh o).executed ≡ false
    → executions o ≡ 0
unvoted fresh none a b = refl
unvoted fresh (some p) a b = rw b

old_voters :
    (fresh : Proposal) (o : Option Proposal)
    → fresh.voters ≡ []
    → voters_of o ≡ (stored_or fresh o).voters
old_voters fresh none a = sym a
old_voters fresh (some p) a = refl

vote-Recorded :
    (crates : Crates) (sender : String) (c n : ℕ) (rid to : String) (amount : ℕ) (s s' : Storage)
    (r : List Mint) (log : List (Bytes × Mint))
    → execute_vote_proposal crates sender c n rid to amount s ≡ ok (s', r)
    → Recorded s log
    → Recorded s' (map (λ m. (get_proposal_id crates c n rid to amount, m)) r ++ log)
vote-Recorded crates sender c n rid to amount s s' r log h before =
    let k = get_proposal_id crates c n rid to amount in
    let fresh = new_proposal c n rid to amount in
    let (info, _, _, v) = execute_vote_proposal-Voted crates sender c n rid to amount s s' r h in
    let o = may_load k s.proposals in
    record {
      once = λ id. elim (Bool-cases (k == id)) [
        | inl same ↦
            subst
              (λ id. minted id (map (λ m. (k, m)) r ++ log) ≡ executions (may_load id s'.proposals))
              ((==_iff k id).0 same)
              (ground (
                arith,
                minted-append k k r log,
                ==_refl k,
                before.once k,
                unvoted fresh o refl v.pending,
                v.minted,
                ap executions v.stored,
              ))
        | inr other ↦ ground (
          arith,
          minted-append id k r log,
          other,
          before.once id,
          ap executions (v.others id other),
        )
      ];
      distinct = λ id. elim (Bool-cases (k == id)) [
        | inl same ↦
            subst (λ id. IsDistinct (voters_of (may_load id s'.proposals))) ((==_iff k id).0 same)
              (subst IsDistinct (sym (ap voters_of v.stored ∙ v.voters)) (
                push-IsDistinct (stored_or fresh o).voters sender
                  (subst IsDistinct (old_voters fresh o refl) (before.distinct k)) v.first))
        | inr other ↦
            subst (λ o. IsDistinct (voters_of o)) (sym (v.others id other)) (before.distinct id)
      ];
    }

-- The other messages leave the proposals and mint nothing.
quiet-Recorded :
    (s s' : Storage) (r : List Mint) (k : Bytes) (log : List (Bytes × Mint))
    → s'.proposals ≡ s.proposals
    → r ≡ []
    → Recorded s log
    → Recorded s' (map (λ m. (k, m)) r ++ log)
quiet-Recorded s s' r k log same none_sent before = record {
  once = λ id. rw none_sent (before.once id ∙ ap (λ m. executions (may_load id m)) (sym same));
  distinct =
      λ id. subst (λ m. IsDistinct (voters_of (may_load id m))) (sym same) (before.distinct id);
}

-- The two at once, from a result without messages.
quiet :
    (m : Outcome ContractError Storage) (s s' : Storage) (r : List Mint) (k : Bytes)
    (log : List (Bytes × Mint))
    → without_messages m ≡ ok (s', r)
    → (m ≡ ok s' → s'.proposals ≡ s.proposals)
    → Recorded s log
    → Recorded s' (map (λ m. (k, m)) r ++ log)
quiet m s s' r k log h keeps = quiet-Recorded s s' r k log (keeps (ground arith)) (ground arith)

execute-Recorded :
    (crates : Crates) (sender : String) (msg : ExecuteMsg) (s s' : Storage) (r : List Mint)
    (log : List (Bytes × Mint))
    → execute crates sender msg s ≡ ok (s', r)
    → Recorded s log
    → Recorded s' (map (λ m. (voted_id crates msg, m)) r ++ log)
unfolding execute execute_add_relayer execute_remove_relayer execute_add_resource_id_to_token
    execute_remove_resource_id execute_change_threshold execute_transfer_admin
execute-Recorded crates sender (vote_proposal c n rid to amount) s s' r log h =
    vote-Recorded crates sender c n rid to amount s s' r log h
execute-Recorded crates sender (add_relayer relayer) s s' r log h =
    quiet (execute_add_relayer sender relayer s) s s' r [] log h (λ e. ground arith)
execute-Recorded crates sender (remove_relayer relayer) s s' r log h =
    quiet (execute_remove_relayer sender relayer s) s s' r [] log h (λ e. ground arith)
execute-Recorded crates sender (add_resource_id_to_token rid token) s s' r log h =
    quiet (execute_add_resource_id_to_token sender rid token s) s s' r [] log h (λ e. ground arith)
execute-Recorded crates sender (remove_resource_id rid) s s' r log h =
    quiet (execute_remove_resource_id sender rid s) s s' r [] log h (λ e. ground arith)
execute-Recorded crates sender (change_threshold threshold) s s' r log h =
    quiet (execute_change_threshold sender threshold s) s s' r [] log h (λ e. ground arith)
execute-Recorded crates sender (transfer_admin new_admin) s s' r log h =
    quiet (execute_transfer_admin crates sender new_admin s) s s' r [] log h (λ e. ground arith)

-- From a storage without proposals, whatever calls succeed: each proposal was minted as often as
-- it is executed, which is at most once, and nobody is twice among its voters.
pub Run-Recorded :
    (crates : Crates) (s s' : Storage) (log : List (Bytes × Mint))
    → Run crates s s' log
    → s.proposals ≡ []
    → Recorded s' log
unfolding may_load
Run-Recorded crates s s' log begin empty = record {
  once = λ id. ap (λ m. executions (may_load id m)) (sym empty);
  distinct = λ id. subst (λ m. IsDistinct (voters_of (may_load id m))) (sym empty) tt;
}
Run-Recorded crates s s' _ (call {s' = t} {log = log} sender msg r run h) empty =
    execute-Recorded crates sender msg t s' r log h (Run-Recorded crates s t log run empty)
