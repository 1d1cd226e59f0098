-- ===== src/Bridge/Votes.antt =====
-- A vote, and that a proposal is minted once, when enough relayers have voted for it.
use neutron_contracts.Base.{
  All, Bool-cases, List, Option-cases, String, [], after, ap, arith, contains, fail_if, false,
  if◌then◌else◌, inl, inr, leb, length, list_eq, may_load, may_load-save, may_load-save_self,
  nat_eq, not, ok, ok_or, pair_eq, push, refl, save, some, string_eq, subst, sym, true, ℕ, ◌==◌,
  ◌∙◌, ◌∷◌, ◌≡◌,
}
use neutron_contracts.Bridge.State.{
  BridgeInfo, Bytes, Crates, Proposal, Storage, get_proposal_id, not_found, std, unauthorized,
}
use neutron_contracts.Bridge.Calls.{Mint, execute_vote_proposal, new_proposal, stored_or, vote}

-- What a vote that succeeds has found and done.
pub record Voted (info : BridgeInfo) (sender : String) (id : Bytes) (p : Proposal) (s s' : Storage)
    (r : List Mint) : Type 0 where
  pub first : contains p.voters sender ≡ false
  pub pending : p.executed ≡ false
  pub after_vote : Proposal
  pub stored : may_load id s'.proposals ≡ some after_vote
  pub voters : after_vote.voters ≡ push p.voters sender
  pub quorum : after_vote.executed ≡ leb info.threshold (length after_vote.voters)
  pub others : (j : Bytes) → (id == j) ≡ false → may_load j s'.proposals ≡ may_load j s.proposals
  pub minted : length r ≡ (if after_vote.executed then 1 else 0)
  pub payment :
      All
        (λ (m : Mint).
          (may_load p.resource_id s.resource_id_to_token ≡ some m.token)
          × (m.recipient ≡ p.recipient)
          × (m.amount ≡ p.amount))
        r

module _ (info : BridgeInfo) (sender : String) (id : Bytes) (p : Proposal) (s s' : Storage) where
  saved-Voted :
      (r : List Mint) (q : Proposal)
      → contains p.voters sender ≡ false
      → p.executed ≡ false
      → s'.proposals ≡ save id q s.proposals
      → q.voters ≡ push p.voters sender
      → q.executed ≡ leb info.threshold (length q.voters)
      → length r ≡ (if q.executed then 1 else 0)
      → All
          (λ (m : Mint).
            (may_load p.resource_id s.resource_id_to_token ≡ some m.token)
            × (m.recipient ≡ p.recipient)
            × (m.amount ≡ p.amount))
          r
      → Voted info sender id p s s' r
  saved-Voted r q new open_yet saved by_all reached count paid = record {
    first = new;
    pending = open_yet;
    after_vote = q;
    stored = ap (may_load id) saved ∙ may_load-save_self id q s.proposals;
    voters = by_all;
    quorum = reached;
    others = λ j d. ap (may_load j) saved ∙ may_load-save j id q s.proposals ∙ rw d;
    minted = count;
    payment = paid;
  }

  mint_of : String → Mint
  mint_of token = record { token = token; recipient = p.recipient; amount = p.amount }

  vote-Voted :
      (r : List Mint) → vote info sender id p s ≡ ok (s', r) → Voted info sender id p s s' r
  unfolding vote mint_of
  vote-Voted r h =
      let voters = push p.voters sender in
      let new : contains p.voters sender ≡ false = ground arith in
      let open_yet : p.executed ≡ false = ground arith in
      elim (Bool-cases (leb info.threshold (length voters))) [
        | inl enough ↦ elim (Option-cases (may_load p.resource_id s.resource_id_to_token)) [
          | inl missing ↦ absurd (ground arith)
          | inr (token, found) ↦
              subst (λ r. Voted info sender id p s s' r) {x = mint_of token ∷ []} {y = r}
                (ground arith)
                (saved-Voted (mint_of token ∷ []) (record p { voters = voters; executed = true })
                  new open_yet (ground arith) refl (sym enough) refl ((found, refl, refl), tt))
        ]
        | inr few ↦
            subst (λ r. Voted info sender id p s s' r) {x = []} {y = r} (ground arith)
              (saved-Voted [] (record p { voters = voters }) new open_yet (ground arith) refl
                (open_yet ∙ sym few) (rw open_yet) tt)
      ]

-- A vote that succeeds is a relayer's, and its first on a proposal that is not executed; it is
-- recorded, the proposal is executed exactly when its voters have reached the threshold, and then
-- one message mints what the proposal says on the token of its resource. No other proposal
-- changes.
pub execute_vote_proposal-Voted :
    (crates : Crates) (sender : String) (c n : ℕ) (rid to : String) (amount : ℕ) (s s' : Storage)
    (r : List Mint)
    → execute_vote_proposal crates sender c n rid to amount s ≡ ok (s', r)
    → (info : BridgeInfo) × (s.bridge_info ≡ some info)
      × (contains info.relayers sender ≡ true)
      × Voted info sender
          (get_proposal_id crates c n rid to amount)
          (stored_or
            (new_proposal c n rid to amount)
            (may_load (get_proposal_id crates c n rid to amount) s.proposals))
          s
          s'
          r
unfolding execute_vote_proposal
execute_vote_proposal-Voted crates sender c n rid to amount s s' r h =
    after (ok_or s.bridge_info (std not_found)) h (λ info e1 h1.
      after (fail_if (not (contains info.relayers sender)) unauthorized) h1
        (λ _ e2 h2. (info, ground arith, ground arith, vote-Voted info sender _ _ s s' r h2)))
