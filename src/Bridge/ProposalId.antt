-- ===== src/Bridge/ProposalId.antt =====
-- Which proposals have one id (contracts/bridge/src/state.rs).
use neutron_contracts.Base.{
  String, [], ap, arith, list_eq, nat_eq, pair_eq, refl, string_eq, sym, ℕ, ◌++◌, ◌<◌, ◌∙◌, ◌∷◌,
  ◌≡◌,
}
use neutron_contracts.Base.Text.{concat}
use neutron_contracts.Base.U64
use neutron_contracts.Bridge.State.{Bytes, Crates, get_proposal_id, hash, proposal_key, to_be_bytes}

append_assoc : (xs ys zs : Bytes) → (xs ++ ys) ++ zs ≡ xs ++ (ys ++ zs)
append_assoc [] ys zs = refl
append_assoc (x ∷ xs) ys zs = ap (λ l. x ∷ l) (append_assoc xs ys zs)

-- Resource and recipient are hashed one after the other with nothing between them: a text moved
-- from the end of the one to the front of the other gives the same id, so that the votes for two
-- recipients on two resources are counted together. The bytes of a text are those of its parts.
pub get_proposal_id-concat :
    (crates : Crates)
    → ((s t : String) → crates.as_bytes (concat s t) ≡ crates.as_bytes s ++ crates.as_bytes t)
    → (c n : ℕ) (rid part to : String) (amount : ℕ)
    → get_proposal_id crates c n (concat rid part) to amount
      ≡ get_proposal_id crates c n rid (concat part to) amount
unfolding get_proposal_id hash proposal_key
get_proposal_id-concat crates parts c n rid part to amount =
    ap
      (λ l. crates.digest (
        crates.digest (crates.as_bytes "proposalId")
        ++ (to_be_bytes 8 c ++ (to_be_bytes 8 n ++ l))))
      (rw (parts rid part) (
        rw (parts part to) (
          append_assoc (crates.as_bytes rid) (crates.as_bytes part) _
          ∙ ap (λ l. crates.as_bytes rid ++ l)
              (sym (append_assoc (crates.as_bytes part) (crates.as_bytes to) _)))))

be_bytes_split :
    (n m : ℕ) (xs ys : Bytes)
    → n < U64.modulus
    → m < U64.modulus
    → to_be_bytes 8 n ++ xs ≡ to_be_bytes 8 m ++ ys
    → (n ≡ m) × (xs ≡ ys)
unfolding to_be_bytes
be_bytes_split n m xs ys a b h = (ground arith, ground arith)

append_cancel : (xs ys zs : Bytes) → xs ++ ys ≡ xs ++ zs → ys ≡ zs
append_cancel [] ys zs h = h
append_cancel (x ∷ xs) ys zs h = append_cancel xs ys zs (cc)

-- The deposits of two chains, or two deposits of one chain, never share an id, as long as the
-- digest does not collide on what is hashed for the two. Chain ids and nonces are `u64`.
pub get_proposal_id-eq :
    (crates : Crates) (c c' n n' : ℕ) (rid rid' to to' : String) (amount amount' : ℕ)
    → (crates.digest
            (crates.digest (crates.as_bytes "proposalId") ++ proposal_key crates c n rid to amount)
          ≡ crates.digest (
              crates.digest (crates.as_bytes "proposalId")
              ++ proposal_key crates c' n' rid' to' amount')
        → crates.digest (crates.as_bytes "proposalId") ++ proposal_key crates c n rid to amount
          ≡ crates.digest (crates.as_bytes "proposalId")
            ++ proposal_key crates c' n' rid' to' amount')
    → c < U64.modulus
    → c' < U64.modulus
    → n < U64.modulus
    → n' < U64.modulus
    → get_proposal_id crates c n rid to amount ≡ get_proposal_id crates c' n' rid' to' amount'
    → (c ≡ c') × (n ≡ n')
unfolding get_proposal_id hash proposal_key
get_proposal_id-eq crates c c' n n' rid rid' to to' amount amount' no_collision a a' b b' h =
    let keys = append_cancel (crates.digest (crates.as_bytes "proposalId")) _ _ (no_collision h) in
    let chains = be_bytes_split c c' _ _ a a' keys in
    (chains.0, (be_bytes_split n n' _ _ b b' chains.1).0)
