-- ===== src/Bridge/Tests.antt =====
-- A bridge with three relayers, and the theorems on it.
use Prim.Native.Char.{code}
use neutron_contracts.Base.{
  Bool, List, Map, String, [], ap, arith, contains, false, list_eq, may_load, nat_eq, none, ok,
  pair_eq, refl, retain, save, some, string_eq, true, ℕ, ◌++◌, ◌∙◌, ◌∷◌, ◌≡◌,
}
use neutron_contracts.Base.Text.{concat}
use neutron_contracts.Base.Text.RoundTrip.{cons-concat, empty-concat}
use neutron_contracts.Bridge.State.{
  BridgeInfo, Bytes, Crates, Proposal, Storage, get_proposal_id, hash, proposal_key, to_be_bytes,
}
use neutron_contracts.Bridge.Calls.{
  Mint, as_admin, change_threshold, execute, execute_change_threshold, execute_remove_relayer,
  execute_vote_proposal, instantiate, new_proposal, remove_relayer, stored_or, vote, vote_proposal,
}
use neutron_contracts.Bridge.Relayers.{IsQuorate, execute-IsQuorate, instantiate-IsQuorate}
use neutron_contracts.Bridge.Votes.{Voted, execute_vote_proposal-Voted}
use neutron_contracts.Bridge.Once.{Recorded, Run, Run-Recorded, begin, call}
use neutron_contracts.Bridge.ProposalId.{get_proposal_id-concat, get_proposal_id-eq}
use neutron_contracts.Bridge.Stuck.{IsStuck, execute-IsStuck}

abbrev codes : String → Bytes
codes String.[] = []
codes (String.◌∷◌ c s) = code c ∷ codes s

-- A digest without collisions, and every text is an address.
abbrev test_crates : Crates
test_crates = record { digest = λ l. l; as_bytes = codes; addr_validate = λ a. some a }

abbrev bridge_with : ℕ → List String → Map Bytes Proposal → Storage
bridge_with threshold relayers proposals = record {
  bridge_info = some (record { admin = "admin"; threshold = threshold; relayers = relayers });
  proposals = proposals;
  resource_id_to_token = ("atom", "token") ∷ [];
}

abbrev three_relayers : List String
three_relayers = "a" ∷ "b" ∷ "c" ∷ []

abbrev key : Bytes
key = get_proposal_id test_crates 1 7 "atom" "alice" 50

abbrev proposal_by : Bool → List String → Proposal
proposal_by executed voters = record (new_proposal 1 7 "atom" "alice" 50) {
  executed = executed;
  voters = voters;
}

abbrev fresh_bridge : Storage
fresh_bridge = bridge_with 2 three_relayers []

abbrev once_voted : Storage
once_voted = bridge_with 2 three_relayers ((key, proposal_by false ("a" ∷ [])) ∷ [])

abbrev executed_bridge : Storage
executed_bridge = bridge_with 2 three_relayers ((key, proposal_by true ("a" ∷ "b" ∷ [])) ∷ [])

abbrev mint_for_alice : Mint
mint_for_alice = record { token = "token"; recipient = "alice"; amount = 50 }

execute-IsQuorate_example : IsQuorate (bridge_with 2 ("a" ∷ "b" ∷ []) [])
unfolding execute execute_remove_relayer as_admin contains retain
execute-IsQuorate_example =
    execute-IsQuorate test_crates "admin" (remove_relayer "c") fresh_bridge
      (bridge_with 2 ("a" ∷ "b" ∷ []) []) [] refl
      (instantiate-IsQuorate "admin" 2 three_relayers
        (record {
          bridge_info = none;
          proposals = [];
          resource_id_to_token = ("atom", "token") ∷ [];
        })
        fresh_bridge instantiated (refl, (refl, (refl, tt))))
  where
    instantiated :
        instantiate "admin" 2 three_relayers (record {
          bridge_info = none;
          proposals = [];
          resource_id_to_token = ("atom", "token") ∷ [];
        })
        ≡ ok fresh_bridge
    instantiated = unfold instantiate in refl

execute_vote_proposal-Voted_example :
    (info : BridgeInfo) × (once_voted.bridge_info ≡ some info)
    × (contains info.relayers "b" ≡ true)
    × Voted info "b" key
        (stored_or (new_proposal 1 7 "atom" "alice" 50) (may_load key once_voted.proposals))
        once_voted
        executed_bridge
        (mint_for_alice ∷ [])
unfolding execute_vote_proposal vote may_load save contains get_proposal_id hash proposal_key
    to_be_bytes
execute_vote_proposal-Voted_example =
    execute_vote_proposal-Voted test_crates "b" 1 7 "atom" "alice" 50 once_voted executed_bridge
      (mint_for_alice ∷ []) refl

two-Run : Run test_crates fresh_bridge executed_bridge ((key, mint_for_alice) ∷ [])
unfolding execute execute_vote_proposal vote may_load save contains get_proposal_id hash
    proposal_key to_be_bytes
two-Run =
    call "b" (vote_proposal 1 7 "atom" "alice" 50) (mint_for_alice ∷ [])
      (call {s'' = once_voted} "a" (vote_proposal 1 7 "atom" "alice" 50) [] begin refl) refl

Run-Recorded_example : Recorded executed_bridge ((key, mint_for_alice) ∷ [])
Run-Recorded_example =
    Run-Recorded test_crates fresh_bridge executed_bridge ((key, mint_for_alice) ∷ []) two-Run refl

codes-concat : (s t : String) → codes (concat s t) ≡ codes s ++ codes t
codes-concat String.[] t = ap codes (empty-concat t)
codes-concat (String.◌∷◌ c s) t =
    ap codes (cons-concat c s t) ∙ ap (λ l. code c ∷ l) (codes-concat s t)

get_proposal_id-concat_example :
    get_proposal_id test_crates 1 7 (concat "ato" "m") "alice" 50
    ≡ get_proposal_id test_crates 1 7 "ato" (concat "m" "alice") 50
get_proposal_id-concat_example =
    get_proposal_id-concat test_crates codes-concat 1 7 "ato" "m" "alice" 50

get_proposal_id-eq_example : (◌≡◌ {A = ℕ} 1 1) × (◌≡◌ {A = ℕ} 7 7)
unfolding get_proposal_id hash
get_proposal_id-eq_example =
    get_proposal_id-eq test_crates 1 1 7 7 "atom" "atom" "alice" "alice" 50 50 (λ e. e)
      (omega arith) (omega arith) (omega arith) (omega arith) refl

-- Two of three votes at a threshold of three; then the threshold falls to two, and the third
-- relayer goes.
abbrev lowered : Storage
lowered = bridge_with 2 three_relayers ((key, proposal_by false ("a" ∷ "b" ∷ [])) ∷ [])

abbrev two_left : Storage
two_left = bridge_with 2 ("a" ∷ "b" ∷ []) ((key, proposal_by false ("a" ∷ "b" ∷ [])) ∷ [])

two_left_lem : execute test_crates "admin" (remove_relayer "c") lowered ≡ ok (two_left, [])
unfolding execute execute_remove_relayer as_admin contains retain
two_left_lem = refl

two_left-IsStuck : IsStuck two_left key
unfolding may_load contains get_proposal_id hash proposal_key to_be_bytes
two_left-IsStuck = record {
  info = record { admin = "admin"; threshold = 2; relayers = "a" ∷ "b" ∷ [] };
  set_up = refl;
  all_voted = λ r m. m;
  waiting = refl;
}

execute-IsStuck_example :
    IsStuck (bridge_with 1 ("a" ∷ "b" ∷ []) ((key, proposal_by false ("a" ∷ "b" ∷ [])) ∷ [])) key
unfolding execute execute_change_threshold as_admin
execute-IsStuck_example =
    execute-IsStuck test_crates "admin" (change_threshold 1) two_left
      (bridge_with 1 ("a" ∷ "b" ∷ []) ((key, proposal_by false ("a" ∷ "b" ∷ [])) ∷ [])) [] key refl
      refl two_left-IsStuck
