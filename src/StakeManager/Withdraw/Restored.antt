-- ===== src/StakeManager/Withdraw/Restored.antt =====
-- A withdrawal that fails on the remote chain releases what it took
-- (contracts/stake_manager/src/execute_withdraw.rs).
use neutron_contracts.Base.{
  ==_iff, ==_refl, All, All-contains, Bool-cases, List, Option, Option-cases, String, [], ap, arith,
  contains, false, if◌then◌else◌, inl, inr, map, may_load, may_load-save, nat_eq, none, ok, pair_eq,
  refl, save, some, some_injective, string_eq, subst, sym, true, ℕ, ◌&&◌, ◌<◌, ◌==◌, ◌∙◌, ◌∷◌, ◌≡◌,
}
use neutron_contracts.Base.Text.{has_char, split, to_string}
use neutron_contracts.Base.Text.RoundTrip.{
  parse-to_string, split-concat, split-join, to_string-has_char,
}
use neutron_contracts.Base.Uint128
use neutron_contracts.Base.U64
use neutron_contracts.StakeManager.Types.{
  Addr, PoolInfo, SudoPayload, UnstakeInfo, coin_eq, default, era_status_eq, pending,
  validator_update_status_eq,
}
use neutron_contracts.StakeManager.Messages.{MessageInfo, Response}
use neutron_contracts.StakeManager.Storage.{Storage, or_default, reply_id_range_start}
use neutron_contracts.StakeManager.Helper.{Sdk}
use neutron_contracts.StakeManager.Withdraw.{
  Unstakes, execute_withdraw, release_unstakes, sudo_withdraw_failed_callback, withdraw_message,
}
use neutron_contracts.StakeManager.Withdraw.Taken.{IsReady, Taken, mark}
use neutron_contracts.StakeManager.Withdraw.Paid.{execute_withdraw-Paid}

abbrev released : Option UnstakeInfo → Option UnstakeInfo
released none = none
released (some u) = some (record u { status = default })

abbrev IsStored : String → Unstakes → ℕ → Type 0
IsStored pool_addr m i = (u : UnstakeInfo) × (may_load (pool_addr, i) m ≡ some u)

IsStored-save :
    (pool_addr : String) (i : ℕ) (v : UnstakeInfo) (m : Unstakes) (is : List ℕ)
    → All (IsStored pool_addr m) is
    → All (IsStored pool_addr (save (pool_addr, i) v m)) is
IsStored-save pool_addr i v m [] all = tt
IsStored-save pool_addr i v m (j ∷ is) ((u, e), all) = (
  elim (Option-cases (may_load (pool_addr, j) (save (pool_addr, i) v m))) [
    | inl lost ↦ absurd (ground (arith, e, may_load-save (pool_addr, j) (pool_addr, i) v m))
    | inr found ↦ found
  ],
  IsStored-save pool_addr i v m is all,
)

release_unstakes_total :
    (pool_addr : String) (is : List ℕ) (m : Unstakes)
    → All (IsStored pool_addr m) is
    → All (λ i. i < U64.modulus) is
    → (m' : Unstakes) × (release_unstakes pool_addr (map to_string is) m ≡ ok m')
      × ((q : String) (j : ℕ)
          → may_load (q, j) m' ≡ (
              if (q == pool_addr) && contains is j
              then released (may_load (q, j) m)
              else may_load (q, j) m))
unfolding release_unstakes contains
release_unstakes_total pool_addr [] m all small = (m, refl, λ q j. ground arith)
release_unstakes_total pool_addr (i ∷ is) m ((u, stored), all) (le, small) =
    let new = record u { status = default } in
    let (m', run, look) =
      release_unstakes_total pool_addr is (save (pool_addr, i) new m)
        (IsStored-save pool_addr i new m is all) small in
    (
      m',
      ground (arith, run, stored, parse-to_string U64.modulus i le (omega (arith, le))),
      λ q j. ground (
        arith,
        stored,
        look q j,
        ==_iff q pool_addr,
        ==_iff pool_addr q,
        may_load-save (q, j) (pool_addr, i) new m,
      ),
    )

has_char-to_strings :
    (is : List ℕ)
    → All (λ i. i < U64.modulus) is
    → All (λ p. has_char "_" p ≡ false) (map to_string is)
has_char-to_strings [] small = tt
has_char-to_strings (i ∷ is) (le, small) =
    (to_string-has_char i "_" (omega (arith, le)) (omega arith), has_char-to_strings is small)

split-withdraw_message :
    (total : ℕ) (sender receiver : Addr) (i : ℕ) (is : List ℕ)
    → total < Uint128.modulus
    → has_char "_" sender ≡ false
    → has_char "_" receiver ≡ false
    → All (λ i. i < U64.modulus) (i ∷ is)
    → split "_" (withdraw_message total sender receiver (i ∷ is))
      ≡ to_string total ∷ sender ∷ receiver ∷ map to_string (i ∷ is)
unfolding withdraw_message
split-withdraw_message total sender receiver i is fits a b small =
    split-concat "_" (to_string total) _
      (to_string-has_char total "_" (omega (arith, fits)) (omega arith))
    ∙ ap (λ l. to_string total ∷ l)
        (split-concat "_" sender _ a
          ∙ ap (λ l. sender ∷ l)
              (split-concat "_" receiver _ b
                ∙ ap (λ l. receiver ∷ l)
                    (split-join "_" (to_string i) (map to_string is)
                      (has_char-to_strings (i ∷ is) small))))

marked-IsStored :
    (p : PoolInfo) (pool_addr : String) (sender : Addr) (m m' : Unstakes) (is : List ℕ)
    → All (IsReady p pool_addr sender m) is
    → All (λ i. may_load (pool_addr, i) m' ≡ mark (may_load (pool_addr, i) m)) is
    → All (IsStored pool_addr m') is
marked-IsStored p pool_addr sender m m' [] all marked = tt
marked-IsStored p pool_addr sender m m' (i ∷ is) (r, all) (e, marked) = (
  (record r.unstake { status = pending }, e ∙ ap mark r.stored),
  marked-IsStored p pool_addr sender m m' is all marked,
)

released-mark : (u : UnstakeInfo) → u.status ≡ default → released (mark (some u)) ≡ some u
released-mark u e = λ k. some (record u { status = sym e k })

restored-lookup :
    (p : PoolInfo) (pool_addr : String) (sender : Addr) (is : List ℕ) (t t' : ℕ)
    (m m' m'' : Unstakes)
    → Taken p pool_addr sender is t m t' m'
    → ((q : String) (j : ℕ)
        → may_load (q, j) m'' ≡ (
            if (q == pool_addr) && contains is j
            then released (may_load (q, j) m')
            else may_load (q, j) m'))
    → (q : String) (j : ℕ) → may_load (q, j) m'' ≡ may_load (q, j) m
restored-lookup p pool_addr sender is t t' m m' m'' taken look q j =
    elim (Bool-cases ((q == pool_addr) && contains is j)) [
      | inl both ↦
          let here : q ≡ pool_addr = ground (arith, both, ==_iff q pool_addr) in
          let listed : contains is j ≡ true = ground (arith, both) in
          let r = All-contains _ is j taken.ready listed in
          let same : may_load (pool_addr, j) m' ≡ mark (some r.unstake) =
            All-contains _ is j taken.marked listed ∙ ap mark r.stored in
          let back : may_load (pool_addr, j) m'' ≡ may_load (pool_addr, j) m = ground (
            arith,
            look pool_addr j,
            ==_refl pool_addr,
            listed,
            same,
            r.stored,
            released-mark r.unstake r.free,
          ) in
          subst (λ a. may_load (a, j) m'' ≡ may_load (a, j) m) (sym here) back
      | inr other ↦ ground (arith, look q j, taken.others q j other)
    ]

-- When a withdrawal fails on the remote chain, its callback succeeds and every unstake is again
-- as it was before the withdrawal. The names of sender and receiver hold no underscore, the
-- indices are `u64`, and no other call has changed the unstakes in between.
pub execute_withdraw_restored :
    (sdk : Sdk) (info : MessageInfo) (pool_addr : String) (receiver : Addr) (is : List ℕ)
    (s s' t : Storage) (r : Response) (payload : SudoPayload)
    → execute_withdraw sdk info pool_addr receiver is s ≡ ok (s', r)
    → may_load (or_default s.latest_reply_id reply_id_range_start) s'.reply_id_to_payload
      ≡ some payload
    → has_char "_" info.sender ≡ false
    → has_char "_" receiver ≡ false
    → All (λ i. i < U64.modulus) is
    → t.unstakes_of_index ≡ s'.unstakes_of_index
    → (t' : Storage) × (sudo_withdraw_failed_callback payload t ≡ ok (t', []))
      × ((q : String) (j : ℕ)
          → may_load (q, j) t'.unstakes_of_index ≡ may_load (q, j) s.unstakes_of_index)
unfolding sudo_withdraw_failed_callback execute_withdraw
execute_withdraw_restored sdk info pool_addr receiver [] s s' t r payload h found a b small same =
    absurd (ground arith)
execute_withdraw_restored sdk info pool_addr receiver (i ∷ is) s s' t r payload h found a b small
      same =
    let paid = execute_withdraw-Paid sdk info pool_addr receiver (i ∷ is) s s' r h in
    let kept = some_injective (sym found ∙ paid.saved) in
    let parts =
      ap (λ (q : SudoPayload). split "_" q.message) kept
      ∙ split-withdraw_message paid.total info.sender receiver i is (paid.taken.fits (omega arith))
          a b small in
    let (m'', run, look) =
      release_unstakes_total pool_addr (i ∷ is) s'.unstakes_of_index
        (marked-IsStored paid.pool pool_addr info.sender s.unstakes_of_index s'.unstakes_of_index
          (i ∷ is) paid.taken.ready paid.taken.marked)
        small in
    (
      record t { unstakes_of_index = m'' },
      ground (arith, kept, parts, same, run),
      restored-lookup paid.pool pool_addr info.sender (i ∷ is) 0 paid.total s.unstakes_of_index
          s'.unstakes_of_index m'' paid.taken look,
    )
