-- ===== src/LsdToken/Instantiate/Sorted.antt =====
-- What the check for duplicate accounts finds (`validate_accounts` of contract.rs).
use neutron_contracts.Base.{
  ==_iff, ==_refl, Bool, Bool-cases, IsDistinct, List, String, [], ap, arith, contains, eqb,
  fail_if, false, if◌then◌else◌, inl, inr, length, map, nat_eq, not, ok, pair_eq, refl, string_eq,
  subst, suc, sym, true, ℕ, ◌==◌, ◌||◌, ◌↔◌, ◌∙◌, ◌∷◌, ◌≡◌, ◌≤◌,
}
use neutron_contracts.LsdToken.Instantiate.{
  Cw20Coin, dedup, dedup_after, insert_text, sort_texts, text_leb, validate_accounts,
}
use neutron_contracts.LsdToken.State.{ContractError, duplicate_initial_balance_addresses}
use text.Mathlib.TextEquality.{Char-path}

text_leb_total : (s t : String) → text_leb s t ≡ false → text_leb t s ≡ true
unfolding text_leb
text_leb_total String.[] t h = absurd cc
text_leb_total (String.◌∷◌ c s) String.[] h = refl
text_leb_total (String.◌∷◌ c s) (String.◌∷◌ d t) h = ground (arith, text_leb_total s t)

text_leb_trans : (s t u : String) → text_leb s t ≡ true → text_leb t u ≡ true → text_leb s u ≡ true
unfolding text_leb
text_leb_trans String.[] t u h k = refl
text_leb_trans (String.◌∷◌ c s) String.[] u h k = absurd cc
text_leb_trans (String.◌∷◌ c s) (String.◌∷◌ d t) String.[] h k = absurd cc
text_leb_trans (String.◌∷◌ c s) (String.◌∷◌ d t) (String.◌∷◌ e u) h k =
    ground (arith, text_leb_trans s t u)

text_leb_antisym : (s t : String) → text_leb s t ≡ true → text_leb t s ≡ true → s ≡ t
unfolding text_leb
text_leb_antisym String.[] String.[] h k = refl
text_leb_antisym String.[] (String.◌∷◌ d t) h k = absurd cc
text_leb_antisym (String.◌∷◌ c s) String.[] h k = absurd cc
text_leb_antisym (String.◌∷◌ c s) (String.◌∷◌ d t) h k =
    let same = Char-path c d (ground arith) in
    λ i. String.◌∷◌ (same i) (text_leb_antisym s t (ground arith) (ground arith) i)

length-insert_text : (a : String) (l : List String) → length (insert_text a l) ≡ suc (length l)
unfolding insert_text
length-insert_text a [] = refl
length-insert_text a (b ∷ l) = ground (arith, length-insert_text a l)

contains-insert_text :
    (a : String) (l : List String) (x : String)
    → contains (insert_text a l) x ≡ (a == x || contains l x)
unfolding insert_text contains
contains-insert_text a [] x = refl
contains-insert_text a (b ∷ l) x = ground (arith, contains-insert_text a l x)

-- Each text is at most those after it.
IsSorted : List String → Type 0
IsSorted [] = Unit
IsSorted (a ∷ l) = ((x : String) → contains l x ≡ true → text_leb a x ≡ true) × IsSorted l

below_all :
    (a b : String) (l : List String)
    → text_leb a b ≡ true
    → IsSorted (b ∷ l)
    → (x : String) → contains (b ∷ l) x ≡ true
    → text_leb a x ≡ true
unfolding contains IsSorted
below_all a b l h sorted x m = elim (Bool-cases (b == x)) [
  | inl here ↦ subst (λ y. text_leb a y ≡ true) ((==_iff b x).0 here) h
  | inr later ↦ text_leb_trans a b x h (sorted.0 x (ground (arith, later)))
]

insert_text-IsSorted : (a : String) (l : List String) → IsSorted l → IsSorted (insert_text a l)
unfolding insert_text IsSorted
insert_text-IsSorted a [] sorted = (λ x m. absurd (unfold contains in cc), tt)
insert_text-IsSorted a (b ∷ l) sorted = elim (Bool-cases (text_leb a b)) [
  | inl below ↦
      subst (λ k. IsSorted (if k then a ∷ b ∷ l else b ∷ insert_text a l)) (sym below)
        (below_all a b l below sorted, sorted)
  | inr above ↦
      subst (λ k. IsSorted (if k then a ∷ b ∷ l else b ∷ insert_text a l)) (sym above)
        (
          λ x m. elim (Bool-cases (a == x)) [
            | inl same ↦
                subst (λ y. text_leb b y ≡ true) ((==_iff a x).0 same) (text_leb_total a b above)
            | inr other ↦ sorted.0 x (cc (contains-insert_text a l x, m, other))
          ],
          insert_text-IsSorted a l sorted.1,
        )
]

sort_texts-IsSorted : (l : List String) → IsSorted (sort_texts l)
unfolding sort_texts IsSorted
sort_texts-IsSorted [] = tt
sort_texts-IsSorted (a ∷ l) = insert_text-IsSorted a (sort_texts l) (sort_texts-IsSorted l)

contains-sort_texts : (l : List String) (x : String) → contains (sort_texts l) x ≡ contains l x
unfolding sort_texts contains
contains-sort_texts [] x = refl
contains-sort_texts (a ∷ l) x =
    contains-insert_text a (sort_texts l) x ∙ ap (λ b. a == x || b) (contains-sort_texts l x)

length-sort_texts : (l : List String) → length (sort_texts l) ≡ length l
unfolding sort_texts
length-sort_texts [] = refl
length-sort_texts (a ∷ l) = length-insert_text a (sort_texts l) ∙ ap suc (length-sort_texts l)

-- Inserting neither makes nor hides a duplicate.
insert_text-IsDistinct :
    (a : String) (l : List String) → IsDistinct (insert_text a l) ↔ IsDistinct (a ∷ l)
unfolding insert_text contains
insert_text-IsDistinct a [] = (λ d. d, λ d. d)
insert_text-IsDistinct a (b ∷ l) =
    let P : Bool → Type 0 =
      λ k. IsDistinct (if k then a ∷ b ∷ l else b ∷ insert_text a l) ↔ IsDistinct (a ∷ b ∷ l) in
    let (to, back) = insert_text-IsDistinct a l in
    elim (Bool-cases (text_leb a b)) [
      | inl below ↦ subst P (sym below) (λ d. d, λ d. d)
      | inr above ↦ subst P (sym above) (
        λ (no_b, d).
            let (no_a, e) = to d in
            (
              ground (arith, no_a, no_b, contains-insert_text a l b, ==_iff a b, ==_iff b a),
              (ground (arith, no_b, contains-insert_text a l b), e),
            ),
        λ (no_a, (no_b, d)). (
          ground (arith, no_a, no_b, contains-insert_text a l b, ==_iff a b, ==_iff b a),
          back (ground (arith, no_a), d),
        ),
      )
    ]

sort_texts-IsDistinct : (l : List String) → IsDistinct (sort_texts l) ↔ IsDistinct l
unfolding sort_texts
sort_texts-IsDistinct [] = (λ d. d, λ d. d)
sort_texts-IsDistinct (a ∷ l) =
    let (to, back) = sort_texts-IsDistinct l in
    let (out, into) = insert_text-IsDistinct a (sort_texts l) in
    (
      λ d. let (no_a, e) = out d in (sym (contains-sort_texts l a) ∙ no_a, to e),
      λ (no_a, d). into (contains-sort_texts l a ∙ no_a, back d),
    )

length-dedup_after : (a : String) (l : List String) → length (dedup_after a l) ≤ length l
unfolding dedup_after
length-dedup_after a [] = omega arith
length-dedup_after a (b ∷ l) = ground (arith, length-dedup_after b l)

-- In a sorted list, a text that differs from the first one is not among those after it either.
unlisted :
    (a b : String) (l : List String)
    → IsSorted (a ∷ b ∷ l)
    → (a == b) ≡ false
    → contains (b ∷ l) a ≡ false
unfolding IsSorted contains
unlisted a b l (below, (below_b, _)) other = elim (Bool-cases (contains (b ∷ l) a)) [
  | inl listed ↦
      let later : contains l a ≡ true = ground (arith, other, ==_iff a b, ==_iff b a) in
      absurd (
        ground (
          arith,
          other,
          ==_iff a b,
          text_leb_antisym a b (below b (ground (arith, ==_refl b))) (below_b a later),
        ))
  | inr no_more ↦ no_more
]

-- In a sorted list, nothing is left out when no text occurs twice.
dedup_after-IsDistinct :
    (a : String) (l : List String)
    → IsSorted (a ∷ l)
    → (length (dedup_after a l) ≡ length l) ↔ IsDistinct (a ∷ l)
unfolding dedup_after contains IsSorted
dedup_after-IsDistinct a [] sorted = (λ _. (refl, tt), λ _. refl)
dedup_after-IsDistinct a (b ∷ l) sorted =
    let rest = dedup_after b l in
    let P : Bool → Type 0 =
      λ k. (length (if k then rest else b ∷ rest) ≡ suc (length l)) ↔ IsDistinct (a ∷ b ∷ l) in
    let (to, back) = dedup_after-IsDistinct b l sorted.1 in
    elim (Bool-cases (a == b)) [
      | inl same ↦ subst P (sym same) (
        λ e. absurd (omega (arith, length-dedup_after b l, e)),
        λ (no_a, _). absurd (ground (arith, same, ==_iff a b, ==_iff b a)),
      )
      | inr other ↦
          subst P (sym other)
            (λ e. (unlisted a b l sorted other, to (omega (arith, e))), λ (_, d). ap suc (back d))
    ]

dedup-IsDistinct : (l : List String) → IsSorted l → (length (dedup l) ≡ length l) ↔ IsDistinct l
unfolding dedup
dedup-IsDistinct [] sorted = (λ _. tt, λ _. refl)
dedup-IsDistinct (a ∷ l) sorted =
    let (to, back) = dedup_after-IsDistinct a l sorted in
    (λ e. to (omega (arith, e)), λ d. ap suc (back d))

length-map_addresses : (l : List Cw20Coin) → length (map (λ (c : Cw20Coin). c.address) l) ≡ length l
length-map_addresses [] = refl
length-map_addresses (c ∷ l) = ap suc (length-map_addresses l)

fail_if_iff : (n m : ℕ) (e : ContractError) → (fail_if (not (eqb n m)) e ≡ ok tt) ↔ (n ≡ m)
fail_if_iff n m e = (λ h. ground arith, λ h. ground arith)

-- The check accepts the accounts exactly when no two have one address.
pub validate_accounts-IsDistinct :
    (accounts : List Cw20Coin)
    → (validate_accounts accounts ≡ ok tt) ↔ IsDistinct (map (λ (c : Cw20Coin). c.address) accounts)
unfolding validate_accounts
validate_accounts-IsDistinct accounts =
    let addresses = map (λ (c : Cw20Coin). c.address) accounts in
    let same = length-sort_texts addresses ∙ length-map_addresses accounts in
    let (to, back) = dedup-IsDistinct (sort_texts addresses) (sort_texts-IsSorted addresses) in
    let (out, into) =
      fail_if_iff (length (dedup (sort_texts addresses))) (length accounts)
        duplicate_initial_balance_addresses in
    let (original, sorted) = sort_texts-IsDistinct addresses in
    (λ h. original (to (out h ∙ sym same)), λ d. into (back (sorted d) ∙ same))
