-- ===== src/Base/Maps.antt =====
-- Equality tests as an interface, and the storage maps as association lists.
use Prim.Native.Nat.{ℕ, ◌+◌}
use Prim.Native.String.{String}
use mathlib.Core.Path.{◌≡◌, refl}
use mathlib.Core.Logic.{◌↔◌}
use mathlib.Core.Bool.{Bool, true, false, ◌&&◌}
use mathlib.Core.Option.{Option, none, some}
use mathlib.Core.List.{List, [], ◌∷◌}
use native.Mathlib.Omega.{arith}
use text.Mathlib.Text.{◌==◌ as str_eq}
use text.Mathlib.TextEquality.{eq_iff}
use neutron_contracts.Base.Tests.{eqb, eqb_iff, if◌then◌else◌}

pub record Eq {ℓ} (A : Type ℓ) : Type ℓ where
  pub same : A → A → Bool
  pub same_iff : (x y : A) → (same x y ≡ true) ↔ (x ≡ y)

infix 50 ◌==◌
abbrev pub ◌==◌ {ℓ} : {A : Type ℓ} ⦃by_eq : Eq A⦄ → (x y : A) → Bool
◌==◌ ⦃by_eq⦄ = by_eq.same

pub ==_iff {ℓ} : {A : Type ℓ} ⦃e : Eq A⦄ (a b : A) → ((a == b) ≡ true) ↔ (a ≡ b)
==_iff ⦃e⦄ = e.same_iff

pub ==_refl {ℓ} : {A : Type ℓ} ⦃e : Eq A⦄ (a : A) → (a == a) ≡ true
==_refl a = (==_iff a a).1 refl

instance abbrev pub nat_eq : Eq ℕ
nat_eq = record { same = eqb; same_iff = eqb_iff }

module _ {ℓ κ} {A : Type ℓ} {B : Type κ} ⦃e : Eq A⦄ ⦃f : Eq B⦄ where
  abbrev pub beq_pair : A × B → A × B → Bool
  beq_pair (a, b) (c, d) = e.same a c && f.same b d

  pub beq_pair_iff : (p q : A × B) → (beq_pair p q ≡ true) ↔ (p ≡ q)
  beq_pair_iff (a, b) (c, d) = ground (arith, e.same_iff a c, f.same_iff b d)

  instance abbrev pub pair_eq : Eq (A × B)
  pair_eq = record { same = beq_pair; same_iff = beq_pair_iff }

module _ {ℓ} {A : Type ℓ} ⦃e : Eq A⦄ where
  abbrev pub same_items : List A → List A → Bool
  same_items [] [] = true
  same_items [] (y ∷ ys) = false
  same_items (x ∷ xs) [] = false
  same_items (x ∷ xs) (y ∷ ys) = e.same x y && same_items xs ys

  pub same_items_iff : (xs ys : List A) → (same_items xs ys ≡ true) ↔ (xs ≡ ys)
  same_items_iff [] [] = ground arith
  same_items_iff [] (y ∷ ys) = ground arith
  same_items_iff (x ∷ xs) [] = ground arith
  same_items_iff (x ∷ xs) (y ∷ ys) = ground (arith, e.same_iff x y, same_items_iff xs ys)

  instance abbrev pub list_eq : Eq (List A)
  list_eq = record { same = same_items; same_iff = same_items_iff }

instance abbrev pub string_eq : Eq String
string_eq = record { same = str_eq; same_iff = eq_iff }

-- The key is stored at most once by `save`.
abbrev pub Map {ℓ κ} : Type ℓ → Type κ → Type (ℓ ⊔ κ)
Map K V = List (K × V)

module _ {ℓ κ} {K : Type ℓ} {V : Type κ} ⦃e : Eq K⦄ where
  unfoldable pub may_load : K → Map K V → Option V
  may_load k [] = none
  may_load k ((j, v) ∷ m) = if j == k then some v else may_load k m

  unfoldable pub save : K → V → Map K V → Map K V
  save k v [] = (k, v) ∷ []
  save k v ((j, w) ∷ m) = if j == k then (k, v) ∷ m else (j, w) ∷ save k v m

  unfoldable pub remove : K → Map K V → Map K V
  remove k [] = []
  remove k ((j, w) ∷ m) = let rest = remove k m in if j == k then rest else (j, w) ∷ rest

  -- A saved value is found again, and no other key changes.
  pub may_load-save :
      (j k : K) (v : V) (m : Map K V)
      → may_load j (save k v m) ≡ (if k == j then some v else may_load j m)
  unfolding may_load save
  may_load-save j k v [] = refl
  may_load-save j k v ((i, w) ∷ m) =
      ground (arith, ==_iff k j, ==_iff i k, ==_iff i j, may_load-save j k v m)

  -- A removed key is gone, and no other key changes.
  pub may_load-remove :
      (j k : K) (m : Map K V) → may_load j (remove k m) ≡ (if k == j then none else may_load j m)
  unfolding may_load remove
  may_load-remove j k [] = ground arith
  may_load-remove j k ((i, w) ∷ m) =
      ground (arith, ==_iff k j, ==_iff i k, ==_iff i j, may_load-remove j k m)

  -- The last value saved under a key is all that counts.
  pub save-save : (k : K) (v w : V) (m : Map K V) → save k v (save k w m) ≡ save k v m
  unfolding save
  save-save k v w [] = ground (arith, ==_refl k)
  save-save k v w ((i, x) ∷ m) = ground (arith, ==_refl k, save-save k v w m)

  pub may_load-save_self : (k : K) (v : V) (m : Map K V) → may_load k (save k v m) ≡ some v
  may_load-save_self k v m = simp (may_load-save, ==_refl)

-- `MAP.has(storage, key)`
abbrev pub has {ℓ κ} : {K : Type ℓ} {V : Type κ} ⦃e : Eq K⦄ → K → Map K V → Bool
has k m = elim (may_load k m) [ none ↦ false | some _ ↦ true ]

-- The sum of the values of a map, as in a ledger of balances.
unfoldable pub sum_values {ℓ} : {K : Type ℓ} → Map K ℕ → ℕ
sum_values [] = 0
sum_values ((k, v) ∷ m) = v + sum_values m

-- `.unwrap_or_default()` of an amount
abbrev pub or_zero : Option ℕ → ℕ
or_zero none = 0
or_zero (some n) = n

module _ {ℓ} {K : Type ℓ} ⦃e : Eq K⦄ where
  pub sum_values-save :
      (k : K) (v : ℕ) (m : Map K ℕ)
      → sum_values (save k v m) + or_zero (may_load k m) ≡ sum_values m + v
  unfolding sum_values save may_load
  sum_values-save k v [] = omega arith
  sum_values-save k v ((j, w) ∷ m) = ground (arith, sum_values-save k v m)
