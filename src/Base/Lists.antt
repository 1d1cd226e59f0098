-- ===== src/Base/Lists.antt =====
-- Lists measured by native numbers, and the loops over them that the contracts share.
use Prim.Native.Nat.{ℕ, suc, ◌+◌, ◌≤◌}
use mathlib.Core.Path.{◌≡◌, refl, subst}
use mathlib.Core.Bool.{Bool, true, false, ◌||◌}
use mathlib.Core.Logic.{inl, inr}
use mathlib.Core.List.{List, [], ◌∷◌, ◌++◌}
use native.Mathlib.Omega.{arith}
use neutron_contracts.Base.Tests.{Bool-cases, if◌then◌else◌}
use neutron_contracts.Base.Maps.{Eq, ◌==◌, ==_iff}

module _ {ℓ} {A : Type ℓ} where
  abbrev pub length : List A → ℕ
  length [] = 0
  length (x ∷ xs) = suc (length xs)

  pub length-append : (xs ys : List A) → length (xs ++ ys) ≡ length xs + length ys
  length-append [] ys = omega arith
  length-append (x ∷ xs) ys = omega (arith, length-append xs ys)

  -- `v.push(x)`
  abbrev pub push : List A → A → List A
  push xs x = xs ++ x ∷ []

  -- `v.retain(|x| keep(x))`
  unfoldable pub retain : (A → Bool) → List A → List A
  retain keep [] = []
  retain keep (x ∷ xs) = let rest = retain keep xs in if keep x then x ∷ rest else rest

  pub length-retain-le : (keep : A → Bool) (xs : List A) → length (retain keep xs) ≤ length xs
  unfolding retain
  length-retain-le keep [] = omega arith
  length-retain-le keep (x ∷ xs) = ground (arith, length-retain-le keep xs)

-- A predicate on every item.
abbrev pub All {ℓ κ} : {A : Type ℓ} → (A → Type κ) → List A → Type κ
All P [] = Unit
All P (x ∷ xs) = P x × All P xs

module _ {ℓ} {A : Type ℓ} ⦃e : Eq A⦄ where
  -- `v.contains(&x)`
  unfoldable pub contains : List A → A → Bool
  contains [] a = false
  contains (x ∷ xs) a = x == a || contains xs a

  pub contains-push : (xs : List A) (x a : A) → contains (push xs x) a ≡ (contains xs a || (x == a))
  unfolding contains
  contains-push [] x a = ground arith
  contains-push (y ∷ xs) x a = ground (arith, contains-push xs x a)

  -- What holds of every item holds of one that the list contains.
  pub All-contains {κ} :
      (P : A → Type κ) (xs : List A) (a : A) → All P xs → contains xs a ≡ true → P a
  unfolding contains
  All-contains P [] a all h = absurd cc
  All-contains P (x ∷ xs) a all h = elim (Bool-cases (x == a)) [
    | inl here ↦ subst P ((==_iff x a).0 here) all.0
    | inr there ↦ All-contains P xs a all.1 (ground (arith, there))
  ]

  -- No item occurs twice.
  abbrev pub IsDistinct : List A → Type 0
  IsDistinct [] = Unit
  IsDistinct (x ∷ xs) = (contains xs x ≡ false) × IsDistinct xs

  pub push-IsDistinct :
      (xs : List A) (x : A) → IsDistinct xs → contains xs x ≡ false → IsDistinct (push xs x)
  unfolding contains
  push-IsDistinct [] x d h = (refl, tt)
  push-IsDistinct (y ∷ xs) x d h =
      ground (arith, contains-push xs x y, ==_iff y x, ==_iff x y, push-IsDistinct xs x d.1)

  pub contains-retain :
      (keep : A → Bool) (xs : List A) (a : A)
      → contains xs a ≡ false
      → contains (retain keep xs) a ≡ false
  unfolding contains retain
  contains-retain keep [] a h = refl
  contains-retain keep (x ∷ xs) a h = ground (arith, contains-retain keep xs a)

  pub retain-IsDistinct :
      (keep : A → Bool) (xs : List A) → IsDistinct xs → IsDistinct (retain keep xs)
  unfolding retain
  retain-IsDistinct keep [] d = tt
  retain-IsDistinct keep (x ∷ xs) d =
      ground (arith, retain-IsDistinct keep xs d.1, contains-retain keep xs x d.0)
