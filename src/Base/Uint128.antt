-- ===== src/Base/Uint128.antt =====
-- `Uint128` of cosmwasm-std with its operators, which panic where the result does not fit.
use Prim.Native.Nat.{ℕ, ◌+◌, ◌-◌, ◌*◌, ◌/◌, ◌≤◌, ◌<◌}
use mathlib.Core.Path.{◌≡◌}
use mathlib.Core.Option.{Option, none, some}
use native.Mathlib.Omega.{arith}
use neutron_contracts.Base.Tests.{ltb, leb, eqb, if◌then◌else◌}
use neutron_contracts.Base.Results.{Outcome, ok, panic}

-- 2 ^ 128
abbrev pub modulus : ℕ
modulus = 340282366920938463463374607431768211456

module _ {E : Type 0} where
  unfoldable pub add : ℕ → ℕ → Outcome E ℕ
  add a b = if ltb (a + b) modulus then ok (a + b) else panic

  unfoldable pub sub : ℕ → ℕ → Outcome E ℕ
  sub a b = if leb b a then ok (a - b) else panic

  unfoldable pub mul : ℕ → ℕ → Outcome E ℕ
  mul a b = if ltb (a * b) modulus then ok (a * b) else panic

  unfoldable pub div : ℕ → ℕ → Outcome E ℕ
  div a b = if eqb b 0 then panic else ok (a / b)

  pub add-eq-ok : (a b : ℕ) {c : ℕ} → add a b ≡ ok c → (c ≡ a + b) × (a + b < modulus)
  unfolding add
  add-eq-ok a b h = ground arith

  pub sub-eq-ok : (a b : ℕ) {c : ℕ} → sub a b ≡ ok c → (a ≡ c + b) × (b ≤ a)
  unfolding sub
  sub-eq-ok a b h = ground arith

  pub mul-eq-ok : (a b : ℕ) {c : ℕ} → mul a b ≡ ok c → (c ≡ a * b) × (a * b < modulus)
  unfolding mul
  mul-eq-ok a b h = ground arith

  pub div-eq-ok : (a b : ℕ) {c : ℕ} → div a b ≡ ok c → (c ≡ a / b) × (0 < b)
  unfolding div
  div-eq-ok a b h = ground arith

  pub add_total : (a b : ℕ) → a + b < modulus → add a b ≡ ok (a + b)
  unfolding add
  add_total a b h = ground arith

  pub sub_total : (a b : ℕ) → b ≤ a → sub a b ≡ ok (a - b)
  unfolding sub
  sub_total a b h = ground arith

  pub mul_total : (a b : ℕ) → a * b < modulus → mul a b ≡ ok (a * b)
  unfolding mul
  mul_total a b h = ground arith

  pub div_total : (a b : ℕ) → 0 < b → div a b ≡ ok (a / b)
  unfolding div
  div_total a b h = ground arith

-- `checked_sub`, whose failure is a value.
unfoldable pub checked_sub : ℕ → ℕ → Option ℕ
checked_sub a b = if leb b a then some (a - b) else none
