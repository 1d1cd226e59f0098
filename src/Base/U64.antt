-- ===== src/Base/U64.antt =====
-- `u64` arithmetic with the overflow checks of the release profile on.
use Prim.Native.Nat.{ℕ, ◌+◌, ◌-◌, ◌*◌, ◌/◌, ◌≤◌, ◌<◌}
use mathlib.Core.Path.{◌≡◌}
use native.Mathlib.Omega.{arith}
use native.Mathlib.Nat.{div-le_self}
use neutron_contracts.Base.Tests.{eqb, if◌then◌else◌, leb, ltb}
use neutron_contracts.Base.Results.{Outcome, ok, panic}

-- 2 ^ 64
abbrev pub modulus : ℕ
modulus = 18446744073709551616

module _ {E : Type 0} where
  unfoldable pub add : ℕ → ℕ → Outcome E ℕ
  add a b = if ltb (a + b) modulus then ok (a + b) else panic

  unfoldable pub sub : ℕ → ℕ → Outcome E ℕ
  sub a b = if leb b a then ok (a - b) else panic

  unfoldable pub mul : ℕ → ℕ → Outcome E ℕ
  mul a b = if ltb (a * b) modulus then ok (a * b) else panic

  unfoldable pub div : ℕ → ℕ → Outcome E ℕ
  div a b = if eqb b 0 then panic else ok (a / b)

  pub add-eq-ok : (a b : ℕ) {c : ℕ} → add a b ≡ ok c → (c ≡ a + b) × (a + b < modulus)
  unfolding add
  add-eq-ok a b h = ground arith

  pub sub-eq-ok : (a b : ℕ) {c : ℕ} → sub a b ≡ ok c → (a ≡ c + b) × (b ≤ a)
  unfolding sub
  sub-eq-ok a b h = ground arith

  pub div-eq-ok : (a b : ℕ) {c : ℕ} → div a b ≡ ok c → c ≤ a
  unfolding div
  div-eq-ok a b h = ground (arith, div-le_self a b)
