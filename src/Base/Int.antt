-- ===== src/Base/Int.antt =====
-- `i64` as an integer, and its saturating sum with a `u64`.
use Prim.Native.Nat.{ℕ, ◌+◌, ◌-◌, ◌<◌}
use neutron_contracts.Base.Tests.{if◌then◌else◌, ltb}
use neutron_contracts.Base.U64
use mathlib.Core.Path.{◌≡◌}
use native.Mathlib.Omega.{arith}
use mathlib.Core.Bool.{Bool}
use neutron_contracts.Base.Results.{Outcome, ok, panic}

-- `negsuc n` is -(n + 1).
pub data ℤ : Type 0 where
  pos : ℕ → ℤ
  negsuc : ℕ → ℤ

-- a - b, as an integer.
abbrev pub sub_ℕ : ℕ → ℕ → ℤ
sub_ℕ a b = if ltb a b then negsuc (b - a - 1) else pos (a - b)

-- `n.saturating_add_signed(z)`
unfoldable pub saturating_add_signed : ℕ → ℤ → ℕ
saturating_add_signed n (pos k) = if ltb (n + k) U64.modulus then n + k else U64.modulus - 1
saturating_add_signed n (negsuc k) = n - (k + 1)

-- `n as i64` of a `u64`: from 2 ^ 63 on it is negative.
abbrev pub as_i64 : ℕ → ℤ
as_i64 n = if ltb n 9223372036854775808 then pos n else negsuc (U64.modulus - 1 - n)

abbrev pub sub_ℤ : ℤ → ℤ → ℤ
sub_ℤ (pos a) (pos b) = sub_ℕ a b
sub_ℤ (pos a) (negsuc b) = pos (a + b + 1)
sub_ℤ (negsuc a) (pos b) = negsuc (a + b)
sub_ℤ (negsuc a) (negsuc b) = sub_ℕ b a

abbrev pub is_i64 : ℤ → Bool
is_i64 (pos n) = ltb n 9223372036854775808
is_i64 (negsuc n) = ltb n 9223372036854775808

-- `a - b` on `i64`, with the overflow check
unfoldable pub sub_i64 : {E : Type 0} → ℤ → ℤ → Outcome E ℤ
sub_i64 a b = if is_i64 (sub_ℤ a b) then ok (sub_ℤ a b) else panic

-- Adding a difference back gives the number that it was taken from.
pub saturating_add_signed-sub_i64 :
    {E : Type 0} (n q : ℕ) (z : ℤ)
    → n < 9223372036854775808
    → q < 9223372036854775808
    → ◌≡◌ {A = Outcome E ℤ} (sub_i64 (as_i64 n) (as_i64 q)) (ok z)
    → saturating_add_signed q z ≡ n
unfolding sub_i64 saturating_add_signed
saturating_add_signed-sub_i64 n q z a b h = ground arith
