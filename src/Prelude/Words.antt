-- ===== src/Prelude/Words.antt =====
-- `u64` and `u128`: values are natural numbers, and every operation writes out what it does at
-- the bound of its type.
use Prim.Native.Nat.{ℕ, ◌+◌, ◌-◌, ◌*◌, ◌%◌, ◌≤◌}
use mathlib.Core.Path.{◌≡◌}
use native.Mathlib.Omega.{arith}
use native.Mathlib.Nat.{mul-le-mul}
use route_d.Prelude.Tests.{if◌then◌else◌, leb}

abbrev pub u64_max : ℕ
u64_max = 0xFFFF_FFFF_FFFF_FFFF

abbrev pub u128_mod : ℕ
u128_mod = 0x1_0000_0000_0000_0000_0000_0000_0000_0000

-- `a.saturating_add(b)` and `a.saturating_sub(b)` on `u64`
abbrev pub saturating_add : ℕ → ℕ → ℕ
saturating_add a b = if leb (a + b) u64_max then a + b else u64_max

abbrev pub saturating_sub : ℕ → ℕ → ℕ
saturating_sub a b = a - b

-- `a * b` and `a + b` on `u128`, as a release build computes them
abbrev pub mul_u128 : ℕ → ℕ → ℕ
mul_u128 a b = (a * b) % u128_mod

abbrev pub add_u128 : ℕ → ℕ → ℕ
add_u128 a b = (a + b) % u128_mod

-- `u64::try_from(n).unwrap_or(u64::MAX)`
abbrev pub to_u64_or_max : ℕ → ℕ
to_u64_or_max n = if leb n u64_max then n else u64_max

-- A product of two `u64` fits a `u128`.
pub mul_fits : (a b : ℕ) → a ≤ u64_max → b ≤ u64_max → a * b ≤ u64_max * u64_max
mul_fits a b h k = mul-le-mul h k

pub mul_u128_exact : (a b : ℕ) → a ≤ u64_max → b ≤ u64_max → mul_u128 a b ≡ a * b
mul_u128_exact a b h k = omega (arith, mul_fits a b h k)
