-- ===== src/Prelude/Words.antt =====
-- Machine words: the arithmetic of u64 in a release build, which wraps around.
use Prim.Native.Nat.{ℕ, ◌+◌, ◌-◌, ◌*◌, ◌%◌, ◌^◌, ◌<◌}
use mathlib.Core.Path.{◌≡◌}
use native.Mathlib.Omega.{arith}
use orb.Prelude.Tests.{ltb, if◌then◌else◌}

abbrev pub u16_mod : ℕ
u16_mod = 2 ^ 16

abbrev pub u32_mod : ℕ
u32_mod = 2 ^ 32

abbrev pub u64_mod : ℕ
u64_mod = 2 ^ 64

abbrev pub wrap_u64 : ℕ → ℕ
wrap_u64 n = n % u64_mod

unfoldable pub add_u64 : ℕ → ℕ → ℕ
add_u64 a b = wrap_u64 (a + b)

unfoldable pub mul_u64 : ℕ → ℕ → ℕ
mul_u64 a b = wrap_u64 (a * b)

pub add_u64_exact : (a b : ℕ) → a + b < u64_mod → add_u64 a b ≡ a + b
unfolding add_u64
add_u64_exact a b h = omega arith

pub mul_u64_exact : (a b : ℕ) → a * b < u64_mod → mul_u64 a b ≡ a * b
unfolding mul_u64
mul_u64_exact a b h = omega arith

-- A signed integer; `negsuc n` is -(n + 1).
pub data ℤ : Type 0 where
  pos : ℕ → ℤ
  negsuc : ℕ → ℤ

-- `n as i64` of a u64: the same 64 bits, read in two's complement.
abbrev pub as_i64 : ℕ → ℤ
as_i64 n = if ltb n (2 ^ 63) then pos n else negsuc (u64_mod - 1 - n)
