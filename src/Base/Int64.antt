-- ===== src/Base/Int64.antt =====
-- Go's int64 and uint64: bit patterns below 2 ^ 64, and the integers that they stand for.
use Prim.Native.Nat.{ℕ, suc, ◌+◌, ◌-◌, ◌%◌, ◌^◌, ◌<◌, ◌≤◌}
use mathlib.Core.Path.{◌≡◌}
use native.Mathlib.Omega.{arith}
use gotgcall.Base.Tests.{ltb, if◌then◌else◌}

-- `negsuc n` is -(n + 1).
pub data ℤ : Type 0 where
  pos : ℕ → ℤ
  negsuc : ℕ → ℤ

-- The value range of int64.
abbrev pub IsInt64 : ℤ → Type 0
IsInt64 (pos n) = n < 2 ^ 63
IsInt64 (negsuc n) = n < 2 ^ 63

-- The bit pattern of an int64.
abbrev pub to_bits : ℤ → ℕ
to_bits (pos n) = n
to_bits (negsuc n) = 2 ^ 64 - suc n

-- The int64 of a bit pattern.
abbrev pub of_bits : ℕ → ℤ
of_bits b = if ltb b (2 ^ 63) then pos b else negsuc (2 ^ 64 - suc b)

-- `int64(u) + d` on a uint64 `u`, with wrap-around.
unfoldable pub add_signed : ℕ → ℤ → ℤ
add_signed u d = of_bits ((u + to_bits d) % 2 ^ 64)

-- Without overflow the sum is the mathematical one.
pub add_signed-pos : (u n : ℕ) → u + n < 2 ^ 63 → add_signed u (pos n) ≡ pos (u + n)
unfolding add_signed
add_signed-pos u n h = ground arith

pub add_signed-back :
    (u n : ℕ) → u < 2 ^ 63 → n < 2 ^ 63 → suc n ≤ u → add_signed u (negsuc n) ≡ pos (u - suc n)
unfolding add_signed
add_signed-back u n hu hn h = ground arith

pub add_signed-under :
    (u n : ℕ) → u < 2 ^ 63 → n < 2 ^ 63 → u < suc n → add_signed u (negsuc n) ≡ negsuc (n - u)
unfolding add_signed
add_signed-under u n hu hn h = ground arith
