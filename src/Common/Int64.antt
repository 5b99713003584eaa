-- ===== src/Common/Int64.antt =====
-- Go's `int64`: an integer in range, with arithmetic that wraps around and division towards zero.
use distributed_storage_plat.Common.Tests.{ltb, if◌then◌else◌}
use distributed_storage_plat.Common.Int.{ℤ, pos, negsuc, pos_part, neg_part, ◌+ℤ◌, ◌-ℤ◌, ◌*ℤ◌}
use Prim.Native.Nat.{ℕ, suc, ◌-◌, ◌/◌, ◌%◌, ◌≤◌, ◌<◌}
use mathlib.Core.Path.{◌≡◌}
use native.Mathlib.Omega.{arith}

-- 2 ^ 64 and 2 ^ 63.
abbrev pub u64_mod : ℕ
u64_mod = 18446744073709551616

abbrev pub i64_lim : ℕ
i64_lim = 9223372036854775808

abbrev pub InRange : ℤ → Type 0
InRange a = (pos_part a < i64_lim) × (neg_part a ≤ i64_lim)

-- The two's complement pattern of an integer, and the integer of a pattern.
abbrev pub bits64 : ℤ → ℕ
bits64 (pos n) = n % u64_mod
bits64 (negsuc n) = u64_mod - 1 - n % u64_mod

abbrev pub of_bits64 : ℕ → ℤ
of_bits64 p = if ltb p i64_lim then pos p else negsuc (u64_mod - 1 - p)

unfoldable pub wrap64 : ℤ → ℤ
wrap64 a = of_bits64 (bits64 a)

abbrev pub add64 : ℤ → ℤ → ℤ
add64 a b = wrap64 (a +ℤ b)

abbrev pub sub64 : ℤ → ℤ → ℤ
sub64 a b = wrap64 (a -ℤ b)

abbrev pub neg64 : ℤ → ℤ
neg64 a = wrap64 (pos 0 -ℤ a)

abbrev pub mul64 : ℤ → ℤ → ℤ
mul64 a b = wrap64 (a *ℤ b)

-- `a / d` for a positive constant `d`: towards zero.
abbrev pub quot64 : ℤ → ℕ → ℤ
quot64 (pos n) d = pos (n / d)
quot64 (negsuc n) d = pos 0 -ℤ pos (suc n / d)

pub wrap64_id : (a : ℤ) → InRange a → wrap64 a ≡ a
unfolding wrap64
wrap64_id (pos n) h = ground arith
wrap64_id (negsuc n) h = ground arith

pub wrap64-InRange : (a : ℤ) → InRange (wrap64 a)
unfolding wrap64
wrap64-InRange (pos n) = ground arith
wrap64-InRange (negsuc n) = ground arith

-- Wrapping changes an integer by a multiple of 2 ^ 64.
pub wrap64_add : (a b : ℤ) → wrap64 (wrap64 a +ℤ b) ≡ wrap64 (a +ℤ b)
unfolding wrap64 ◌+ℤ◌
wrap64_add (pos n) (pos m) = ground arith
wrap64_add (pos n) (negsuc m) = ground arith
wrap64_add (negsuc n) (pos m) = ground arith
wrap64_add (negsuc n) (negsuc m) = ground arith
