-- ===== src/Base/Int64.antt =====
-- Go's int64: an integer in range, with operations that wrap around.
use Prim.Native.Nat.{ℕ, ◌+◌, ◌*◌, ◌/◌, ◌-◌, ◌%◌, ◌^◌, ◌≤◌, ◌<◌}
use mathlib.Core.Path.{◌≡◌, refl}
use native.Mathlib.Nat.{div-le_self}
use native.Mathlib.Omega.{arith}
use mongoqueue.Base.Tests.{ltb, if◌then◌else◌}
use mongoqueue.Base.Int.{ℤ, pos, negsuc, pos_part, neg_part, ◌+ℤ◌, ◌-ℤ◌, ◌*ℤ◌, quot, rem}

abbrev pub max_int64 : ℤ
max_int64 = pos (2 ^ 63 - 1)

-- The low 64 bits of an integer, read in two's complement.
unfoldable pub residue : ℤ → ℕ
residue (pos n) = n % 2 ^ 64
residue (negsuc n) = 2 ^ 64 - 1 - n % 2 ^ 64

unfoldable pub signed : ℕ → ℤ
signed m = if ltb m (2 ^ 63) then pos m else negsuc (2 ^ 64 - 1 - m)

unfoldable pub to_int64 : ℤ → ℤ
unfolding residue signed
to_int64 z = signed (residue z)

unfoldable pub add64 : ℤ → ℤ → ℤ
add64 a b = to_int64 (a +ℤ b)

unfoldable pub sub64 : ℤ → ℤ → ℤ
sub64 a b = to_int64 (a -ℤ b)

unfoldable pub mul64 : ℤ → ℤ → ℤ
mul64 a b = to_int64 (a *ℤ b)

unfoldable pub quot64 : ℤ → ℤ → ℤ
quot64 a b = to_int64 (quot a b)

unfoldable pub rem64 : ℤ → ℤ → ℤ
rem64 a b = to_int64 (rem a b)

-- The values of the type.
abbrev pub IsInt64 : ℤ → Type 0
IsInt64 z = (pos_part z < 2 ^ 63) × (neg_part z ≤ 2 ^ 63)

pub to_int64-eq_self : (z : ℤ) → IsInt64 z → to_int64 z ≡ z
unfolding to_int64
to_int64-eq_self (pos n) h = ground arith
to_int64-eq_self (negsuc n) h = ground arith

pub to_int64-IsInt64 : (z : ℤ) → IsInt64 (to_int64 z)
unfolding to_int64
to_int64-IsInt64 (pos n) = ground arith
to_int64-IsInt64 (negsuc n) = ground arith

wraps : to_int64 (pos (2 ^ 63)) ≡ negsuc (2 ^ 63 - 1)
unfolding to_int64
wraps = refl

-- On values that fit, the operations are those of the numbers.
pub add64_pos : (a b : ℕ) → a + b < 2 ^ 63 → add64 (pos a) (pos b) ≡ pos (a + b)
unfolding add64 to_int64 ◌+ℤ◌
add64_pos a b h = ground arith

pub sub64_pos : (a b : ℕ) → a < 2 ^ 63 → b ≤ a → sub64 (pos a) (pos b) ≡ pos (a - b)
unfolding sub64 to_int64 ◌-ℤ◌
sub64_pos a b h le = ground arith

pub mul64_pos : (a b : ℕ) → a * b < 2 ^ 63 → mul64 (pos a) (pos b) ≡ pos (a * b)
unfolding mul64 to_int64 ◌*ℤ◌
mul64_pos a b h = ground arith

pub quot64_pos : (a b : ℕ) → a < 2 ^ 63 → quot64 (pos a) (pos b) ≡ pos (a / b)
unfolding quot64 to_int64 quot
quot64_pos a b h = ground (arith, div-le_self a b)
