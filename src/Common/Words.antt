-- ===== src/Common/Words.antt =====
-- Arithmetic on u64, usize (64 bits) and i64 as the release profile of Cargo.toml compiles it:
-- `+`, `-` and `*` wrap around, the `saturating_` forms stop at the ends of the range, and `as`
-- keeps the bit pattern.
use Prim.Native.Nat.{ℕ, ◌+◌, ◌-◌, ◌*◌, ◌%◌, ◌^◌, min}
use mathlib.Core.Bool.{Bool, true, false, not}
use btck_rust_node.Common.Tests.{ltb, if◌then◌else◌}
use btck_rust_node.Common.Int.{ℤ, pos, negsuc, ◌+ℤ◌, neg}

abbrev pub u64_mod : ℕ
u64_mod = 2 ^ 64

abbrev pub add64 : ℕ → ℕ → ℕ
add64 a b = (a + b) % u64_mod

abbrev pub sub64 : ℕ → ℕ → ℕ
sub64 a b = (a + (u64_mod - b % u64_mod)) % u64_mod

abbrev pub mul64 : ℕ → ℕ → ℕ
mul64 a b = (a * b) % u64_mod

abbrev pub saturating_mul : ℕ → ℕ → ℕ
saturating_mul a b = min (a * b) (u64_mod - 1)

-- `a as i64` of a u64.
abbrev pub as_i64 : ℕ → ℤ
as_i64 a = if ltb a (2 ^ 63) then pos a else negsuc (u64_mod - a - 1)

-- `a as u64` of an integer: its bit pattern.
abbrev pub as_u64 : ℤ → ℕ
as_u64 (pos n) = n % u64_mod
as_u64 (negsuc n) = u64_mod - 1 - n % u64_mod

-- i64 (and isize) addition.
abbrev pub add_i64 : ℤ → ℤ → ℤ
add_i64 a b = as_i64 (as_u64 (a +ℤ b))

-- `.max(0)` of an i64, as a u64.
abbrev pub max_zero : ℤ → ℕ
max_zero (pos n) = n
max_zero (negsuc n) = 0

-- `.abs()` of an i64, as a u64: |i64::MIN| wraps to i64::MIN, whose bit pattern is 2^63.
abbrev pub abs_u64 : ℤ → ℕ
abs_u64 (pos n) = n
abs_u64 (negsuc n) = n + 1

abbrev neg_ℤ : ℤ → ℤ
neg_ℤ (pos n) = neg n
neg_ℤ (negsuc n) = pos (n + 1)

-- i64 (and isize) negation.
abbrev pub neg_i64 : ℤ → ℤ
neg_i64 a = as_i64 (as_u64 (neg_ℤ a))

-- i64 subtraction.
abbrev pub sub_i64 : ℤ → ℤ → ℤ
sub_i64 a b = as_i64 (as_u64 (a +ℤ neg_ℤ b))

abbrev pub i32_mod : ℕ
i32_mod = 2 ^ 32

-- `a as u32` of an integer: its bit pattern.
abbrev pub as_u32 : ℤ → ℕ
as_u32 (pos n) = n % i32_mod
as_u32 (negsuc n) = i32_mod - 1 - n % i32_mod

-- `a as i32` of a word of at least 32 bits.
abbrev pub as_i32 : ℕ → ℤ
as_i32 a = let b = a % i32_mod in if ltb b (2 ^ 31) then pos b else negsuc (i32_mod - b - 1)

-- i32 addition and subtraction.
abbrev pub add_i32 : ℤ → ℤ → ℤ
add_i32 a b = as_i32 (as_u32 (a +ℤ b))

abbrev pub sub_i32 : ℤ → ℤ → ℤ
sub_i32 a b = as_i32 (as_u32 (a +ℤ neg_ℤ b))

-- `a < b` and `a <= b` on signed integers.
abbrev pub lt_ℤ : ℤ → ℤ → Bool
lt_ℤ (pos a) (pos b) = ltb a b
lt_ℤ (pos a) (negsuc b) = false
lt_ℤ (negsuc a) (pos b) = true
lt_ℤ (negsuc a) (negsuc b) = ltb b a

abbrev pub le_ℤ : ℤ → ℤ → Bool
le_ℤ a b = not (lt_ℤ b a)
