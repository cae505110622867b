-- ===== src/Prelude/Int.antt =====
-- Signed 64-bit integers: ℤ over the native numbers, with the casts and the arithmetic of `i64`.
-- The arithmetic wraps, as a release build's does.
use Prim.Native.Nat.{ℕ, suc, ◌+◌, ◌-◌, ◌*◌, ◌%◌, ◌^◌, ◌≤◌, ◌<◌}
use mathlib.Core.Path.{◌≡◌, refl}
use mathlib.Core.Bool.{Bool}
use native.Mathlib.Omega.{arith}
use digital_objects_network.Prelude.Tests.{ltb, leb, if◌then◌else◌}

-- `negsuc n` is -(n + 1).
pub data ℤ : Type 0 where
  pos : ℕ → ℤ
  negsuc : ℕ → ℤ

abbrev pub pos_part : ℤ → ℕ
pos_part (pos n) = n
pos_part (negsuc n) = 0

abbrev pub neg_part : ℤ → ℕ
neg_part (pos n) = 0
neg_part (negsuc n) = suc n

abbrev pub sub_ℕ : ℕ → ℕ → ℤ
sub_ℕ a b = if leb b a then pos (a - b) else negsuc (b - a - 1)

abbrev pub leb_ℤ : ℤ → ℤ → Bool
leb_ℤ a b = leb (pos_part a + neg_part b) (pos_part b + neg_part a)

abbrev pub ltb_ℤ : ℤ → ℤ → Bool
ltb_ℤ a b = ltb (pos_part a + neg_part b) (pos_part b + neg_part a)

-- The 64-bit pattern of an integer (`as u64`), and the `i64` that a pattern stands for (`as i64`).
unfoldable pub as_u64 : ℤ → ℕ
as_u64 (pos n) = n % 2 ^ 64
as_u64 (negsuc n) = 2 ^ 64 - 1 - n % 2 ^ 64

unfoldable pub as_i64 : ℕ → ℤ
as_i64 n = let r = n % 2 ^ 64 in if ltb r (2 ^ 63) then pos r else negsuc (2 ^ 64 - 1 - r)

unfoldable pub add_i64 : ℤ → ℤ → ℤ
unfolding as_i64 as_u64
add_i64 a b = as_i64 (as_u64 (sub_ℕ (pos_part a + pos_part b) (neg_part a + neg_part b)))

unfoldable pub sub_i64 : ℤ → ℤ → ℤ
unfolding as_i64 as_u64
sub_i64 a b = as_i64 (as_u64 (sub_ℕ (pos_part a + neg_part b) (neg_part a + pos_part b)))

unfoldable pub mul_i64 : ℤ → ℤ → ℤ
unfolding as_i64 as_u64
mul_i64 a b = as_i64 (
    as_u64 (
      sub_ℕ (pos_part a * pos_part b + neg_part a * neg_part b)
        (pos_part a * neg_part b + neg_part a * pos_part b)))

-- `a.saturating_sub(b)`
unfoldable pub saturating_sub_i64 : ℤ → ℤ → ℤ
saturating_sub_i64 a b =
    let d = sub_ℕ (pos_part a + neg_part b) (neg_part a + pos_part b) in
    if leb (2 ^ 63) (pos_part d)
    then pos (2 ^ 63 - 1)
    else if ltb (2 ^ 63) (neg_part d)
    then negsuc (2 ^ 63 - 1)
    else d

-- The same casts at 32 bits.
unfoldable pub as_u32 : ℤ → ℕ
as_u32 (pos n) = n % 2 ^ 32
as_u32 (negsuc n) = 2 ^ 32 - 1 - n % 2 ^ 32

unfoldable pub as_i32 : ℕ → ℤ
as_i32 n = let r = n % 2 ^ 32 in if ltb r (2 ^ 31) then pos r else negsuc (2 ^ 32 - 1 - r)

unfoldable pub add_i32 : ℤ → ℤ → ℤ
unfolding as_i32 as_u32
add_i32 a b = as_i32 (as_u32 (sub_ℕ (pos_part a + pos_part b) (neg_part a + neg_part b)))

-- `i32 as i64` keeps the value.
abbrev pub i32_as_i64 : ℤ → ℤ
i32_as_i64 a = a

pub as_u64-as_i64 : (n : ℕ) → n < 2 ^ 64 → as_u64 (as_i64 n) ≡ n
unfolding as_i64 as_u64
as_u64-as_i64 n h = ground arith

pub as_u32-as_i32 : (n : ℕ) → n < 2 ^ 32 → as_u32 (as_i32 n) ≡ n
unfolding as_i32 as_u32
as_u32-as_i32 n h = ground arith

pub as_u32-add_i32 : (a : ℤ) → as_u32 a + 1 < 2 ^ 32 → as_u32 (add_i32 a (pos 1)) ≡ as_u32 a + 1
unfolding add_i32
as_u32-add_i32 a h = ground arith

pub as_u32-zero : as_u32 (pos 0) ≡ 0
unfolding as_u32
as_u32-zero = refl

pub as_i64_small : (n : ℕ) → n < 2 ^ 63 → as_i64 n ≡ pos n
unfolding as_i64
as_i64_small n h = ground arith

pub add_i64_small : (a b : ℕ) → a + b < 2 ^ 63 → add_i64 (pos a) (pos b) ≡ pos (a + b)
unfolding add_i64
add_i64_small a b h = ground arith

pub sub_i64_small : (a b : ℕ) → a < 2 ^ 63 → b ≤ a → sub_i64 (pos a) (pos b) ≡ pos (a - b)
unfolding sub_i64
sub_i64_small a b h k = ground arith
