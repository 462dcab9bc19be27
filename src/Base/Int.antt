-- ===== src/Base/Int.antt =====
-- Signed integers over the native numbers, with the wrap-around of `i64` and its operations.
use Prim.Native.Nat.{ℕ, suc, ◌+◌, ◌-◌, ◌*◌, ◌/◌, ◌%◌, ◌^◌, ◌≤◌, ◌<◌, max}
use mathlib.Core.Path.{◌≡◌}
use mathlib.Core.Bool.{Bool}
use native.Mathlib.Omega.{arith}
use thttpd_rs.Base.Tests.{ltb, leb, ◌==◌, if◌then◌else◌}

-- `negsuc n` is -(n + 1).
pub data ℤ : Type 0 where
  pos : ℕ → ℤ
  negsuc : ℕ → ℤ

abbrev pub pos_part : ℤ → ℕ
pos_part (pos n) = n
pos_part (negsuc n) = 0

abbrev pub neg_part : ℤ → ℕ
neg_part (pos n) = 0
neg_part (negsuc n) = suc n

-- a - b, as an integer.
abbrev pub sub_ℕ : ℕ → ℕ → ℤ
sub_ℕ a b = if leb b a then pos (a - b) else negsuc (b - a - 1)

infix 50 ◌≤ℤ◌
abbrev pub ◌≤ℤ◌ : ℤ → ℤ → Type 0
a ≤ℤ b = pos_part a + neg_part b ≤ pos_part b + neg_part a

abbrev pub ltb_ℤ : ℤ → ℤ → Bool
ltb_ℤ a b = ltb (pos_part a + neg_part b) (pos_part b + neg_part a)

abbrev pub eqb_ℤ : ℤ → ℤ → Bool
eqb_ℤ a b = (pos_part a + neg_part b) == (pos_part b + neg_part a)

-- The value of the low 64 bits in two's complement.
unfoldable pub to_i64 : ℤ → ℤ
to_i64 (pos n) = let m = n % 2 ^ 64 in if ltb m (2 ^ 63) then pos m else negsuc (2 ^ 64 - 1 - m)
to_i64 (negsuc n) = let m = n % 2 ^ 64 in if ltb m (2 ^ 63) then negsuc m else pos (2 ^ 64 - 1 - m)

infixl 65 ◌+ℤ◌ ◌-ℤ◌
infixl 70 ◌*ℤ◌
-- The operators of `i64`, which wrap.
unfoldable pub ◌+ℤ◌ : ℤ → ℤ → ℤ
unfolding to_i64
a +ℤ b = to_i64 (sub_ℕ (pos_part a + pos_part b) (neg_part a + neg_part b))

unfoldable pub ◌-ℤ◌ : ℤ → ℤ → ℤ
unfolding to_i64
a -ℤ b = to_i64 (sub_ℕ (pos_part a + neg_part b) (neg_part a + pos_part b))

unfoldable pub ◌*ℤ◌ : ℤ → ℤ → ℤ
unfolding to_i64
a *ℤ b = to_i64 (
    sub_ℕ (pos_part a * pos_part b + neg_part a * neg_part b)
      (pos_part a * neg_part b + neg_part a * pos_part b))

-- `a / b` for `b ≠ 0`, which rounds towards zero. (`i64::MIN / -1` panics in the source.)
unfoldable pub quot : ℤ → ℤ → ℤ
quot (pos a) (pos b) = pos (a / b)
quot (pos a) (negsuc b) = sub_ℕ 0 (a / suc b)
quot (negsuc a) (pos b) = sub_ℕ 0 (suc a / b)
quot (negsuc a) (negsuc b) = pos (suc a / suc b)

abbrev pub min_ℤ : ℤ → ℤ → ℤ
min_ℤ a b = if ltb_ℤ b a then b else a

abbrev pub max_ℤ : ℤ → ℤ → ℤ
max_ℤ a b = if ltb_ℤ a b then b else a

-- The range of `i64`.
abbrev pub InI64 : ℤ → Type 0
InI64 (pos n) = n < 2 ^ 63
InI64 (negsuc n) = n < 2 ^ 63

pub to_i64_id : (a : ℤ) → InI64 a → to_i64 a ≡ a
unfolding to_i64
to_i64_id (pos n) h = ground arith
to_i64_id (negsuc n) h = ground arith

pub to_i64_range : (a : ℤ) → InI64 (to_i64 a)
unfolding to_i64
to_i64_range (pos n) = ground arith
to_i64_range (negsuc n) = ground arith

-- One up and one down again.
pub +ℤ-one : (n : ℕ) → n + 1 < 2 ^ 63 → pos n +ℤ pos 1 ≡ pos (n + 1)
unfolding ◌+ℤ◌
+ℤ-one n h = ground arith

pub -ℤ-one : (n : ℕ) → n + 1 < 2 ^ 63 → pos (n + 1) -ℤ pos 1 ≡ pos n
unfolding ◌-ℤ◌
-ℤ-one n h = ground arith

-- On numbers in range the operators are those of the numbers.
pub +ℤ-pos : (a b : ℕ) → a + b < 2 ^ 63 → pos a +ℤ pos b ≡ pos (a + b)
unfolding ◌+ℤ◌
+ℤ-pos a b h = ground arith

pub *ℤ-pos : (a b : ℕ) → a * b < 2 ^ 63 → pos a *ℤ pos b ≡ pos (a * b)
unfolding ◌*ℤ◌
*ℤ-pos a b h = ground arith

pub max_ℤ-pos : (a b : ℕ) → max_ℤ (pos a) (pos b) ≡ pos (max a b)
max_ℤ-pos a b = ground arith

-- A difference cut at zero is the one of the numbers.
pub -ℤ-cut : (a b : ℕ) → a < 2 ^ 63 → b < 2 ^ 63 → max_ℤ (pos a -ℤ pos b) (pos 0) ≡ pos (a - b)
unfolding ◌-ℤ◌
-ℤ-cut a b h k = ground arith

pub -ℤ-pos : (a b : ℕ) → b ≤ a → a < 2 ^ 63 → pos a -ℤ pos b ≡ pos (a - b)
unfolding ◌-ℤ◌
-ℤ-pos a b h k = ground arith
