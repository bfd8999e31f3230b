-- ===== src/Base/Num.antt =====
-- JavaScript numbers that are whole or NaN, as the client computes with them: differences of
-- times, `Math.floor` of a quotient by a positive constant, `%`, and the comparisons, which are
-- false where an operand is NaN. Magnitudes beyond 2^53, where JavaScript rounds, are left out.
use Prim.Native.Nat.{ℕ, suc, ◌+◌, ◌-◌, ◌/◌, ◌%◌, ◌<◌}
use mathlib.Core.Path.{◌≡◌}
use mathlib.Core.Bool.{Bool, true, false}
use native.Mathlib.Omega.{arith}
use drop_the_mic.Base.Tests.{if◌then◌else◌, ltb, leb}

-- `negsuc n` is -(n + 1).
pub data ℤ : Type 0 where
  pos : ℕ → ℤ
  negsuc : ℕ → ℤ

pub data Number : Type 0 where
  nan : Number
  int : ℤ → Number

abbrev pub pos_part : ℤ → ℕ
pos_part (pos n) = n
pos_part (negsuc n) = 0

abbrev pub neg_part : ℤ → ℕ
neg_part (pos n) = 0
neg_part (negsuc n) = suc n

abbrev pub sub_ℕ : ℕ → ℕ → ℤ
sub_ℕ a b = if leb b a then pos (a - b) else negsuc (b - a - 1)

infixl 65 ◌-ℤ◌
abbrev pub ◌-ℤ◌ : ℤ → ℤ → ℤ
a -ℤ b = sub_ℕ (pos_part a + neg_part b) (neg_part a + pos_part b)

abbrev pub ltb_ℤ : ℤ → ℤ → Bool
ltb_ℤ a b = ltb (pos_part a + neg_part b) (pos_part b + neg_part a)

-- `Math.floor(a / d)` for d > 0: rounds towards minus infinity.
abbrev pub floor_div : ℤ → ℕ → ℤ
floor_div (pos n) d = pos (n / d)
floor_div (negsuc n) d = negsuc (n / d)

-- `a % d` for d > 0: the sign is that of `a`.
abbrev pub rem : ℤ → ℕ → ℤ
rem (pos n) d = pos (n % d)
rem (negsuc n) d = sub_ℕ 0 (suc n % d)

abbrev pub sub_number : Number → Number → Number
sub_number (int a) (int b) = int (a -ℤ b)
sub_number _ _ = nan

abbrev pub floor_quotient : Number → ℕ → Number
floor_quotient (int a) d = int (floor_div a d)
floor_quotient nan d = nan

abbrev pub remainder : Number → ℕ → Number
remainder (int a) d = int (rem a d)
remainder nan d = nan

-- `x < n` for a constant n.
unfoldable pub is_below : Number → ℕ → Bool
is_below (int a) n = ltb_ℤ a (pos n)
is_below nan n = false

unfoldable pub is_positive : Number → Bool
is_positive (int a) = ltb_ℤ (pos 0) a
is_positive nan = false

pub is_below_pos : (a n : ℕ) → is_below (int (pos a)) n ≡ ltb a n
unfolding is_below
is_below_pos a n = ground arith

pub is_below_negsuc : (a n : ℕ) → 0 < n → is_below (int (negsuc a)) n ≡ true
unfolding is_below
is_below_negsuc a n h = ground arith

pub is_positive_sub : (a b : ℕ) → is_positive (sub_number (int (pos a)) (int (pos b))) ≡ ltb b a
unfolding is_positive
is_positive_sub a b = ground arith
