-- ===== src/Common/Int.antt =====
-- Go's signed integers, where the program computes with them: without bounds, the range being a
-- hypothesis where it matters.
use Prim.Native.Nat.{ℕ, suc, ◌+◌, ◌-◌, ◌≤◌, ◌<◌, ◌%◌, ◌^◌}
use mathlib.Core.Path.{◌≡◌}
use mathlib.Core.Bool.{Bool}
use native.Mathlib.Omega.{arith}
use gitlab_pages_mirror.Common.Tests.{leb, ltb, if◌then◌else◌}

-- `negsuc n` is -(n + 1).
pub data ℤ : Type 0 where
  pos : ℕ → ℤ
  negsuc : ℕ → ℤ

abbrev pub pos_part : ℤ → ℕ
pos_part (pos n) = n
pos_part (negsuc n) = 0

abbrev pub neg_part : ℤ → ℕ
neg_part (pos n) = 0
neg_part (negsuc n) = suc n

-- a - b, as an integer.
abbrev pub sub_ℕ : ℕ → ℕ → ℤ
sub_ℕ a b = if leb b a then pos (a - b) else negsuc (b - a - 1)

infixl 65 ◌+ℤ◌ ◌-ℤ◌
unfoldable pub ◌+ℤ◌ : ℤ → ℤ → ℤ
a +ℤ b = sub_ℕ (pos_part a + pos_part b) (neg_part a + neg_part b)

unfoldable pub ◌-ℤ◌ : ℤ → ℤ → ℤ
a -ℤ b = sub_ℕ (pos_part a + neg_part b) (neg_part a + pos_part b)

infix 50 ◌≤ℤ◌ ◌<ℤ◌
abbrev pub ◌≤ℤ◌ : ℤ → ℤ → Type 0
a ≤ℤ b = pos_part a + neg_part b ≤ pos_part b + neg_part a

abbrev pub ◌<ℤ◌ : ℤ → ℤ → Type 0
a <ℤ b = suc (pos_part a + neg_part b) ≤ pos_part b + neg_part a

abbrev pub ltz : ℤ → ℤ → Bool
ltz a b = ltb (pos_part a + neg_part b) (pos_part b + neg_part a)

-- One lemma for each operation lets `omega` work with the operations shut.
pub +ℤ_parts :
    (a b : ℤ)
    → pos_part (a +ℤ b) + neg_part a + neg_part b ≡ neg_part (a +ℤ b) + pos_part a + pos_part b
unfolding ◌+ℤ◌
+ℤ_parts a b = ground arith

pub -ℤ_parts :
    (a b : ℤ)
    → pos_part (a -ℤ b) + neg_part a + pos_part b ≡ neg_part (a -ℤ b) + pos_part a + neg_part b
unfolding ◌-ℤ◌
-ℤ_parts a b = ground arith

pub eq_of_parts : (a b : ℤ) → pos_part a + neg_part b ≡ pos_part b + neg_part a → a ≡ b
eq_of_parts a b h = ground arith

pub ruleset int_laws = (arith, +ℤ_parts, -ℤ_parts, eq_of_parts)

-- uint64(n) of an int.
unfoldable pub to_u64 : ℤ → ℕ
to_u64 (pos n) = n % 2 ^ 64
to_u64 (negsuc n) = 2 ^ 64 - 1 - n % 2 ^ 64

-- Go's int64: the sum and the difference of two of them wrap around.
abbrev wrap64 : ℤ → ℤ
wrap64 a =
    if leb (2 ^ 63 + neg_part a) (pos_part a)
    then sub_ℕ (pos_part a) (2 ^ 64 + neg_part a)
    else if leb (pos_part a + 2 ^ 63 + 1) (neg_part a)
    then sub_ℕ (2 ^ 64 + pos_part a) (neg_part a)
    else a

infixl 65 ◌+64◌
unfoldable pub ◌+64◌ : ℤ → ℤ → ℤ
unfolding ◌+ℤ◌
a +64 b = wrap64 (a +ℤ b)

pub record IsInt64 (a : ℤ) : Type 0 where
  pub lower : neg_part a ≤ 2 ^ 63
  pub upper : pos_part a < 2 ^ 63

pub +64-IsInt64 : (a b : ℤ) → IsInt64 a → IsInt64 b → IsInt64 (a +64 b)
unfolding ◌+64◌
+64-IsInt64 a b ha hb = ground arith

-- Of two numbers that are not negative, the sum is exact or negative.
pub +64_nonneg :
    (a b : ℤ)
    → pos 0 ≤ℤ a
    → pos 0 ≤ℤ b
    → IsInt64 a
    → IsInt64 b
    → pos 0 ≤ℤ a +64 b
    → pos_part (a +64 b) ≡ pos_part a + pos_part b
unfolding ◌+64◌
+64_nonneg a b na nb ha hb h = ground arith

pub +64_exact : (a b : ℕ) → a + b < 2 ^ 63 → pos a +64 pos b ≡ pos (a + b)
unfolding ◌+64◌
+64_exact a b h = ground arith
