-- ===== src/Prelude/Int.antt =====
-- Signed integers over the native numbers, and `i64` as an integer in range.
use Prim.Native.Nat.{ℕ, suc, ◌+◌, ◌-◌, ◌≤◌}
use mathlib.Core.Path.{◌≡◌}
use mathlib.Core.Bool.{Bool}
use native.Mathlib.Omega.{arith}
use enrg.Prelude.Tests.{ltb, leb, ◌==◌, if◌then◌else◌}
use enrg.Prelude.Outcome.{Result, ok, err, panic}

-- `negsuc n` is -(n + 1).
pub data ℤ : Type 0 where
  pos : ℕ → ℤ
  negsuc : ℕ → ℤ

abbrev pub pos_part : ℤ → ℕ
pos_part (pos n) = n
pos_part (negsuc n) = 0

abbrev pub neg_part : ℤ → ℕ
neg_part (pos n) = 0
neg_part (negsuc n) = suc n

abbrev pub sub_ℕ : ℕ → ℕ → ℤ
sub_ℕ a b = if leb b a then pos (a - b) else negsuc (b - a - 1)

infixl 65 ◌+ℤ◌ ◌-ℤ◌
infix 50 ◌≤ℤ◌ ◌<ℤ◌
unfoldable pub ◌+ℤ◌ : ℤ → ℤ → ℤ
a +ℤ b = sub_ℕ (pos_part a + pos_part b) (neg_part a + neg_part b)

unfoldable pub ◌-ℤ◌ : ℤ → ℤ → ℤ
a -ℤ b = sub_ℕ (pos_part a + neg_part b) (neg_part a + pos_part b)

abbrev pub ◌≤ℤ◌ : ℤ → ℤ → Type 0
a ≤ℤ b = pos_part a + neg_part b ≤ pos_part b + neg_part a

abbrev pub ◌<ℤ◌ : ℤ → ℤ → Type 0
a <ℤ b = suc (pos_part a + neg_part b) ≤ pos_part b + neg_part a

abbrev pub ltb_ℤ : ℤ → ℤ → Bool
ltb_ℤ a b = ltb (pos_part a + neg_part b) (pos_part b + neg_part a)

abbrev pub leb_ℤ : ℤ → ℤ → Bool
leb_ℤ a b = leb (pos_part a + neg_part b) (pos_part b + neg_part a)

abbrev pub eqb_ℤ : ℤ → ℤ → Bool
eqb_ℤ a b = pos_part a + neg_part b == pos_part b + neg_part a

pub +ℤ_parts :
    (a b : ℤ)
    → pos_part (a +ℤ b) + neg_part a + neg_part b ≡ neg_part (a +ℤ b) + pos_part a + pos_part b
unfolding ◌+ℤ◌
+ℤ_parts a b = ground arith

pub -ℤ_parts :
    (a b : ℤ)
    → pos_part (a -ℤ b) + neg_part a + pos_part b ≡ neg_part (a -ℤ b) + pos_part a + neg_part b
unfolding ◌-ℤ◌
-ℤ_parts a b = ground arith

pub eq_of_parts : (a b : ℤ) → pos_part a + neg_part b ≡ pos_part b + neg_part a → a ≡ b
eq_of_parts a b h = ground arith

pub ruleset int_laws = (arith, +ℤ_parts, -ℤ_parts, eq_of_parts)

-- `i64::MAX`; `i64::MIN` is `negsuc i64_max`.
abbrev pub i64_max : ℕ
i64_max = 9_223_372_036_854_775_807

-- `i64` of a result that must fit: with `overflow-checks = true` the program aborts otherwise.
abbrev pub checked_i64 : ℤ → Result ℤ
checked_i64 (pos n) = if leb n i64_max then ok (pos n) else err panic
checked_i64 (negsuc n) = if leb n i64_max then ok (negsuc n) else err panic

-- `a + b` and `a - b` on `i64`, with the check.
abbrev pub add_i64 : ℤ → ℤ → Result ℤ
add_i64 a b = checked_i64 (a +ℤ b)

abbrev pub sub_i64 : ℤ → ℤ → Result ℤ
sub_i64 a b = checked_i64 (a -ℤ b)

-- The value of `i64::saturating_sub` and `saturating_add`.
abbrev pub clamp_i64 : ℤ → ℤ
clamp_i64 (pos n) = if leb n i64_max then pos n else pos i64_max
clamp_i64 (negsuc n) = if leb n i64_max then negsuc n else negsuc i64_max

abbrev pub saturating_sub_i64 : ℤ → ℤ → ℤ
saturating_sub_i64 a b = clamp_i64 (a -ℤ b)

abbrev pub saturating_add_i64 : ℤ → ℤ → ℤ
saturating_add_i64 a b = clamp_i64 (a +ℤ b)
