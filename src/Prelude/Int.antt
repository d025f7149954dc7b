-- ===== src/Prelude/Int.antt =====
-- `i64` over the native numbers: the integers, and the operators of Rust's release build, which
-- wrap around at 64 bits.
use Prim.Native.Nat.{◌/◌, ℕ, suc, ◌+◌, ◌-◌, ◌%◌, ◌≤◌, ◌<◌}
use mathlib.Core.Path.{◌≡◌, refl}
use mathlib.Core.Logic.{◌⊎◌, inl, inr}
use mathlib.Core.Bool.{true, false}
use mathlib.Core.Bool.{Bool}
use native.Mathlib.Omega.{arith}
use punkgo_kernel.Prelude.Tests.{ltb, leb, eqb, if◌then◌else◌}

-- `negsuc n` is -(n + 1).
pub data ℤ : Type 0 where
  pos : ℕ → ℤ
  negsuc : ℕ → ℤ

abbrev pub pos_part : ℤ → ℕ
pos_part (pos n) = n
pos_part (negsuc n) = 0

abbrev pub neg_part : ℤ → ℕ
neg_part (pos n) = 0
neg_part (negsuc n) = suc n

-- a - b, as an integer.
abbrev pub sub_ℕ : ℕ → ℕ → ℤ
sub_ℕ a b = if leb b a then pos (a - b) else negsuc (b - a - 1)

infixl 65 ◌+ℤ◌ ◌-ℤ◌
infix 50 ◌≤ℤ◌ ◌<ℤ◌
unfoldable pub ◌+ℤ◌ : ℤ → ℤ → ℤ
a +ℤ b = sub_ℕ (pos_part a + pos_part b) (neg_part a + neg_part b)

unfoldable pub ◌-ℤ◌ : ℤ → ℤ → ℤ
a -ℤ b = sub_ℕ (pos_part a + neg_part b) (neg_part a + pos_part b)

abbrev pub ◌≤ℤ◌ : ℤ → ℤ → Type 0
a ≤ℤ b = pos_part a + neg_part b ≤ pos_part b + neg_part a

abbrev pub ◌<ℤ◌ : ℤ → ℤ → Type 0
a <ℤ b = pos_part a + neg_part b < pos_part b + neg_part a

abbrev pub ltb_ℤ : ℤ → ℤ → Bool
ltb_ℤ a b = ltb (pos_part a + neg_part b) (pos_part b + neg_part a)

abbrev pub leb_ℤ : ℤ → ℤ → Bool
leb_ℤ a b = leb (pos_part a + neg_part b) (pos_part b + neg_part a)

abbrev pub eqb_ℤ : ℤ → ℤ → Bool
eqb_ℤ a b = eqb (pos_part a + neg_part b) (pos_part b + neg_part a)

pub +ℤ_parts :
    (a b : ℤ)
    → pos_part (a +ℤ b) + neg_part a + neg_part b ≡ neg_part (a +ℤ b) + pos_part a + pos_part b
unfolding ◌+ℤ◌
+ℤ_parts a b = ground arith

pub -ℤ_parts :
    (a b : ℤ)
    → pos_part (a -ℤ b) + neg_part a + pos_part b ≡ neg_part (a -ℤ b) + pos_part a + neg_part b
unfolding ◌-ℤ◌
-ℤ_parts a b = ground arith

pub eq_of_parts : (a b : ℤ) → pos_part a + neg_part b ≡ pos_part b + neg_part a → a ≡ b
eq_of_parts a b h = ground arith

-- One of the two parts is 0.
pub parts_zero : (a : ℤ) → (pos_part a ≡ 0) ⊎ (neg_part a ≡ 0)
parts_zero (pos n) = inr refl
parts_zero (negsuc n) = inl refl

pub ruleset int_laws = (arith, +ℤ_parts, -ℤ_parts, eq_of_parts)

-- 2 ^ 63, and 2 ^ 64.
abbrev pub i64_mod : ℕ
i64_mod = 9223372036854775808

abbrev pub u64_mod : ℕ
u64_mod = 18446744073709551616

-- `i64::MIN <= a <= i64::MAX`
pub record IsI64 (a : ℤ) : Type 0 where
  pub low : neg_part a ≤ i64_mod
  pub high : pos_part a < i64_mod

-- `x as u64` for an integer `x`, its bit pattern, and the `i64` that a pattern stands for.
abbrev pub as_u64 : ℤ → ℕ
as_u64 (pos n) = n % u64_mod
as_u64 (negsuc n) = u64_mod - 1 - n % u64_mod

-- `x as i64` for an `x : u64`
unfoldable pub as_i64 : ℕ → ℤ
as_i64 n = if ltb n i64_mod then pos n else negsuc (u64_mod - 1 - n)

unfoldable pub wrap_i64 : ℤ → ℤ
unfolding as_i64
wrap_i64 a = as_i64 (as_u64 a)

pub as_i64_small : (n : ℕ) → n < i64_mod → as_i64 n ≡ pos n
unfolding as_i64
as_i64_small n h = ground arith

-- In range, nothing wraps.
pub wrap_i64_id : (a : ℤ) → IsI64 a → wrap_i64 a ≡ a
unfolding wrap_i64
wrap_i64_id (pos n) h = ground (arith, h.high)
wrap_i64_id (negsuc n) h = ground (arith, h.low)

-- `a / b`: the quotient is rounded towards zero. Only the sign of the quotient differs by case.
abbrev neg_ℕ : ℕ → ℤ
neg_ℕ n = sub_ℕ 0 n

unfoldable pub div_i64 : ℤ → ℤ → ℤ
div_i64 (pos a) (pos b) = pos (a / b)
div_i64 (pos a) (negsuc b) = neg_ℕ (a / suc b)
div_i64 (negsuc a) (pos b) = neg_ℕ (suc a / b)
div_i64 (negsuc a) (negsuc b) = pos (suc a / suc b)

-- The value of a counter: an integer from 0 to `i64::MAX`.
pub record IsCount (a : ℤ) : Type 0 where
  pub nonneg : pos 0 ≤ℤ a
  pub small : a <ℤ pos i64_mod

-- The difference of two counters never wraps around, and their sum does not while it is a counter.
pub wrap_i64-sub : (a b : ℤ) → IsCount a → IsCount b → wrap_i64 (a -ℤ b) ≡ a -ℤ b
wrap_i64-sub a b ha hb =
    wrap_i64_id (a -ℤ b)
      (omega (int_laws, ha.nonneg, ha.small, hb.nonneg, hb.small, parts_zero (a -ℤ b)))

pub wrap_i64-add : (a b : ℤ) → IsCount (a +ℤ b) → wrap_i64 (a +ℤ b) ≡ a +ℤ b
wrap_i64-add a b h = wrap_i64_id (a +ℤ b) (omega (int_laws, h.nonneg, h.small, parts_zero (a +ℤ b)))

pub +ℤ_assoc : (a b c : ℤ) → a +ℤ b +ℤ c ≡ a +ℤ (b +ℤ c)
+ℤ_assoc a b c = omega int_laws

-- An equation, for `omega`.
pub parts_of_eq : (a b : ℤ) → a ≡ b → pos_part a + neg_part b ≡ pos_part b + neg_part a
parts_of_eq a b h = rw h (omega arith)

pub pos-add : (a b : ℕ) → pos a +ℤ pos b ≡ pos (a + b)
unfolding ◌+ℤ◌
pos-add a b = ground arith

-- What the tests on integers say.
pub ltb_ℤ_true : (a b : ℤ) → ltb_ℤ a b ≡ true → a <ℤ b
ltb_ℤ_true a b h = ground arith

pub ltb_ℤ_false : (a b : ℤ) → ltb_ℤ a b ≡ false → b ≤ℤ a
ltb_ℤ_false a b h = ground arith

pub leb_ℤ_true : (a b : ℤ) → leb_ℤ a b ≡ true → a ≤ℤ b
leb_ℤ_true a b h = ground arith

pub leb_ℤ_false : (a b : ℤ) → leb_ℤ a b ≡ false → b <ℤ a
leb_ℤ_false a b h = ground arith

pub ltb_ℤ_of_lt : (a b : ℤ) → a <ℤ b → ltb_ℤ a b ≡ true
ltb_ℤ_of_lt a b h = ground arith

pub ltb_ℤ_of_le : (a b : ℤ) → b ≤ℤ a → ltb_ℤ a b ≡ false
ltb_ℤ_of_le a b h = ground arith

pub leb_ℤ_of_le : (a b : ℤ) → a ≤ℤ b → leb_ℤ a b ≡ true
leb_ℤ_of_le a b h = ground arith

pub leb_ℤ_of_lt : (a b : ℤ) → b <ℤ a → leb_ℤ a b ≡ false
leb_ℤ_of_lt a b h = ground arith
