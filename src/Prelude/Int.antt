-- ===== src/Prelude/Int.antt =====
-- Signed integers over the native numbers, and the arithmetic of Rust's `i64` on them: a value of
-- that type is an integer in range, and a sum that leaves the range wraps round.
use Prim.Native.Nat.{ℕ, suc, ◌+◌, ◌-◌, ◌^◌, ◌≤◌, ◌<◌}
use mathlib.Core.Path.{◌≡◌}
use mathlib.Core.Bool.{Bool}
use native.Mathlib.Omega.{arith}
use Prim.Native.String.{String}
use edgeclaw.Prelude.Text.{◌<>◌, decimal}
use edgeclaw.Prelude.Tests.{ltb, leb, if◌then◌else◌}

-- `negsuc n` is -(n + 1).
pub data ℤ : Type 0 where
  pos : ℕ → ℤ
  negsuc : ℕ → ℤ

abbrev pub pos_part : ℤ → ℕ
pos_part (pos n) = n
pos_part (negsuc n) = 0

abbrev pub neg_part : ℤ → ℕ
neg_part (pos n) = 0
neg_part (negsuc n) = suc n

-- a - b, as an integer.
abbrev pub sub_ℕ : ℕ → ℕ → ℤ
sub_ℕ a b = if leb b a then pos (a - b) else negsuc (b - a - 1)

infixl 65 ◌+ℤ◌ ◌-ℤ◌
infix 50 ◌≤ℤ◌ ◌<ℤ◌
abbrev pub ◌+ℤ◌ : ℤ → ℤ → ℤ
a +ℤ b = sub_ℕ (pos_part a + pos_part b) (neg_part a + neg_part b)

abbrev pub ◌-ℤ◌ : ℤ → ℤ → ℤ
a -ℤ b = sub_ℕ (pos_part a + neg_part b) (neg_part a + pos_part b)

abbrev pub ◌≤ℤ◌ : ℤ → ℤ → Type 0
a ≤ℤ b = pos_part a + neg_part b ≤ pos_part b + neg_part a

abbrev pub ◌<ℤ◌ : ℤ → ℤ → Type 0
a <ℤ b = pos_part a + neg_part b < pos_part b + neg_part a

abbrev pub leb_ℤ : ℤ → ℤ → Bool
leb_ℤ a b = leb (pos_part a + neg_part b) (pos_part b + neg_part a)

abbrev pub ltb_ℤ : ℤ → ℤ → Bool
ltb_ℤ a b = ltb (pos_part a + neg_part b) (pos_part b + neg_part a)

-- The range of `i64`.
abbrev pub InI64 : ℤ → Type 0
InI64 a = (pos_part a < 2 ^ 63) × (neg_part a ≤ 2 ^ 63)

-- What one sum or difference of two `i64` values becomes in 64 bits of two's complement.
unfoldable pub wrap_i64 : ℤ → ℤ
wrap_i64 a =
    if leb (2 ^ 63) (pos_part a)
    then sub_ℕ (pos_part a) (2 ^ 64)
    else if ltb (2 ^ 63) (neg_part a)
    then sub_ℕ (2 ^ 64) (neg_part a)
    else a

-- A value in range is left as it is.
pub wrap_i64_id : (a : ℤ) → InI64 a → wrap_i64 a ≡ a
unfolding wrap_i64
wrap_i64_id a h = ground arith

abbrev pub add_i64 : ℤ → ℤ → ℤ
add_i64 a b = wrap_i64 (a +ℤ b)

abbrev pub sub_i64 : ℤ → ℤ → ℤ
sub_i64 a b = wrap_i64 (a -ℤ b)

-- `Display` of a signed number.
unfoldable pub display_int : ℤ → String
display_int (pos n) = decimal n
display_int (negsuc n) = "-" <> decimal (suc n)
