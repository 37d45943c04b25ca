-- ===== src/Base/Int.antt =====
-- Signed integers over the native numbers: C's `int`, `long` and `long long` where no sum overflows.
use Prim.Native.Nat.{ℕ, suc, ◌+◌, ◌-◌, ◌*◌, ◌%◌, ◌^◌, ◌<◌}
use mathlib.Core.Path.{◌≡◌, ap, refl}
use mathlib.Core.Logic.{◌≢◌}
use mathlib.Core.Bool.{Bool}
use native.Mathlib.Nat.{mod-eq_of_lt}
use native.Mathlib.Omega.{arith}
use tool_boslib.Base.Tests.{leb, ltb, lt→ltb, if◌then◌else◌}

-- `negsuc n` is -(n + 1).
pub data ℤ : Type 0 where
  pos : ℕ → ℤ
  negsuc : ℕ → ℤ

abbrev pub pos_part : ℤ → ℕ
pos_part (pos n) = n
pos_part (negsuc n) = 0

abbrev pub neg_part : ℤ → ℕ
neg_part (pos n) = 0
neg_part (negsuc n) = suc n

-- a - b, as an integer.
abbrev pub sub_ℕ : ℕ → ℕ → ℤ
sub_ℕ a b = if leb b a then pos (a - b) else negsuc (b - a - 1)

infixl 65 ◌+ℤ◌
abbrev pub ◌+ℤ◌ : ℤ → ℤ → ℤ
a +ℤ b = sub_ℕ (pos_part a + pos_part b) (neg_part a + neg_part b)

abbrev pub ltb_ℤ : ℤ → ℤ → Bool
ltb_ℤ a b = ltb (pos_part a + neg_part b) (pos_part b + neg_part a)

pub pos-plus : (a b : ℕ) → pos a +ℤ pos b ≡ pos (a + b)
pos-plus a b = ground arith

pub pos_injective : (a b : ℕ) → pos a ≡ pos b → a ≡ b
pos_injective a b e = ap pos_part e

pub negsuc_not_pos : (a b : ℕ) → negsuc a ≢ pos b
negsuc_not_pos a b e = absurd (omega (arith, ap neg_part e))

-- What is left of an integer in `w` bits, two's complement.
module _ (w : ℕ) where
  abbrev signed : ℕ → ℤ
  signed n = if ltb (2 * n) (2 ^ w) then pos n else negsuc (2 ^ w - n - 1)

  abbrev inverted : ℤ → ℤ
  inverted (pos n) = negsuc n
  inverted (negsuc n) = pos n

  unfoldable pub wrap : ℤ → ℤ
  wrap (pos n) = signed (n % 2 ^ w)
  wrap (negsuc n) = inverted (signed (n % 2 ^ w))

  -- It is in the range of such a word.
  abbrev pub InWord : ℤ → Type 0
  InWord (pos n) = 2 * n < 2 ^ w
  InWord (negsuc n) = 2 * n < 2 ^ w

  pub wrap-InWord : (z : ℤ) → InWord z → wrap z ≡ z
  unfolding wrap
  wrap-InWord (pos n) h =
      let small : n % 2 ^ w ≡ n = mod-eq_of_lt (omega (arith, h)) in
      rw small (rw (lt→ltb (2 * n) (2 ^ w) h) refl)
  wrap-InWord (negsuc n) h =
      let small : n % 2 ^ w ≡ n = mod-eq_of_lt (omega (arith, h)) in
      rw small (rw (lt→ltb (2 * n) (2 ^ w) h) refl)
