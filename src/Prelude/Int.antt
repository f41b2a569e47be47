-- ===== src/Prelude/Int.antt =====
-- Signed 64-bit integers: Go's `int` and `int64` as ℤ, with two's complement wrap-around.
use Prim.Native.Nat.{ℕ, suc, ◌+◌, ◌-◌, ◌%◌, ◌^◌, ◌≤◌, ◌<◌}
use mathlib.Core.Path.{◌≡◌}
use mathlib.Core.Bool.{Bool, ◌&&◌}
use native.Mathlib.Omega.{arith}
use servekit.Prelude.Tests.{ltb, leb, if◌then◌else◌}

-- `negsuc n` is -(n + 1).
pub data ℤ : Type 0 where
  pos : ℕ → ℤ
  negsuc : ℕ → ℤ

abbrev pub pos_part : ℤ → ℕ
pos_part (pos n) = n
pos_part (negsuc n) = 0

abbrev pub neg_part : ℤ → ℕ
neg_part (pos n) = 0
neg_part (negsuc n) = suc n

abbrev pub sub_ℕ : ℕ → ℕ → ℤ
sub_ℕ a b = if leb b a then pos (a - b) else negsuc (b - a - 1)

infixl 65 ◌+ℤ◌
infix 50 ◌≤ℤ◌ ◌<ℤ◌
unfoldable pub ◌+ℤ◌ : ℤ → ℤ → ℤ
a +ℤ b = sub_ℕ (pos_part a + pos_part b) (neg_part a + neg_part b)

abbrev pub ◌≤ℤ◌ : ℤ → ℤ → Type 0
a ≤ℤ b = pos_part a + neg_part b ≤ pos_part b + neg_part a

abbrev pub ◌<ℤ◌ : ℤ → ℤ → Type 0
a <ℤ b = pos_part a + neg_part b < pos_part b + neg_part a

-- a <= b and a < b as tests
abbrev pub leb_ℤ : ℤ → ℤ → Bool
leb_ℤ a b = leb (pos_part a + neg_part b) (pos_part b + neg_part a)

abbrev pub ltb_ℤ : ℤ → ℤ → Bool
ltb_ℤ a b = ltb (pos_part a + neg_part b) (pos_part b + neg_part a)

-- n == 0
abbrev pub is_zero_ℤ : ℤ → Bool
is_zero_ℤ a = leb_ℤ a (pos 0) && leb_ℤ (pos 0) a

abbrev pub int64_half : ℕ
int64_half = 2 ^ 63

abbrev pub int64_mod : ℕ
int64_mod = 2 ^ 64

-- The values that an int64 holds.
abbrev pub IsInt64 : ℤ → Type 0
IsInt64 a = (pos_part a < int64_half) × (neg_part a ≤ int64_half)

-- The bit pattern of an integer, as an unsigned 64-bit word, and the int64 that a word stands for.
abbrev pub word64 : ℤ → ℕ
word64 (pos n) = n % int64_mod
word64 (negsuc n) = int64_mod - 1 - n % int64_mod

abbrev pub of_word64 : ℕ → ℤ
of_word64 w = if ltb w int64_half then pos w else negsuc (int64_mod - 1 - w)

-- What an int64 computation leaves of an exact result.
unfoldable pub wrap64 : ℤ → ℤ
wrap64 a = of_word64 (word64 a)

pub wrap64-eq_self : (a : ℤ) → IsInt64 a → wrap64 a ≡ a
unfolding wrap64
wrap64-eq_self (pos n) h = ground arith
wrap64-eq_self (negsuc n) h = ground arith

pub wrap64-IsInt64 : (a : ℤ) → IsInt64 (wrap64 a)
unfolding wrap64
wrap64-IsInt64 (pos n) = ground arith
wrap64-IsInt64 (negsuc n) = ground arith

pub +ℤ_parts :
    (a b : ℤ)
    → pos_part (a +ℤ b) + neg_part a + neg_part b ≡ neg_part (a +ℤ b) + pos_part a + pos_part b
unfolding ◌+ℤ◌
+ℤ_parts a b = ground arith
