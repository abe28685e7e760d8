-- ===== src/Base/Int.antt =====
-- Signed integers over the native numbers: `negsuc n` is -(n + 1).
use Prim.Native.Nat.{ℕ, ◌+◌, ◌-◌, ◌%◌, ◌^◌, ◌<◌}
use mathlib.Core.Bool.{Bool, true, false, not}
use mathlib.Core.Path.{◌≡◌}
use native.Mathlib.Omega.{arith}
use open_scanner.Base.Tests.{ltb, ◌==◌, if◌then◌else◌}

pub data ℤ : Type 0 where
  pos : ℕ → ℤ
  negsuc : ℕ → ℤ

-- `a < b` on signed values.
abbrev pub ltb_ℤ : ℤ → ℤ → Bool
ltb_ℤ (pos a) (pos b) = ltb a b
ltb_ℤ (pos a) (negsuc b) = false
ltb_ℤ (negsuc a) (pos b) = true
ltb_ℤ (negsuc a) (negsuc b) = ltb b a

abbrev pub eq_ℤ : ℤ → ℤ → Bool
eq_ℤ (pos a) (pos b) = a == b
eq_ℤ (negsuc a) (negsuc b) = a == b
eq_ℤ _ _ = false

-- `a <= b`
abbrev pub leb_ℤ : ℤ → ℤ → Bool
leb_ℤ a b = not (ltb_ℤ b a)

-- `a - b` of two natural numbers.
abbrev pub sub_ℕ : ℕ → ℕ → ℤ
sub_ℕ a b = if ltb a b then negsuc (b - a - 1) else pos (a - b)

infixl 60 ◌+ℤ◌
abbrev pub ◌+ℤ◌ : ℤ → ℤ → ℤ
pos a +ℤ pos b = pos (a + b)
pos a +ℤ negsuc b = sub_ℕ a (b + 1)
negsuc a +ℤ pos b = sub_ℕ b (a + 1)
negsuc a +ℤ negsuc b = negsuc (a + b + 1)

pub eq_ℤ-refl : (a : ℤ) → eq_ℤ a a ≡ true
eq_ℤ-refl (pos a) = ground arith
eq_ℤ-refl (negsuc a) = ground arith

-- The negative of a natural number.
abbrev pub neg_ℕ : ℕ → ℤ
neg_ℕ n = if n == 0 then pos 0 else negsuc (n - 1)

-- The 64-bit signed integer that a word is.
unfoldable pub wrap_64 : ℕ → ℤ
wrap_64 n = if ltb (n % 2 ^ 64) (2 ^ 63) then pos (n % 2 ^ 64) else negsuc (2 ^ 64 - 1 - n % 2 ^ 64)

-- A result of 64-bit signed arithmetic.
unfoldable pub int64 : ℤ → ℤ
unfolding wrap_64
int64 (pos n) = wrap_64 n
int64 (negsuc n) = wrap_64 (2 ^ 64 - 1 - n % 2 ^ 64)

abbrev pub IsInt64 : ℤ → Type 0
IsInt64 (pos n) = n < 2 ^ 63
IsInt64 (negsuc n) = n < 2 ^ 63

-- In range nothing wraps.
pub int64-in_range : (a : ℤ) → IsInt64 a → int64 a ≡ a
unfolding int64 wrap_64
int64-in_range (pos n) h = ground arith
int64-in_range (negsuc n) h = ground arith
