-- ===== src/Prelude/Int.antt =====
-- Signed integers over the native numbers, under the library's names: the values of C's `int`.
use Prim.Native.Nat.{ℕ, ◌+◌, ◌%◌, ◌<◌, ◌-◌, ◌^◌}
use mathlib.Core.Path.{◌≡◌}
use mathlib.Core.Logic.{◌↔◌}
use mathlib.Core.Bool.{Bool, true, false}
use native.Mathlib.Omega.{arith}
use flashfloppy_testbed.Prelude.Tests.{leb, ltb, ◌==◌, if◌then◌else◌}

-- `negsuc n` is -(n + 1).
pub data ℤ : Type 0 where
  pos : ℕ → ℤ
  negsuc : ℕ → ℤ

-- a - b, as an integer.
abbrev pub sub_ℕ : ℕ → ℕ → ℤ
sub_ℕ a b = if leb b a then pos (a - b) else negsuc (b - a - 1)

-- `if (d)`
abbrev pub is_zero : ℤ → Bool
is_zero (pos n) = n == 0
is_zero (negsuc n) = false

abbrev pub is_neg : ℤ → Bool
is_neg (pos n) = false
is_neg (negsuc n) = true

-- The `int32_t` that a 32-bit pattern stands for.
abbrev pub signed32 : ℕ → ℤ
signed32 w = if ltb w (2 ^ 31) then pos w else negsuc (2 ^ 32 - w - 1)

-- `a <= b`
abbrev pub lez : ℤ → ℤ → Bool
lez (pos a) (pos b) = leb a b
lez (pos a) (negsuc b) = false
lez (negsuc a) (pos b) = true
lez (negsuc a) (negsuc b) = leb b a

pub sub_ℕ_zero : (a b : ℕ) → (sub_ℕ a b ≡ pos 0) ↔ (a ≡ b)
sub_ℕ_zero a b = ground arith

pub is_zero-sub_ℕ : (a b : ℕ) → is_zero (sub_ℕ a b) ≡ (a == b)
is_zero-sub_ℕ a b = ground arith

pub is_neg-sub_ℕ : (a b : ℕ) → is_neg (sub_ℕ a b) ≡ ltb a b
is_neg-sub_ℕ a b = ground arith

-- The order of two `int32_t` is that of their patterns, moved by half the range.
pub lez-signed32 :
    (a b : ℕ)
    → a < 2 ^ 32
    → b < 2 ^ 32
    → lez (signed32 a) (signed32 b) ≡ leb ((a + 2 ^ 31) % 2 ^ 32) ((b + 2 ^ 31) % 2 ^ 32)
lez-signed32 a b h k = ground arith
