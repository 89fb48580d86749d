-- ===== src/Prelude/Range.antt =====
-- A small range of numbers is checked value by value.
use Prim.Native.Nat.{ℕ, zero, suc, ◌<◌}
use mathlib.Core.Path.{◌≡◌}
use mathlib.Core.Bool.{Bool, true, ◌&&◌}
use native.Mathlib.Omega.{arith}
use flashfloppy_testbed.Prelude.Tests.{◌==◌, ==_iff}

unfoldable pub all_below : ℕ → (ℕ → Bool) → Bool
all_below zero test = true
all_below (suc n) test = test n && all_below n test

pub all_below-lt :
    (n : ℕ) (test : ℕ → Bool) (x : ℕ) → all_below n test ≡ true → x < n → test x ≡ true
unfolding all_below
all_below-lt zero test x h lt = absurd (omega arith)
all_below-lt (suc n) test x h lt = ground (arith, all_below-lt n test x)

-- Two functions that a check finds equal below `n` are equal there.
pub eq_below :
    (n : ℕ) (f g : ℕ → ℕ) (x : ℕ) → all_below n (λ (y : ℕ). f y == g y) ≡ true → x < n → f x ≡ g x
eq_below n f g x h lt = (==_iff (f x) (g x)).0 (all_below-lt n (λ (y : ℕ). f y == g y) x h lt)
