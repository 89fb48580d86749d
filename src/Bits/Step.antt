-- ===== src/Bits/Step.antt =====
-- One equation for the lowest digit of each bit operation.
use Prim.Native.Nat.{min, max, digits, bit_and-bitwise, bit_or-bitwise, bit_xor-bitwise, differ}
use flashfloppy_testbed.Prelude.{ℕ, zero, suc, ◌+◌, ◌*◌, ◌/◌, ◌%◌, ◌≤◌, ◌≡◌, refl, arith}
use flashfloppy_testbed.Prelude.{bit_and, bit_or, bit_xor}

module _ (rest : ℕ → ℕ) (op : ℕ → ℕ → ℕ) where
  -- Any fuel that reaches `x` will do.
  enough : (x y k l : ℕ) → x ≤ k → x ≤ l → digits rest op k x y ≡ digits rest op l x y
  enough (suc x) y (suc k) (suc l) h i =
      omega (arith, enough (suc x / 2) (y / 2) k l (omega arith) (omega arith))
  enough (suc x) y zero l h i = absurd (omega arith)
  enough (suc x) y k zero h i = absurd (omega arith)
  enough zero y zero zero h i = refl
  enough zero y (suc k) zero h i = refl
  enough zero y zero (suc l) h i = refl
  enough zero y (suc k) (suc l) h i = refl

  unroll :
      (x y : ℕ)
      → digits rest op (suc x) (suc x) y
        ≡ digits rest op (suc x / 2) (suc x / 2) (y / 2) * 2 + op (suc x % 2) (y % 2)
  unroll x y = omega (arith, enough (suc x / 2) (y / 2) x (suc x / 2) (omega arith) (omega arith))

pub bit_xor_step : (x y : ℕ) → bit_xor x y ≡ bit_xor (x / 2) (y / 2) * 2 + differ (x % 2) (y % 2)
bit_xor_step (suc x) y = simp bit_xor-bitwise (unroll (λ t. t) differ x y)
bit_xor_step zero y = simp bit_xor-bitwise (ground arith)

pub bit_and_step : (x y : ℕ) → bit_and x y ≡ bit_and (x / 2) (y / 2) * 2 + min (x % 2) (y % 2)
bit_and_step (suc x) y = simp bit_and-bitwise (unroll (λ t. 0) min x y)
bit_and_step zero y = simp bit_and-bitwise (omega arith)

pub bit_or_step : (x y : ℕ) → bit_or x y ≡ bit_or (x / 2) (y / 2) * 2 + max (x % 2) (y % 2)
bit_or_step (suc x) y = simp bit_or-bitwise (unroll (λ t. t) max x y)
bit_or_step zero y = simp bit_or-bitwise (omega arith)
