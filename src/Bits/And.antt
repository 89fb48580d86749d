-- ===== src/Bits/And.antt =====
-- `&` and `|` at variables, as arithmetic on the fields of a word.
use Prim.Native.Nat.{bit_and-bitwise, bit_or-bitwise}
use native.Mathlib.Nat.{pow-suc, one-le-pow}
use flashfloppy_testbed.Prelude.{
  ℕ, zero, suc, ◌+◌, ◌-◌, ◌*◌, ◌/◌, ◌%◌, ◌^◌, ◌≤◌, ◌<◌, ◌≡◌, refl, ap,
}
use flashfloppy_testbed.Prelude.{arith, bit_and, bit_or}
use flashfloppy_testbed.Bits.Step.{bit_and_step, bit_or_step}

pub zero-bit_and : (b : ℕ) → bit_and 0 b ≡ 0
zero-bit_and b = bit_and-bitwise 0 b

pub zero-bit_or : (b : ℕ) → bit_or 0 b ≡ b
zero-bit_or b = bit_or-bitwise 0 b

and_zero_below : (n a : ℕ) → a ≤ n → bit_and a 0 ≡ 0
and_zero_below zero zero h = refl
and_zero_below zero (suc a) h = absurd (omega arith)
and_zero_below (suc n) a h = omega (arith, bit_and_step a 0, and_zero_below n (a / 2) (omega arith))

pub bit_and-zero : (a : ℕ) → bit_and a 0 ≡ 0
bit_and-zero a = and_zero_below a a (omega arith)

or_zero_below : (n a : ℕ) → a ≤ n → bit_or a 0 ≡ a
or_zero_below zero zero h = refl
or_zero_below zero (suc a) h = absurd (omega arith)
or_zero_below (suc n) a h = omega (arith, bit_or_step a 0, or_zero_below n (a / 2) (omega arith))

pub bit_or-zero : (a : ℕ) → bit_or a 0 ≡ a
bit_or-zero a = or_zero_below a a (omega arith)

double-pow : (q k : ℕ) → q * 2 ^ suc k ≡ 2 * (q * 2 ^ k)
double-pow q k = omega (arith, ap (λ (t : ℕ). q * t) (pow-suc 2 k))

pub bit_and_fields :
    (k q r q' r' : ℕ)
    → r < 2 ^ k
    → r' < 2 ^ k
    → bit_and (q * 2 ^ k + r) (q' * 2 ^ k + r') ≡ bit_and q q' * 2 ^ k + bit_and r r'
bit_and_fields zero q r q' r' h h' = ground (arith, zero-bit_and 0)
bit_and_fields (suc k) q r q' r' h h' = ground (
  arith,
  double-pow q k,
  double-pow q' k,
  double-pow (bit_and q q') k,
  pow-suc 2 k,
  bit_and_step (q * 2 ^ suc k + r) (q' * 2 ^ suc k + r'),
  bit_and_step r r',
  bit_and_fields k q (r / 2) q' (r' / 2) (omega (arith, pow-suc 2 k)) (omega (arith, pow-suc 2 k)),
)

pub bit_or_fields :
    (k q r q' r' : ℕ)
    → r < 2 ^ k
    → r' < 2 ^ k
    → bit_or (q * 2 ^ k + r) (q' * 2 ^ k + r') ≡ bit_or q q' * 2 ^ k + bit_or r r'
bit_or_fields zero q r q' r' h h' = ground (arith, zero-bit_or 0)
bit_or_fields (suc k) q r q' r' h h' = ground (
  arith,
  double-pow q k,
  double-pow q' k,
  double-pow (bit_or q q') k,
  pow-suc 2 k,
  bit_or_step (q * 2 ^ suc k + r) (q' * 2 ^ suc k + r'),
  bit_or_step r r',
  bit_or_fields k q (r / 2) q' (r' / 2) (omega (arith, pow-suc 2 k)) (omega (arith, pow-suc 2 k)),
)

pub bit_and_full : (k r : ℕ) → r < 2 ^ k → bit_and r (2 ^ k - 1) ≡ r
bit_and_full zero r h = rw bit_and-zero (omega arith)
bit_and_full (suc k) r h = ground (
  arith,
  pow-suc 2 k,
  one-le-pow k 2,
  bit_and_step r (2 ^ suc k - 1),
  bit_and_full k (r / 2) (omega (arith, pow-suc 2 k)),
)

-- A mask of `k` ones leaves the remainder by `2 ^ k`.
pub bit_and_mask : (k a : ℕ) → bit_and a (2 ^ k - 1) ≡ a % 2 ^ k
bit_and_mask k a = ground (
  arith,
  one-le-pow k 2,
  bit_and_full k (a % 2 ^ k),
  bit_and-zero (a / 2 ^ k),
  bit_and_fields k (a / 2 ^ k) (a % 2 ^ k) 0 (2 ^ k - 1),
)

-- Of the second operand only the bits below the first one's width matter.
pub bit_and_low : (k a b : ℕ) → a < 2 ^ k → bit_and a b ≡ bit_and a (b % 2 ^ k)
bit_and_low k a b h =
    ground (
      arith,
      one-le-pow k 2,
      zero-bit_and (b / 2 ^ k),
      bit_and_fields k 0 a (b / 2 ^ k) (b % 2 ^ k),
    )

pub bit_or_sum : (k q r : ℕ) → r < 2 ^ k → bit_or (q * 2 ^ k) r ≡ q * 2 ^ k + r
bit_or_sum k q r h =
    ground (arith, one-le-pow k 2, bit_or-zero q, zero-bit_or r, bit_or_fields k q 0 0 r)

or_comm_below : (n a b : ℕ) → a ≤ n → b ≤ n → bit_or a b ≡ bit_or b a
or_comm_below zero zero zero h k = refl
or_comm_below zero (suc a) b h k = absurd (omega arith)
or_comm_below zero zero (suc b) h k = absurd (omega arith)
or_comm_below (suc n) a b h k = ground (
  arith,
  bit_or_step a b,
  bit_or_step b a,
  or_comm_below n (a / 2) (b / 2) (omega arith) (omega arith),
)

pub bit_or_comm : (a b : ℕ) → bit_or a b ≡ bit_or b a
bit_or_comm a b = or_comm_below (a + b) a b (omega arith) (omega arith)
