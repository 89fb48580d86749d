-- ===== src/Bits/Xor.antt =====
-- `^` at variables: its group laws, and how it acts on the fields of a word.
use Prim.Native.Nat.{differ, bit_xor-bitwise}
use native.Mathlib.Nat.{pow-suc}
use flashfloppy_testbed.Prelude.{
  ℕ, zero, suc, ◌+◌, ◌*◌, ◌/◌, ◌%◌, ◌^◌, ◌≤◌, ◌<◌, ◌≡◌, refl, ap, ◌∙◌,
}
use flashfloppy_testbed.Prelude.{arith, bit_xor}
use flashfloppy_testbed.Bits.Step.{bit_xor_step}

differ_lem : (x y : ℕ) → x < 2 → y < 2 → differ x y ≡ (x + y) % 2
differ_lem zero zero h k = refl
differ_lem zero (suc zero) h k = refl
differ_lem (suc zero) zero h k = refl
differ_lem (suc zero) (suc zero) h k = refl
differ_lem x (suc (suc y)) h k = absurd (omega arith)
differ_lem (suc (suc x)) y h k = absurd (omega arith)

-- The lowest digit is the parity of the sum, the others are those of the halves.
pub bit_xor_digit : (a b : ℕ) → bit_xor a b ≡ bit_xor (a / 2) (b / 2) * 2 + (a + b) % 2
bit_xor_digit a b =
    omega (arith, bit_xor_step a b, differ_lem (a % 2) (b % 2) (omega arith) (omega arith))

pub bit_xor_half : (a b : ℕ) → bit_xor a b / 2 ≡ bit_xor (a / 2) (b / 2)
bit_xor_half a b = omega (arith, bit_xor_digit a b)

pub bit_xor_parity : (a b : ℕ) → bit_xor a b % 2 ≡ (a + b) % 2
bit_xor_parity a b = omega (arith, bit_xor_digit a b)

comm_below : (n a b : ℕ) → a ≤ n → b ≤ n → bit_xor a b ≡ bit_xor b a
comm_below zero zero zero h k = refl
comm_below zero (suc a) b h k = absurd (omega arith)
comm_below zero zero (suc b) h k = absurd (omega arith)
comm_below (suc n) a b h k = omega (
  arith,
  bit_xor_digit a b,
  bit_xor_digit b a,
  comm_below n (a / 2) (b / 2) (omega arith) (omega arith),
)

pub bit_xor_comm : (a b : ℕ) → bit_xor a b ≡ bit_xor b a
bit_xor_comm a b = comm_below (a + b) a b (omega arith) (omega arith)

assoc_below :
    (n a b c : ℕ) → a ≤ n → b ≤ n → c ≤ n → bit_xor (bit_xor a b) c ≡ bit_xor a (bit_xor b c)
assoc_below zero zero zero zero h k l = refl
assoc_below zero (suc a) b c h k l = absurd (omega arith)
assoc_below zero zero (suc b) c h k l = absurd (omega arith)
assoc_below zero zero zero (suc c) h k l = absurd (omega arith)
assoc_below (suc n) a b c h k l =
    let left = bit_xor_digit (bit_xor a b) c in
    let right = bit_xor_digit a (bit_xor b c) in
    let ih = assoc_below n (a / 2) (b / 2) (c / 2) (omega arith) (omega arith) (omega arith) in
    ground (
      arith,
      left,
      right,
      ih,
      bit_xor_half a b,
      bit_xor_half b c,
      bit_xor_parity a b,
      bit_xor_parity b c,
    )

pub bit_xor_assoc : (a b c : ℕ) → bit_xor (bit_xor a b) c ≡ bit_xor a (bit_xor b c)
bit_xor_assoc a b c = assoc_below (a + b + c) a b c (omega arith) (omega arith) (omega arith)

self_below : (n a : ℕ) → a ≤ n → bit_xor a a ≡ 0
self_below zero zero h = refl
self_below zero (suc a) h = absurd (omega arith)
self_below (suc n) a h = omega (arith, bit_xor_digit a a, self_below n (a / 2) (omega arith))

pub bit_xor_self : (a : ℕ) → bit_xor a a ≡ 0
bit_xor_self a = self_below a a (omega arith)

pub zero-bit_xor : (b : ℕ) → bit_xor 0 b ≡ b
zero-bit_xor b = bit_xor-bitwise 0 b

pub bit_xor-zero : (a : ℕ) → bit_xor a 0 ≡ a
bit_xor-zero a = bit_xor_comm a 0 ∙ zero-bit_xor a

-- `a ^ (a ^ b)` is `b`.
pub bit_xor_cancel : (a b : ℕ) → bit_xor a (bit_xor a b) ≡ b
bit_xor_cancel a b = ground (arith, bit_xor_assoc a a b, bit_xor_self a, zero-bit_xor b)

pub bit_xor_injective : (a b c : ℕ) → bit_xor a b ≡ bit_xor a c → b ≡ c
bit_xor_injective a b c h = ground (arith, bit_xor_cancel a b, bit_xor_cancel a c)

double-pow : (q k : ℕ) → q * 2 ^ suc k ≡ 2 * (q * 2 ^ k)
double-pow q k = omega (arith, ap (λ (t : ℕ). q * t) (pow-suc 2 k))

-- High and low fields are combined on their own.
pub bit_xor_fields :
    (k q r q' r' : ℕ)
    → r < 2 ^ k
    → r' < 2 ^ k
    → bit_xor (q * 2 ^ k + r) (q' * 2 ^ k + r') ≡ bit_xor q q' * 2 ^ k + bit_xor r r'
bit_xor_fields zero q r q' r' h h' = ground (arith, zero-bit_xor 0)
bit_xor_fields (suc k) q r q' r' h h' = ground (
  arith,
  double-pow q k,
  double-pow q' k,
  double-pow (bit_xor q q') k,
  pow-suc 2 k,
  bit_xor_digit (q * 2 ^ suc k + r) (q' * 2 ^ suc k + r'),
  bit_xor_digit r r',
  bit_xor_fields k q (r / 2) q' (r' / 2) (omega (arith, pow-suc 2 k)) (omega (arith, pow-suc 2 k)),
)

pub bit_xor-lt : (k a b : ℕ) → a < 2 ^ k → b < 2 ^ k → bit_xor a b < 2 ^ k
bit_xor-lt zero a b h k = ground (arith, zero-bit_xor 0)
bit_xor-lt (suc k) a b h h' = omega (
  arith,
  pow-suc 2 k,
  bit_xor_digit a b,
  bit_xor-lt k (a / 2) (b / 2) (omega (arith, pow-suc 2 k)) (omega (arith, pow-suc 2 k)),
)
