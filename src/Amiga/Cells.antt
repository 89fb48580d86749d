-- ===== src/Amiga/Cells.antt =====
-- The bitcells that `emit_long` makes, against the rule of MFM: by induction on the number of data
-- bits, two cells at a time.
use Prim.Native.Nat.{max}
use flashfloppy_testbed.Prelude.{
  ℕ, zero, suc, ◌+◌, ◌-◌, ◌*◌, ◌/◌, ◌%◌, ◌^◌, ◌<◌, ◌≡◌, ◌∙◌, refl, sym, ap, ap₂, arith, bit_and,
  bit_or,
}
use native.Mathlib.Nat.{pow-suc, div-div-eq-div-mul}
use flashfloppy_testbed.Bits.Step.{bit_or_step}
use flashfloppy_testbed.Bits.And.{bit_and_fields, bit_or_fields, bit_and-zero, zero-bit_or}
use flashfloppy_testbed.Mfm.Spec.{clock_bit, encode_bits}

-- The data bits among `2 * n` cells.
abbrev pub mask : ℕ → ℕ
mask zero = 0
mask (suc n) = 4 * mask n + 1

-- `4 ^ n`
abbrev pub cells : ℕ → ℕ
cells zero = 1
cells (suc n) = 4 * cells n

bit_and_pair : (x y : ℕ) → bit_and x y ≡ 4 * bit_and (x / 4) (y / 4) + bit_and (x % 4) (y % 4)
bit_and_pair x y = omega (
  arith,
  bit_and_fields 2 (x / 4) (x % 4) (y / 4) (y % 4) (omega arith) (omega arith),
  ap (λ t. bit_and t y) (split x),
  ap (bit_and (x / 4 * 4 + x % 4)) (split y),
)
  where
    split : (t : ℕ) → t ≡ t / 4 * 4 + t % 4
    split t = omega arith

bit_or_pair : (x y : ℕ) → bit_or x y ≡ 4 * bit_or (x / 4) (y / 4) + bit_or (x % 4) (y % 4)
bit_or_pair x y = omega (
  arith,
  bit_or_fields 2 (x / 4) (x % 4) (y / 4) (y % 4) (omega arith) (omega arith),
  ap (λ t. bit_or t y) (split x),
  ap (bit_or (x / 4 * 4 + x % 4)) (split y),
)
  where
    split : (t : ℕ) → t ≡ t / 4 * 4 + t % 4
    split t = omega arith

-- The data bits of a word.
unfoldable pub data_of : ℕ → ℕ → ℕ
data_of n x = bit_and x (mask n)

pub data_of-suc : (n x : ℕ) → data_of (suc n) x ≡ 4 * data_of n (x / 4) + x % 2
unfolding data_of
data_of-suc n x = omega (
  arith,
  bit_and_pair x (4 * mask n + 1),
  ap (bit_and (x / 4)) (high (mask n)),
  ap (bit_and (x % 4)) (low (mask n)),
  low_and (x % 4) (omega arith),
)
  where
    high : (t : ℕ) → (4 * t + 1) / 4 ≡ t
    high t = omega arith

    low : (t : ℕ) → (4 * t + 1) % 4 ≡ 1
    low t = omega arith

    low_and : (t : ℕ) → t < 4 → bit_and t 1 ≡ t % 2
    low_and zero h = refl
    low_and (suc zero) h = refl
    low_and (suc (suc zero)) h = refl
    low_and (suc (suc (suc zero))) h = refl
    low_and (suc (suc (suc (suc t)))) h = absurd (omega arith)

-- Three times the data bits still fit.
pub data_of_bound : (n x : ℕ) → 3 * data_of n x < cells n
unfolding data_of
data_of_bound zero x = omega (arith, bit_and-zero x)
data_of_bound (suc n) x = omega (arith, data_of-suc n x, data_of_bound n (x / 4))

bit_or-cells : (n a b : ℕ) → a < cells n → b < cells n → bit_or a b < cells n
bit_or-cells zero a b h k =
    omega (arith, ap (λ t. bit_or t b) none, ap (bit_or 0) none', zero-bit_or 0)
  where
    none : a ≡ 0
    none = omega arith

    none' : b ≡ 0
    none' = omega arith
bit_or-cells (suc n) a b h k = omega (
  arith,
  bit_or_pair a b,
  bit_or-cells n (a / 4) (b / 4) (omega arith) (omega arith),
  low (a % 4) (b % 4) (omega arith) (omega arith),
)
  where
    low : (s t : ℕ) → s < 4 → t < 4 → bit_or s t < 4
    low s t h k = omega (
      arith,
      bit_or_step s t,
      bit_or_step (s / 2) (t / 2),
      ap (λ u. bit_or u (t / 2 / 2)) (gone s h),
      ap (bit_or 0) (gone t k),
      zero-bit_or 0,
      bits (s % 2) (t % 2) (omega arith) (omega arith),
      bits (s / 2 % 2) (t / 2 % 2) (omega arith) (omega arith),
    )
      where
        gone : (u : ℕ) → u < 4 → u / 2 / 2 ≡ 0
        gone u h = omega arith

        bits : (u v : ℕ) → u < 2 → v < 2 → max u v < 2
        bits u v h k = ground arith

bit_or_parity : (a b : ℕ) → bit_or a b % 2 ≡ max (a % 2) (b % 2)
bit_or_parity a b = ground (arith, bit_or_step a b)

-- The clock bits of a word, with a zero in front of it.
unfoldable pub clock_of : ℕ → ℕ → ℕ
clock_of n x = data_of n (cells n - 1 - bit_or (x / 4) x)

clock_of-suc :
    (n x : ℕ)
    → x < cells (suc n)
    → clock_of (suc n) x ≡ 4 * clock_of n (x / 4) + (1 - max (x / 4 % 2) (x % 2))
unfolding clock_of
clock_of-suc n x h =
    data_of-suc n (4 * cells n - 1 - bit_or (x / 4) x)
    ∙ ap (λ t. 4 * data_of n t + (4 * cells n - 1 - bit_or (x / 4) x) % 2) high
    ∙ ap (λ t. 4 * data_of n (cells n - 1 - bit_or (x / 4 / 4) (x / 4)) + t) low
  where
    fits : bit_or (x / 4) x < 4 * cells n
    fits = bit_or-cells (suc n) (x / 4) x (omega arith) h

    quarter : bit_or (x / 4) x / 4 ≡ bit_or (x / 4 / 4) (x / 4)
    quarter = omega (
      arith,
      bit_or_pair (x / 4) x,
      bit_or-cells 1 (x / 4 % 4) (x % 4) (omega arith) (omega arith),
    )

    high : (4 * cells n - 1 - bit_or (x / 4) x) / 4 ≡ cells n - 1 - bit_or (x / 4 / 4) (x / 4)
    high = omega (arith, fits, quarter)

    low : (4 * cells n - 1 - bit_or (x / 4) x) % 2 ≡ 1 - max (x / 4 % 2) (x % 2)
    low = omega (arith, fits, bit_or_parity (x / 4) x)

-- Cells of their own are added up by `|`.
pub bit_or-data_of :
    (n x z : ℕ) → bit_or (data_of n x) (2 * data_of n z) ≡ data_of n x + 2 * data_of n z
unfolding data_of
bit_or-data_of zero x z = omega (
  arith,
  bit_and-zero x,
  bit_and-zero z,
  ap (λ t. bit_or t (2 * bit_and z 0)) (bit_and-zero x),
  zero-bit_or (2 * bit_and z 0),
)
bit_or-data_of (suc n) x z =
    ap (λ t. bit_or t (2 * data_of (suc n) z)) (data_of-suc n x)
    ∙ ap (λ t. bit_or (4 * data_of n (x / 4) + x % 2) (2 * t)) (data_of-suc n z)
    ∙ sums (data_of n (x / 4)) (x % 2) (data_of n (z / 4)) (z % 2) (omega arith) (omega arith)
        (bit_or-data_of n (x / 4) (z / 4))
    ∙ omega (arith, data_of-suc n x, data_of-suc n z)
  where
    low : (a c : ℕ) → a < 2 → c < 2 → bit_or a (2 * c) ≡ a + 2 * c
    low zero zero h k = refl
    low zero (suc zero) h k = refl
    low (suc zero) zero h k = refl
    low (suc zero) (suc zero) h k = refl
    low (suc (suc a)) c h k = absurd (omega arith)
    low a (suc (suc c)) h k = absurd (omega arith)

    sums :
        (d a e c : ℕ)
        → a < 2
        → c < 2
        → bit_or d (2 * e) ≡ d + 2 * e
        → bit_or (4 * d + a) (2 * (4 * e + c)) ≡ (4 * d + a) + 2 * (4 * e + c)
    sums d a e c h k ih =
        ap₂ bit_or (commuted d a) (doubled e c)
        ∙ bit_or_fields 2 d a (2 * e) (2 * c) (omega arith) (omega arith)
        ∙ omega (arith, ih, low a c h k)
      where
        commuted : (d a : ℕ) → 4 * d + a ≡ d * 2 ^ 2 + a
        commuted d a = omega arith

        doubled : (e c : ℕ) → 2 * (4 * e + c) ≡ 2 * e * 2 ^ 2 + 2 * c
        doubled e c = omega arith

-- A word of cells with a zero in front of it.
unfoldable pub word_of : ℕ → ℕ → ℕ
word_of n x = data_of n x + 2 * clock_of n x

pub word_of-lt : (n x : ℕ) → word_of n x < cells n
unfolding word_of clock_of
word_of-lt n x = omega (arith, data_of_bound n x, data_of_bound n (cells n - 1 - bit_or (x / 4) x))

pub word_of-suc :
    (n x : ℕ)
    → x < cells (suc n)
    → word_of (suc n) x ≡ 4 * word_of n (x / 4) + (x % 2 + 2 * (1 - max (x / 4 % 2) (x % 2)))
unfolding word_of
word_of-suc n x h = omega (arith, data_of-suc n x, clock_of-suc n x h)

-- The data bits of the word are those that went in.
pub data_of-word_of : (n x : ℕ) → x < cells n → data_of n (word_of n x) ≡ data_of n x
data_of-word_of zero x h = unfold data_of in (bit_and-zero (word_of 0 x) ∙ sym (bit_and-zero x))
data_of-word_of (suc n) x h =
    data_of-suc n (word_of (suc n) x)
    ∙ ap (λ t. 4 * data_of n t + word_of (suc n) x % 2) high
    ∙ omega
        (arith, data_of-word_of n (x / 4) (omega arith), data_of-suc n x, word_of-suc n x h, two)
  where
    two : x % 2 + 2 * (1 - max (x / 4 % 2) (x % 2)) < 4
    two = omega arith

    high : word_of (suc n) x / 4 ≡ word_of n (x / 4)
    high = omega (arith, word_of-suc n x h, two)

-- The clock bit at the top is no data bit.
pub data_of_top :
    (n x : ℕ) → x < 2 * cells n → data_of (suc n) (x + 2 * cells n) ≡ data_of (suc n) x
data_of_top zero x h =
    omega (arith, data_of-suc 0 (x + 2), data_of-suc 0 x, none ((x + 2) / 4), none (x / 4))
  where
    none : (t : ℕ) → data_of 0 t ≡ 0
    none t = unfold data_of in bit_and-zero t
data_of_top (suc n) x h =
    data_of-suc (suc n) (x + 2 * cells (suc n))
    ∙ ap (λ t. 4 * data_of (suc n) t + (x + 2 * cells (suc n)) % 2) quarter
    ∙ omega (arith, data_of_top n (x / 4) (omega arith), data_of-suc (suc n) x)
  where
    quarter : (x + 2 * cells (suc n)) / 4 ≡ x / 4 + 2 * cells n
    quarter = omega arith

-- One more bit at the low end.
abbrev pub before : ℕ → ℕ → ℕ → ℕ
before zero prev x = prev
before (suc n) prev x = x % 2

pub encode_bits_low :
    (n prev x : ℕ)
    → encode_bits (suc n) prev x
      ≡ 4 * encode_bits n prev (x / 2) + (x % 2 + 2 * clock_bit (before n prev (x / 2)) (x % 2))
encode_bits_low zero prev x = ap (λ d. clock_bit prev d * 2 ^ 1 + d * 2 ^ 0 + 0) one ∙ omega arith
  where
    one : x / 2 ^ 0 % 2 ≡ x % 2
    one = omega arith
encode_bits_low (suc n) prev x =
    ap
      (λ t.
        clock_bit prev t * 2 ^ (suc n + suc n + 1)
        + t * 2 ^ (suc n + suc n)
        + encode_bits (suc n) t x)
      halves
    ∙ ap (λ t. clock_bit prev d * 2 ^ (suc n + suc n + 1) + d * 2 ^ (suc n + suc n) + t)
        (encode_bits_low n d x)
    ∙ ap₂
        (λ s t.
          clock_bit prev d * s
          + d * t
          + (4 * encode_bits n d (x / 2) + (x % 2 + 2 * clock_bit (before n d (x / 2)) (x % 2))))
        (power (n + n + 1) (suc n + suc n + 1) (omega arith))
        (power (n + n) (suc n + suc n) (omega arith))
    ∙ ap
        (λ t.
          clock_bit prev d * (2 ^ (n + n + 1) * 4)
          + d * (2 ^ (n + n) * 4)
          + (4 * encode_bits n d (x / 2) + (x % 2 + 2 * clock_bit t (x % 2))))
        (last n d refl)
    ∙ regroup (clock_bit prev d) (2 ^ (n + n + 1)) d (2 ^ (n + n)) (encode_bits n d (x / 2))
        (x % 2 + 2 * clock_bit (x / 2 % 2) (x % 2))
  where
    d : ℕ
    d = x / 2 / 2 ^ n % 2

    halves : x / 2 ^ suc n % 2 ≡ d
    halves = omega (
      arith,
      div-div-eq-div-mul x 2 (2 ^ n),
      ap (λ t. x / t) (pow-suc 2 n),
      ap (λ t. x / t) (mul_two (2 ^ n)),
    )
      where
        mul_two : (t : ℕ) → 2 * t ≡ t * 2
        mul_two t = omega arith

    last : (n d : ℕ) → d ≡ x / 2 / 2 ^ n % 2 → before n d (x / 2) ≡ x / 2 % 2
    last zero d e = omega (arith, e)
    last (suc n) d e = refl

    power : (k l : ℕ) → l ≡ suc (suc k) → 2 ^ l ≡ 2 ^ k * 4
    power k l e = ap (λ t. 2 ^ t) e ∙ omega (arith, pow-suc 2 k, pow-suc 2 (suc k))

    regroup :
        (c s d t u v : ℕ) → c * (s * 4) + d * (t * 4) + (4 * u + v) ≡ 4 * (c * s + d * t + u) + v
    regroup c s d t u v = grind arith
