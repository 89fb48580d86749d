-- ===== src/Mfm/Asm.antt =====
-- `mfmtobin` picks out the data bits, and the table is the MFM rule.
use flashfloppy_testbed.Prelude.{ℕ, zero, suc, ◌+◌, ◌-◌, ◌*◌, ◌/◌, ◌%◌, ◌^◌, ◌<◌, ◌≡◌, refl, arith}
use flashfloppy_testbed.Prelude.{
  true, leb, eq_below, ◌==◌, ==_iff, all_below, all_below-lt, ap, ap₂, sym, ◌∙◌, if◌then◌else◌,
}
use flashfloppy_testbed.Bits.And.{bit_and_low, bit_and_mask}
use flashfloppy_testbed.Mfm.{bintomfm, shift_pairs, rev32, mfmtobin_from, mfmtobin, clear_clock}
use flashfloppy_testbed.Mfm.Spec.{mfm_word, word_data, data_bits}
use flashfloppy_testbed.Mem.{u8, u16}
use native.Mathlib.Nat.{pow-suc, one-le-pow, mul-add-div_right, div-div-eq-div-mul}

carry : (n p b s : ℕ) → p * 2 ^ n ≡ 2 ^ 31 → (b * 2 ^ 31 + s) / 2 ^ n ≡ b * p + s / 2 ^ n
carry n p b s e =
    let scaled : b * 2 ^ 31 ≡ b * p * 2 ^ n = omega (arith, ap (λ (t : ℕ). b * t) e) in
    ap (λ (t : ℕ). (t + s) / 2 ^ n) scaled
    ∙ mul-add-div_right {m = 2 ^ n} (one-le-pow n 2 (omega arith)) (b * p) s

quarters : (x : ℕ) → x / 4 / 2 ≡ x / 2 / 4
quarters x = omega arith

-- After `n` lines the carries are the `n` top bits, the last of them highest; `p` is the weight of
-- the first.
shift_pairs_lem :
    (n p y x : ℕ) → p * 2 ^ n ≡ 2 ^ 32 → shift_pairs n y x ≡ data_bits n (x / 2) * p + y / 2 ^ n
unfolding shift_pairs
shift_pairs_lem zero p y x e = omega arith
shift_pairs_lem (suc n) p y x e =
    let half : p * 2 ^ n ≡ 2 ^ 31 = omega (arith, ap (λ (t : ℕ). p * t) (pow-suc 2 n)) in
    let rest = shift_pairs_lem n (2 * p) (x / 2 % 2 * 2 ^ 31 + y / 2) (x / 4) (omega arith) in
    rest
    ∙ omega (
      arith,
      carry n p (x / 2 % 2) (y / 2) half,
      halved,
      ap (λ (t : ℕ). data_bits n t * p) (quarters x),
    )
  where
    halved : y / 2 / 2 ^ n ≡ y / 2 ^ suc n
    halved = div-div-eq-div-mul y 2 (2 ^ n) ∙ ap (λ (t : ℕ). y / t) (omega (arith, pow-suc 2 n))

-- The topmost clock bit is not read.
clock_free : (n x c : ℕ) → data_bits (suc n) (x + c * (2 * 4 ^ n)) ≡ data_bits (suc n) x
clock_free zero x c = omega arith
clock_free (suc n) x c =
    let w : c * (2 * 4 ^ suc n) ≡ c * (2 * 4 ^ n) * 4 =
      omega (arith, ap (λ (t : ℕ). c * t) (pow-suc 4 n)) in
    ap₂ (λ (d r : ℕ). d + 2 * data_bits (suc n) r) (ap (λ (t : ℕ). (x + t) % 2) w ∙ omega arith)
      (ap (λ (t : ℕ). (x + t) / 4) w ∙ omega arith)
    ∙ ap (λ (r : ℕ). x % 2 + 2 * r) (clock_free n (x / 4) c)

shifted_data : (x : ℕ) → x < 65536 → data_bits 8 (u16 (x * 2) / 2) ≡ data_bits 8 x
shifted_data x h =
    ap (data_bits 8) (omega arith)
    ∙ sym (clock_free 7 (x % 32768) (x / 32768))
    ∙ ap (data_bits 8) (omega arith)

data_bits-lt : (x : ℕ) → data_bits 8 x < 256
data_bits-lt x = omega arith

top_byte : (d g : ℕ) → d < 256 → g < 2 ^ 32 → u8 (rev32 (d * 2 ^ 24 + g / 2 ^ 8)) ≡ d
unfolding rev32
top_byte d g h k = omega arith

-- The assembly yields the data bits of the word, whatever stood in its register.
pub mfmtobin_from-word_data :
    (garbage x : ℕ) → garbage < 2 ^ 32 → x < 65536 → mfmtobin_from garbage x ≡ word_data x
unfolding mfmtobin_from word_data
mfmtobin_from-word_data garbage x g h =
    rw (shift_pairs_lem 8 (2 ^ 24) garbage (u16 (x * 2)) refl, shifted_data x h)
      (top_byte (data_bits 8 x) garbage (data_bits-lt x) g)

pub mfmtobin-word_data : (x : ℕ) → x < 65536 → mfmtobin x ≡ word_data x
unfolding mfmtobin
mfmtobin-word_data x h = mfmtobin_from-word_data 0 x (omega arith) h

pub word_data-lt : (w : ℕ) → word_data w < 256
unfolding word_data
word_data-lt w = omega arith

zero_checked : all_below 256 (λ x. bintomfm x == mfm_word 0 x) ≡ true
unfolding all_below mfm_word bintomfm
zero_checked = refl

one_checked : all_below 256 (λ x. bintomfm x % 32768 == mfm_word 1 x) ≡ true
unfolding all_below mfm_word bintomfm
one_checked = refl

range_checked : all_below 256 (λ x. bintomfm x / 65536 == 0) ≡ true
unfolding all_below bintomfm
range_checked = refl

data_checked : all_below 256 (λ x. word_data (mfm_word 0 x) == x) ≡ true
unfolding all_below mfm_word word_data
data_checked = refl

data_one_checked : all_below 256 (λ x. word_data (mfm_word 1 x) == x) ≡ true
unfolding all_below mfm_word word_data
data_one_checked = refl

pub bintomfm-mfm_word : (x : ℕ) → x < 256 → bintomfm x ≡ mfm_word 0 x
bintomfm-mfm_word x h = (==_iff _ _).0 (all_below-lt 256 _ x zero_checked h)

bintomfm-mfm_word_one : (x : ℕ) → x < 256 → bintomfm x % 32768 ≡ mfm_word 1 x
bintomfm-mfm_word_one x h = (==_iff _ _).0 (all_below-lt 256 _ x one_checked h)

pub bintomfm-lt : (x : ℕ) → x < 256 → bintomfm x < 65536
bintomfm-lt x h =
    let high : bintomfm x / 65536 ≡ 0 = (==_iff _ _).0 (all_below-lt 256 _ x range_checked h) in
    omega arith

pub word_data-mfm_word : (prev x : ℕ) → prev < 2 → x < 256 → word_data (mfm_word prev x) ≡ x
word_data-mfm_word zero x h k = (==_iff _ _).0 (all_below-lt 256 _ x data_checked k)
word_data-mfm_word (suc zero) x h k = (==_iff _ _).0 (all_below-lt 256 _ x data_one_checked k)
word_data-mfm_word (suc (suc prev)) x h k = absurd (omega arith)

-- The mask keeps bit 15 unless the lowest bit of `y` is set.
clear_clock_lem :
    (w y : ℕ) → w < 65536 → y < 65536 → clear_clock w y ≡ (if y % 2 == 1 then w % 32768 else w)
unfolding clear_clock
clear_clock_lem w y h k = ground (
  arith,
  bit_and_low 16 w (2 ^ 32 - 1 - y * 2 ^ 15 % 2 ^ 32),
  bit_and_mask 15 w,
  bit_and_mask 16 w,
)

-- Table and mask together give the MFM rule behind any byte or word.
pub clear_clock-mfm_word :
    (x y : ℕ) → x < 256 → y < 65536 → clear_clock (bintomfm x) y ≡ mfm_word (y % 2) x
clear_clock-mfm_word x y h k = ground (
  arith,
  clear_clock_lem (bintomfm x) y (bintomfm-lt x h) k,
  bintomfm-mfm_word x h,
  bintomfm-mfm_word_one x h,
)

pub mfm_word-lt : (prev x : ℕ) → prev < 2 → x < 256 → mfm_word prev x < 65536
mfm_word-lt zero x h k = omega (arith, bintomfm-mfm_word x k, bintomfm-lt x k)
mfm_word-lt (suc zero) x h k = omega (arith, bintomfm-mfm_word_one x k)
mfm_word-lt (suc (suc prev)) x h k = absurd (omega arith)

parity_zero : all_below 256 (λ x. mfm_word 0 x % 2 == x % 2) ≡ true
unfolding all_below mfm_word
parity_zero = refl

parity_one : all_below 256 (λ x. mfm_word 1 x % 2 == x % 2) ≡ true
unfolding all_below mfm_word
parity_one = refl

middle_zero : all_below 256 (λ x. mfm_word 0 x / 256 % 2 == x / 16 % 2) ≡ true
unfolding all_below mfm_word
middle_zero = refl

middle_one : all_below 256 (λ x. mfm_word 1 x / 256 % 2 == x / 16 % 2) ≡ true
unfolding all_below mfm_word
middle_one = refl

-- Only behind a leading zero bit does the first clock depend on the byte before.
clock_checked :
    all_below 256 (λ x. mfm_word 1 x + (if leb 128 x then 0 else 32768) == mfm_word 0 x) ≡ true
unfolding all_below mfm_word
clock_checked = refl

-- The lowest bitcell of a word is the byte's lowest bit.
pub mfm_word_parity : (prev x : ℕ) → prev < 2 → x < 256 → mfm_word prev x % 2 ≡ x % 2
mfm_word_parity zero x h k = eq_below 256 (λ x. mfm_word 0 x % 2) (λ x. x % 2) x parity_zero k
mfm_word_parity (suc zero) x h k = eq_below 256 (λ x. mfm_word 1 x % 2) (λ x. x % 2) x parity_one k
mfm_word_parity (suc (suc prev)) x h k = absurd (omega arith)

-- The lowest bitcell of its high half is the byte's bit 4.
pub mfm_word_middle : (prev x : ℕ) → prev < 2 → x < 256 → mfm_word prev x / 256 % 2 ≡ x / 16 % 2
mfm_word_middle zero x h k =
    eq_below 256 (λ x. mfm_word 0 x / 256 % 2) (λ x. x / 16 % 2) x middle_zero k
mfm_word_middle (suc zero) x h k =
    eq_below 256 (λ x. mfm_word 1 x / 256 % 2) (λ x. x / 16 % 2) x middle_one k
mfm_word_middle (suc (suc prev)) x h k = absurd (omega arith)

pub mfm_word_clock :
    (x : ℕ) → x < 256 → mfm_word 1 x + (if leb 128 x then 0 else 32768) ≡ mfm_word 0 x
mfm_word_clock x k =
    eq_below 256 (λ x. mfm_word 1 x + (if leb 128 x then 0 else 32768)) (mfm_word 0) x clock_checked
      k
