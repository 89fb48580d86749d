-- ===== src/Fm/Sync.antt =====
-- `fm_sync` interleaves two bytes: data bits and an irregular clock pattern.
use flashfloppy_testbed.Prelude.{
  ℕ, zero, suc, ◌+◌, ◌*◌, ◌/◌, ◌%◌, ◌<◌, ◌≡◌, refl, arith, ap, ap₂, ◌∙◌,
}
use flashfloppy_testbed.Prelude.{bit_or}
use flashfloppy_testbed.Bits.Step.{bit_or_step}
use flashfloppy_testbed.Bits.And.{zero-bit_or}
use flashfloppy_testbed.Mfm.Spec.{word_data, data_bits}
use flashfloppy_testbed.Fm.{fm_sync}
use flashfloppy_testbed.Fm.Spec.{spread}
use flashfloppy_testbed.Fm.Table.{bintomfm-spread}

-- Clock bits and data bits do not meet.
interleave : (n c d : ℕ) → bit_or (spread n c * 2) (spread n d) ≡ spread n c * 2 + spread n d
interleave zero c d = zero-bit_or 0
interleave (suc n) c d =
    let a = (c % 2 + 4 * spread n (c / 2)) * 2 in
    let b = d % 2 + 4 * spread n (d / 2) in
    omega (
      arith,
      bit_or_step a b,
      bit_or_step (a / 2) (b / 2),
      ap₂ bit_or (quarter_clock (c % 2) (spread n (c / 2)) (omega arith))
          (quarter_data (d % 2) (spread n (d / 2)) (omega arith)),
      interleave n (c / 2) (d / 2),
    )
  where
    quarter_clock : (c0 s : ℕ) → c0 < 2 → (c0 + 4 * s) * 2 / 2 / 2 ≡ s * 2
    quarter_clock c0 s h = omega arith

    quarter_data : (d0 s : ℕ) → d0 < 2 → (d0 + 4 * s) / 2 / 2 ≡ s
    quarter_data d0 s h = omega arith

spread-lt : (x : ℕ) → spread 8 x < 32768
spread-lt x = omega arith

fm_sync-spread :
    (dat clk : ℕ) → dat < 256 → clk < 256 → fm_sync dat clk ≡ spread 8 clk * 2 + spread 8 dat
unfolding fm_sync
fm_sync-spread dat clk h k =
    rw (bintomfm-spread dat h, bintomfm-spread clk k)
      (ap (λ (t : ℕ). bit_or t (spread 8 dat)) (omega (arith, spread-lt clk))
        ∙ interleave 8 clk dat)

low_bits : ℕ → ℕ → ℕ
low_bits zero x = 0
low_bits (suc n) x = x % 2 + 2 * low_bits n (x / 2)

data_bits-spread : (n c d : ℕ) → data_bits n (spread n c * 2 + spread n d) ≡ low_bits n d
unfolding low_bits
data_bits-spread zero c d = refl
data_bits-spread (suc n) c d =
    ap₂ (λ (u v : ℕ). u + 2 * data_bits n v) (omega arith) (omega arith)
    ∙ ap (λ (t : ℕ). d % 2 + 2 * t) (data_bits-spread n (c / 2) (d / 2))

clock_bits-spread : (n k c d : ℕ) → data_bits n (spread n c + 2 * spread k d) ≡ low_bits n c
unfolding low_bits
clock_bits-spread zero k c d = refl
clock_bits-spread (suc n) zero c d =
    ap₂ (λ (u v : ℕ). u + 2 * data_bits n v) (omega arith) (omega arith)
    ∙ ap (λ (t : ℕ). c % 2 + 2 * t) (clock_bits-spread n 0 (c / 2) d)
clock_bits-spread (suc n) (suc k) c d =
    ap₂ (λ (u v : ℕ). u + 2 * data_bits n v) (omega arith) (omega arith)
    ∙ ap (λ (t : ℕ). c % 2 + 2 * t) (clock_bits-spread n k (c / 2) (d / 2))

shifted : (d c : ℕ) → (spread 8 c * 2 + spread 8 d) / 2 ≡ spread 8 c + 2 * spread 7 (d / 2)
shifted d c = halve (spread 8 c) (d % 2) (spread 7 (d / 2)) (omega arith)
  where
    halve : (s d0 t : ℕ) → d0 < 2 → (s * 2 + (d0 + 4 * t)) / 2 ≡ s + 2 * t
    halve s d0 t h = omega arith

low_bits_byte : (x : ℕ) → x < 256 → low_bits 8 x ≡ x
unfolding low_bits
low_bits_byte x h = omega arith

-- The data bits of a sync word are `dat`, and its clock bits, one place higher, are `clk`.
pub fm_sync_lem :
    (dat clk : ℕ)
    → dat < 256
    → clk < 256
    → (word_data (fm_sync dat clk) ≡ dat) × (word_data (fm_sync dat clk / 2) ≡ clk)
unfolding word_data
fm_sync_lem dat clk h k = (
  rw (fm_sync-spread dat clk h k) (data_bits-spread 8 clk dat ∙ low_bits_byte dat h),
  rw (fm_sync-spread dat clk h k) (
      ap (data_bits 8) (shifted dat clk)
      ∙ clock_bits-spread 8 7 clk (dat / 2)
      ∙ low_bits_byte clk k),
)
