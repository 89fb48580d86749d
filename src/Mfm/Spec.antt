-- ===== src/Mfm/Spec.antt =====
-- MFM by its rule: each data bit follows a clock bit, which is set exactly between two zero data
-- bits.
use flashfloppy_testbed.Prelude.{ℕ, zero, suc, ◌+◌, ◌-◌, ◌*◌, ◌/◌, ◌%◌, ◌^◌}

abbrev pub clock_bit : ℕ → ℕ → ℕ
clock_bit prev d = (1 - prev) * (1 - d)

-- The `n` low bits of `x`, most significant first, behind the data bit `prev`.
abbrev pub encode_bits : ℕ → ℕ → ℕ → ℕ
encode_bits zero prev x = 0
encode_bits (suc n) prev x =
    let d = x / 2 ^ n % 2 in
    clock_bit prev d * 2 ^ (n + n + 1) + d * 2 ^ (n + n) + encode_bits n d x

-- The sixteen bitcells of a byte behind the data bit `prev`.
unfoldable pub mfm_word : ℕ → ℕ → ℕ
mfm_word prev x = encode_bits 8 prev x

-- The data bits of a word: every second one, the lowest first.
abbrev pub data_bits : ℕ → ℕ → ℕ
data_bits zero w = 0
data_bits (suc n) w = w % 2 + 2 * data_bits n (w / 4)

unfoldable pub word_data : ℕ → ℕ
word_data w = data_bits 8 w
