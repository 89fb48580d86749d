-- ===== src/Fm/Table.antt =====
-- The table's data bits, and the table with all clocks set.
use flashfloppy_testbed.Prelude.{ℕ, ◌<◌, ◌≡◌, refl, arith, true, ◌==◌}
use flashfloppy_testbed.Prelude.{bit_and, bit_or, all_below, eq_below}
use flashfloppy_testbed.Mfm.{bintomfm}
use flashfloppy_testbed.Mfm.Spec.{word_data}
use flashfloppy_testbed.Fm.Spec.{spread, fm_word}

data_checked : all_below 256 (λ x. bit_and (bintomfm x) 0x5555 == spread 8 x) ≡ true
unfolding all_below bintomfm
data_checked = refl

clock_checked : all_below 256 (λ x. bit_or (bintomfm x) 0xaaaa == fm_word x) ≡ true
unfolding all_below bintomfm fm_word
clock_checked = refl

decode_checked : all_below 256 (λ x. word_data (fm_word x) == x) ≡ true
unfolding all_below word_data fm_word
decode_checked = refl

pub bintomfm-spread : (x : ℕ) → x < 256 → bit_and (bintomfm x) 0x5555 ≡ spread 8 x
bintomfm-spread x h = eq_below 256 (λ y. bit_and (bintomfm y) 0x5555) (spread 8) x data_checked h

pub bintomfm-fm_word : (x : ℕ) → x < 256 → bit_or (bintomfm x) 0xaaaa ≡ fm_word x
bintomfm-fm_word x h = eq_below 256 (λ y. bit_or (bintomfm y) 0xaaaa) fm_word x clock_checked h

pub word_data-fm_word : (x : ℕ) → x < 256 → word_data (fm_word x) ≡ x
word_data-fm_word x h = eq_below 256 (λ y. word_data (fm_word y)) (λ y. y) x decode_checked h

pub fm_word-lt : (x : ℕ) → fm_word x < 65536
unfolding fm_word
fm_word-lt x = omega arith
