-- ===== src/Fm/Tests.antt =====
-- Concrete runs, and the theorems at concrete inputs.
use flashfloppy_testbed.Prelude.{◌≡◌, refl, arith, [], ◌∷◌}
use flashfloppy_testbed.Mem.{Mem, IsMem, words, u8}
use flashfloppy_testbed.Fm.{fm_sync, bin_to_fm, fm_to_bin, fm_check}
use flashfloppy_testbed.Fm.Encode.{IsFmEncoded, bin_to_fm-IsFmEncoded}

-- every address holds its low byte
abbrev counting : Mem
counting a = u8 a

counting-IsMem : IsMem counting
counting-IsMem a = omega arith

-- the data mark with clock 0xc7
data_mark : fm_sync 0xfb 0xc7 ≡ 0xf56f
unfolding fm_sync flashfloppy_testbed.Mfm.bintomfm
data_mark = refl

encoded_words : words (bin_to_fm counting 0xfb 2) 0xfb 2 ≡ 0xffef ∷ 0xfffa ∷ []
unfolding bin_to_fm flashfloppy_testbed.Fm.bin_to_fm_loop flashfloppy_testbed.Mem.store16
    flashfloppy_testbed.Mem.rev16 flashfloppy_testbed.Mfm.bintomfm
encoded_words = refl

bin_to_fm-IsFmEncoded_example : IsFmEncoded counting (bin_to_fm counting 0xfb 2) 0xfb 2
bin_to_fm-IsFmEncoded_example = bin_to_fm-IsFmEncoded counting 0xfb 2 counting-IsMem (omega arith)
