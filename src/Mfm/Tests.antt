-- ===== src/Mfm/Tests.antt =====
-- Concrete runs, and the theorems at concrete inputs.
use flashfloppy_testbed.Prelude.{◌+◌, ◌/◌, ◌%◌, ◌≡◌, refl, arith, [], ◌∷◌}
use flashfloppy_testbed.Prelude.{◌==◌, ◌||◌, leb, if◌then◌else◌}
use flashfloppy_testbed.Mem.{Mem, IsMem, bytes, words, u8, load16}
use flashfloppy_testbed.Mfm.{
  mfmtobin, mfmtobin_from, bintomfm, clear_clock, mfm_to_bin, bin_to_mfm, mfm_check,
}
use flashfloppy_testbed.Mfm.Encode.{IsEncoded, bin_to_mfm-IsEncoded, mfm_to_bin-bin_to_mfm}
use flashfloppy_testbed.Mfm.Check.{mfm_check-bin_to_mfm}

-- every address holds its low byte
abbrev counting : Mem
counting a = u8 a

counting-IsMem : IsMem counting
counting-IsMem a = omega arith

-- the sync byte in MFM, without the missing clock
sync_byte : mfmtobin 0x44a9 ≡ 0xa1
unfolding mfmtobin
sync_byte = refl

encoded_words : words (bin_to_mfm counting 0xa1 3) 0xa1 3 ≡ 0x44a9 ∷ 0x44a4 ∷ 0x44a5 ∷ []
unfolding bin_to_mfm flashfloppy_testbed.Mfm.bin_to_mfm_loop flashfloppy_testbed.Mem.store16
    flashfloppy_testbed.Mem.rev16 clear_clock bintomfm
encoded_words = refl

-- a right encoding of which the check warns
false_warning : mfm_check (bin_to_mfm counting 0x10 3) 0x12 2 ≡ 0 ∷ []
unfolding mfm_check bin_to_mfm flashfloppy_testbed.Mfm.mfm_check_loop flashfloppy_testbed.Mem.rev16
    load16 flashfloppy_testbed.Mfm.bin_to_mfm_loop flashfloppy_testbed.Mem.store16 clear_clock
    bintomfm mfmtobin
false_warning = refl

bin_to_mfm-IsEncoded_example : IsEncoded counting (bin_to_mfm counting 0xa1 3) 0xa1 3
bin_to_mfm-IsEncoded_example = bin_to_mfm-IsEncoded counting 0xa1 3 counting-IsMem (omega arith)

mfm_to_bin-bin_to_mfm_example :
    mfm_to_bin (bin_to_mfm counting 0xa1 3) 0xa1 3 (0xa1 + 2) ≡ counting (0xa1 + 2)
mfm_to_bin-bin_to_mfm_example =
    mfm_to_bin-bin_to_mfm counting 0xa1 3 2 counting-IsMem (omega arith) (omega arith)

mfm_check-bin_to_mfm_example : mfm_check (bin_to_mfm counting 0x10 3) (0x10 + 2) 2 ≡ (
    if counting 0x10 / 16 % 2 == counting 0x10 % 2 || leb 128 (counting (0x10 + 1))
    then []
    else 0 ∷ [])
mfm_check-bin_to_mfm_example = mfm_check-bin_to_mfm counting 0x10 1 counting-IsMem (omega arith)
