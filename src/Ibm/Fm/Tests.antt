-- ===== src/Ibm/Fm/Tests.antt =====
-- The theorems at concrete inputs.
use flashfloppy_testbed.Prelude.{◌≡◌, ◌↔◌, arith, [], ◌∷◌, map}
use flashfloppy_testbed.Mem.{Mem, IsMem, u8, bytes, words, store}
use flashfloppy_testbed.Mfm.Spec.{word_data}
use flashfloppy_testbed.Fm.Check.{unclocked}
use flashfloppy_testbed.Ibm.Layout.{with_crc}
use flashfloppy_testbed.Ibm.Fm.{fm_sector_image, fm_sector_data}
use flashfloppy_testbed.Ibm.Fm.Image.{fm_layout, fm_sector_image-store}
use flashfloppy_testbed.Ibm.Fm.Data.{fm_sector_data_silent_iff}

-- every address holds its low byte
abbrev counting : Mem
counting a = u8 a

counting-IsMem : IsMem counting
counting-IsMem a = omega arith

fm_sector_image-store_example :
    fm_sector_image counting 64 counting 0 128 27
    ≡ store counting 64 (fm_layout (bytes counting 0 128) 27)
fm_sector_image-store_example =
    fm_sector_image-store counting 64 counting 0 128 27 counting-IsMem counting-IsMem (omega arith)

fm_sector_data_silent_iff_example : ((fm_sector_data counting 64 128).1 ≡ []) ↔ (
    (map word_data (words counting 66 131) ≡ with_crc (0xfb ∷ (fm_sector_data counting 64 128).0))
    × (unclocked 0 (words counting 68 130) ≡ []))
fm_sector_data_silent_iff_example = fm_sector_data_silent_iff counting 64 128 counting-IsMem
