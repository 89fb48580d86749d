-- ===== src/Ibm/Tests.antt =====
-- Concrete runs, and the theorems at concrete inputs: sector 5 of cylinder 1, which another header
-- precedes on the track.
use flashfloppy_testbed.Prelude.{ℕ, ◌+◌, ◌<◌, ◌≡◌, ◌↔◌, refl, arith, List, [], ◌∷◌}
use flashfloppy_testbed.Prelude.{inl, All, map, true, false, some, take, drop}
use mathlib.Core.Bool.{true≢false}
use flashfloppy_testbed.Prelude.{sym, ◌∙◌}
use flashfloppy_testbed.Mem.{Mem, IsMem, u8, bytes, words, load16, store}
use flashfloppy_testbed.Mem.Bytes.{bytes-IsByte}
use flashfloppy_testbed.Mfm.Spec.{word_data}
use flashfloppy_testbed.Mfm.Words.{misclocked}
use flashfloppy_testbed.Ibm.{Idam, Capture, late_index, sector_bytes, ibm_mfm_search}
use flashfloppy_testbed.Ibm.{ibm_mfm_read_sector, mfm_sector_data}
use flashfloppy_testbed.Ibm.Layout.{behind_sync, block_cells, sector_layout, data_block}
use flashfloppy_testbed.Ibm.Read.Search.{
  IsCapture, IsIdam, SearchCaptures, is_header, first_match, IsSearch, Match,
  ibm_mfm_search-IsSearch,
}
use flashfloppy_testbed.Ibm.Read.Data.{mfm_sector_data_silent_iff}
use flashfloppy_testbed.Ibm.Read.Sector.{ibm_mfm_read_sector-block_cells}
use flashfloppy_testbed.Ibm.Write.{SectorWrite, mfm_sector_image, ibm_mfm_write_sector}
use flashfloppy_testbed.Ibm.Write.Image.{mfm_sector_image-store}
use flashfloppy_testbed.Ibm.Write.Sector.{sector_write, ibm_mfm_write_sector-sector_write}
use flashfloppy_testbed.Prelude.{length, ◌%◌, ◌*◌}
use flashfloppy_testbed.Ibm.Track.{ibm_mfm_write_track}
use flashfloppy_testbed.Ibm.Track.Cells.{track_layout, track_cells, ibm_mfm_write_track-track_cells}
use flashfloppy_testbed.Ibm.Scan.{ScanInfo}
use flashfloppy_testbed.Ibm.Roundtrip.{ibm_mfm_read_sector-ibm_mfm_write_sector}

-- every address holds its low byte
abbrev counting : Mem
counting a = u8 a

counting-IsMem : IsMem counting
counting-IsMem a = omega arith

-- sector 5 of cylinder 1, of 128 bytes
abbrev fifth : Idam
fifth = record { c = 1; h = 0; r = 5; n = 0 }

-- its header, and the same with another sector's number
abbrev fifth_cells : List ℕ
fifth_cells =
    0x4489 ∷ 0x4489 ∷ 0x4489 ∷ 0x5554 ∷ 0xaaa9 ∷ 0x2aaa ∷ 0xaa91 ∷ 0x2aaa ∷ 0x912a ∷ 0x9151 ∷ []

abbrev other_cells : List ℕ
other_cells =
    0x4489 ∷ 0x4489 ∷ 0x4489 ∷ 0x5554 ∷ 0xaaa9 ∷ 0x2aaa ∷ 0xaa92 ∷ 0xaaaa ∷ 0x912a ∷ 0x9151 ∷ []

fifth_header : fifth_cells ≡ block_cells (behind_sync 0xfe (1 ∷ 0 ∷ 5 ∷ 0 ∷ []))
unfolding flashfloppy_testbed.Mfm.Spec.mfm_word flashfloppy_testbed.Crc.Spec.divide_byte
    flashfloppy_testbed.Crc.Spec.shift_bit
fifth_header = refl

abbrev data_cells : List ℕ
data_cells = block_cells (behind_sync 0xfb (bytes counting 0 128))

abbrev other : Capture
other = record { cells = other_cells; start = 100; end = 200; count_before = 0; count_after = 1 }

abbrev fifth_capture : Capture
fifth_capture = record {
  cells = fifth_cells;
  start = 900;
  end = 1000;
  count_before = 2;
  count_after = 2;
}

abbrev data_capture : Capture
data_capture = record {
  cells = data_cells;
  start = 1100;
  end = 2000;
  count_before = 2;
  count_after = 2;
}

abbrev captures : List Capture
captures = other ∷ fifth_capture ∷ data_capture ∷ []

fifth-IsIdam : IsIdam fifth
fifth-IsIdam = (omega arith, (omega arith, (omega arith, (omega arith, tt))))

other-IsCapture : IsCapture 10 other
other-IsCapture = (
  refl,
  (
    omega arith,
    (
      omega arith,
      (
        omega arith,
        (
          omega arith,
          (
            omega arith,
            (omega arith, (omega arith, (omega arith, (omega arith, (omega arith, tt))))),
          ),
        ),
      ),
    ),
  ),
)

fifth-IsCapture : IsCapture 10 fifth_capture
fifth-IsCapture = (
  refl,
  (
    omega arith,
    (
      omega arith,
      (
        omega arith,
        (
          omega arith,
          (
            omega arith,
            (omega arith, (omega arith, (omega arith, (omega arith, (omega arith, tt))))),
          ),
        ),
      ),
    ),
  ),
)

fifth-is_header : is_header fifth fifth_cells ≡ true
unfolding word_data flashfloppy_testbed.Crc.Spec.divide_byte flashfloppy_testbed.Crc.Spec.shift_bit
fifth-is_header = refl

never : {P : Type 0} → is_header fifth fifth_cells ≡ false → P
never e = absurd (true≢false (sym fifth-is_header ∙ e))

captures-SearchCaptures : SearchCaptures fifth captures
captures-SearchCaptures = (other-IsCapture, λ miss. (fifth-IsCapture, λ e. never e))

abbrev found : Match
found = record { warnings = late_index ∷ []; hit = fifth_capture; rest = data_capture ∷ [] }

captures-first_match : first_match fifth [] captures ≡ some found
unfolding word_data flashfloppy_testbed.Crc.Spec.divide_byte flashfloppy_testbed.Crc.Spec.shift_bit
captures-first_match = refl

ibm_mfm_search-IsSearch_example :
    IsSearch counting 64 (first_match fifth [] captures) (ibm_mfm_search counting 64 fifth captures)
ibm_mfm_search-IsSearch_example =
    ibm_mfm_search-IsSearch counting 64 fifth captures counting-IsMem fifth-IsIdam
      captures-SearchCaptures

mfm_sector_data_silent_iff_example : ((mfm_sector_data counting 64 128).1 ≡ []) ↔ (
    (map word_data (words counting 64 134) ≡ data_block (mfm_sector_data counting 64 128).0)
    × (misclocked (load16 counting 68) 0 (words counting 70 131) ≡ []))
mfm_sector_data_silent_iff_example = mfm_sector_data_silent_iff counting 64 128 counting-IsMem

few : All (λ x. x < 256) (bytes counting 0 128)
few = bytes-IsByte counting 0 128 counting-IsMem

sector_size : sector_bytes 0 ≡ 128
unfolding sector_bytes
sector_size = refl

ibm_mfm_read_sector-block_cells_example :
    ibm_mfm_read_sector counting 64 32 fifth captures
    ≡ some (record { buf = bytes counting 0 128; warnings = late_index ∷ []; rest = [] })
ibm_mfm_read_sector-block_cells_example =
    ibm_mfm_read_sector-block_cells 64 fifth (bytes counting 0 128) (late_index ∷ []) fifth_capture
      data_capture [] few sector_size refl counting 32 captures counting-IsMem fifth-IsIdam
      captures-SearchCaptures captures-first_match

mfm_sector_image-store_example :
    mfm_sector_image counting 64 counting 0 128 84
    ≡ store counting 64 (sector_layout (bytes counting 0 128) 84)
mfm_sector_image-store_example =
    mfm_sector_image-store counting 64 counting 0 128 84 counting-IsMem counting-IsMem (omega arith)

ibm_mfm_write_sector-sector_write_example :
    ibm_mfm_write_sector counting 64 32 counting 0 fifth 85 144 1200 captures
    ≡ some (sector_write (bytes counting 0 (sector_bytes 0)) 63 85 144 1200 found)
ibm_mfm_write_sector-sector_write_example =
    ibm_mfm_write_sector-sector_write counting 64 32 counting 0 fifth 85 144 1200 found
      counting-IsMem counting-IsMem (omega arith) (omega (arith, sector_size)) (inl (omega arith))
      captures fifth-IsIdam captures-SearchCaptures captures-first_match

-- the drive gives back what was written, from the first sync word on
abbrev written : SectorWrite
written = sector_write (bytes counting 0 (sector_bytes 0)) 63 85 144 1200 found

abbrev read_back : Capture
read_back = record {
  cells = take (4 + sector_bytes 0 + 2) (drop 12 written.cells);
  start = 1100;
  end = 2000;
  count_before = 1;
  count_after = 1;
}

abbrev second_reads : List Capture
second_reads = other ∷ fifth_capture ∷ read_back ∷ []

second_reads-SearchCaptures : SearchCaptures fifth second_reads
second_reads-SearchCaptures = (other-IsCapture, λ miss. (fifth-IsCapture, λ e. never e))

ibm_mfm_read_sector-ibm_mfm_write_sector_example :
    ibm_mfm_read_sector counting 640 32 fifth second_reads
    ≡ some
        (record { buf = bytes counting 0 (sector_bytes 0); warnings = late_index ∷ []; rest = [] })
unfolding word_data flashfloppy_testbed.Crc.Spec.divide_byte flashfloppy_testbed.Crc.Spec.shift_bit
ibm_mfm_read_sector-ibm_mfm_write_sector_example =
    ibm_mfm_read_sector-ibm_mfm_write_sector counting 64 32 counting 0 fifth 85 144 1200 found
      counting-IsMem counting-IsMem (omega arith) (omega (arith, sector_size)) (inl (omega arith))
      fifth-IsIdam captures captures-SearchCaptures captures-first_match written counting 640 32
      second_reads (late_index ∷ []) fifth_capture read_back []
      ibm_mfm_write_sector-sector_write_example counting-IsMem second_reads-SearchCaptures refl refl

-- a track of that one sector
one_track_length : length (track_layout 84 (fifth ∷ [])) ≡ 402
unfolding sector_bytes
one_track_length = refl

ibm_mfm_write_track-track_cells_example : ibm_mfm_write_track counting 64 (fifth ∷ []) 84 ≡ record {
  cells = track_cells 63 84 (fifth ∷ []) (
      bytes counting
        (64 + length (track_layout 84 (fifth ∷ [])))
        (length (track_layout 84 (fifth ∷ [])) % 2));
  warnings = [];
  terminate_at_index = 1;
}
ibm_mfm_write_track-track_cells_example =
    ibm_mfm_write_track-track_cells counting 64 (fifth ∷ []) 84 counting-IsMem (fifth-IsIdam, tt)
      (omega arith) (omega arith) (omega (arith, one_track_length))

-- two sectors of 128 bytes, 274 bytes apart at 16 ticks a cell
abbrev first_seen : ScanInfo
first_seen = record { idam = fifth; ticks_past_index = 1000 }

abbrev second_seen : ScanInfo
second_seen = record { idam = fifth; ticks_past_index = 1000 + 274 * 32 }
