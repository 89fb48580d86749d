-- ===== src/Ibm/Fm.antt =====
-- The FM half of src/ibm.c: sectors whose marks are single words with clocks of their own. Flux is a
-- list of captures, as in the parent.
pub mod Image
pub mod Data
mod Tests
use flashfloppy_testbed.Prelude.{
  ℕ, zero, suc, ◌+◌, ◌-◌, ◌*◌, ◌/◌, ◌%◌, ◌^◌, List, [], ◌∷◌, ◌++◌, Bool,
}
use flashfloppy_testbed.Prelude.{Option, none, some, ◌==◌, ltb, leb, not, ◌||◌, if◌then◌else◌}
use flashfloppy_testbed.Prelude.Int.{ℤ, pos, negsuc, sub_ℕ, is_zero, is_neg}
use flashfloppy_testbed.Mem.{Mem, u32, bytes, words, store, store8, store16, rev16, put_words}
use flashfloppy_testbed.Util.Memory.{memset}
use flashfloppy_testbed.Util.Compare.{memcmp, rom}
use flashfloppy_testbed.Crc.{crc16_ccitt}
use flashfloppy_testbed.Mfm.{mfm_to_bin}
use flashfloppy_testbed.Fm.{fm_sync, bin_to_fm, fm_to_bin, fm_check}
use flashfloppy_testbed.Ibm.{Idam, Capture, Warning, Found, SectorRead, idam_bytes, sector_bytes}
use flashfloppy_testbed.Ibm.{late_index, bad_dam, bad_crc, bad_gap3, bad_words, warn_on}
use flashfloppy_testbed.Ibm.Write.{SectorWrite, put_crc, padding, ticks_to_wait, time_sysclk}
use flashfloppy_testbed.Ibm.Scan.{ScanInfo, idam_at, round_div}

abbrev pub fm_gap_sync : ℕ
fm_gap_sync = 6

abbrev pub fm_gap2 : ℕ
fm_gap2 = 11

-- `FM_SYNC_CLK`
abbrev pub fm_sync_clk : ℕ
fm_sync_clk = 0xc7

-- The loop of `ibm_fm_scan`: `info` with the entries so far, last first, and `i`. `none` waits for
-- flux.
unfoldable pub fm_scan_loop :
    Mem → ℕ → ℕ → ℕ → List ScanInfo → ℕ → List Capture → Option (List ScanInfo × ℕ)
fm_scan_loop m p max index_timestamp info i [] = none
fm_scan_loop m p max index_timestamp info i (c ∷ rest) =
    let decoded = mfm_to_bin (put_words m p c.cells) p 8 in
    let entry : ScanInfo = record {
      idam = idam_at decoded (p + 2);
      ticks_past_index = u32 (c.start + 2 ^ 32 - index_timestamp);
    } in
    let skipped = fm_scan_loop decoded p max index_timestamp info i rest in
    let stored = fm_scan_loop decoded p max index_timestamp (entry ∷ info) (i + 1) rest in
    let counted = fm_scan_loop decoded p max index_timestamp info (i + 1) rest in
    if not (c.count_after == 1)
    then some (info, i)
    else if not (decoded (p + 1) == 0xfe) || not (crc16_ccitt decoded (p + 1) 7 0xffff == 0)
    then skipped
    else if ltb i max
    then stored
    else counted

-- `gap3`, from the first two entries
unfoldable pub fm_gap3_between : ℕ → ScanInfo → ScanInfo → ℤ
fm_gap3_between ticks_per_cell first second =
    let sec_bytes =
      round_div (u32 (second.ticks_past_index + 2 ^ 32 - first.ticks_past_index))
        (time_sysclk (16 * ticks_per_cell)) in
    sub_ℕ sec_bytes
      (fm_gap_sync + 5 + 2 + fm_gap2 + (fm_gap_sync + 1 + sector_bytes first.idam.n + 2))

-- `*p_gap3`, with its warning; `none` where the caller's variable is left as it was.
unfoldable pub fm_scan_gap3 : ℕ → ℕ → List ScanInfo → Option ℕ × List Warning
fm_scan_gap3 ticks_per_cell max (first ∷ second ∷ rest) =
    let gap3 = fm_gap3_between ticks_per_cell first second in
    if leb 2 max
    then (
      some (elim gap3 [ pos g ↦ u32 g | negsuc g ↦ u32 (2 ^ 32 - g - 1) ]),
      warn_on (is_neg gap3) bad_gap3,
    )
    else (none, [])
fm_scan_gap3 ticks_per_cell max (first ∷ []) = (none, [])
fm_scan_gap3 ticks_per_cell max [] = (none, [])

-- `(p[1] != 0xfe) || memcmp(p+2, idam, 4) || crc16_ccitt(p+1, 7, 0xffff)`
unfoldable pub fm_mismatch : Mem → ℕ → Idam → Bool
fm_mismatch m p idam =
    not (m (p + 1) == 0xfe)
    || not (is_zero (memcmp m (p + 2) (rom (idam_bytes idam)) 0 4))
    || not (crc16_ccitt m (p + 1) 7 0xffff == 0)

-- The `do` loop of `ibm_fm_search`. `none` is a search that still waits for flux.
unfoldable pub ibm_fm_search : Mem → ℕ → Idam → List Warning → List Capture → Option Found
ibm_fm_search m p idam warnings [] = none
ibm_fm_search m p idam warnings (c ∷ rest) =
    let warned = warnings ++ warn_on (leb 2 c.count_before) late_index in
    let decoded = fm_to_bin (put_words m p c.cells) p 8 in
    let again = ibm_fm_search decoded p idam warned rest in
    if fm_mismatch decoded p idam
    then again
    else some (record { mem = decoded; warnings = warned; hit = c; rest = rest })

-- The part of `ibm_fm_read_sector` behind the search.
unfoldable pub fm_sector_data : Mem → ℕ → ℕ → List ℕ × List Warning
fm_sector_data m p size =
    let dam_bytes = 2 + size + 2 in
    let decoded = fm_to_bin m p dam_bytes in
    (
      bytes decoded (p + 2) size,
      bad_words (fm_check m (p + 4) (dam_bytes - 2))
          ++ (warn_on (not (decoded (p + 1) == 0xfb)) bad_dam
              ++ warn_on (not (crc16_ccitt decoded (p + 1) (dam_bytes - 1) 0xffff == 0)) bad_crc),
    )

-- `ibm_fm_read_sector`, with its own buffer at `p` and that of the search at `q`.
unfoldable pub ibm_fm_read_sector : Mem → ℕ → ℕ → Idam → List Capture → Option SectorRead
ibm_fm_read_sector m p q idam captures = elim (ibm_fm_search m q idam [] captures) [
  | none ↦ none
  | some found ↦ elim found.rest [
    | [] ↦ none
    | c ∷ rest ↦
        let (buf, warnings) =
          fm_sector_data (put_words found.mem p c.cells) p (sector_bytes idam.n) in
        some (record { buf = buf; warnings = found.warnings ++ warnings; rest = rest })
  ]
]

-- The sector's bytes at `p`: gap, mark, the `size` bytes at `b` in `src`, CRC and gap.
unfoldable pub fm_sector_image : Mem → ℕ → Mem → ℕ → ℕ → ℕ → Mem
fm_sector_image m p src b size gap3 =
    let gap = memset m p 0x00 fm_gap_sync in
    let dam = store8 gap (p + fm_gap_sync) 0xfb in
    let filled = store dam (p + fm_gap_sync + 1) (bytes src b size) in
    let checked = put_crc filled (p + fm_gap_sync) (1 + size) in
    memset checked (p + fm_gap_sync + (1 + size) + 2) 0xff gap3

-- `ibm_fm_write_sector`, with its buffer at `p` and that of the search at `q`; `now` is what
-- `time_now` returns when the header has been found.
unfoldable pub ibm_fm_write_sector :
    Mem → ℕ → ℕ → Mem → ℕ → Idam → ℕ → ℕ → ℕ → List Capture → Option SectorWrite
ibm_fm_write_sector m p q src b idam gap3 ticks_per_cell now captures =
    let size = sector_bytes idam.n in
    let len = u32 (fm_gap_sync + 1 + size + 2 + gap3) in
    let pad = padding len in
    let dam_bytes = len + pad in
    let image = fm_sector_image m p src b size (gap3 + pad) in
    let cells = bin_to_fm image p dam_bytes in
    let warnings = bad_words (fm_check cells p dam_bytes) in
    let fixed = store16 cells (p + 2 * fm_gap_sync) (rev16 (fm_sync 0xfb fm_sync_clk)) in
    elim (ibm_fm_search fixed q idam [] captures) [
      | none ↦ none
      | some found ↦
          let deadline = u32 (found.hit.end + time_sysclk (fm_gap2 * 16 * ticks_per_cell)) in
          some (record {
            cells = words found.mem p dam_bytes;
            warnings = warnings ++ found.warnings;
            delay = ticks_to_wait now deadline;
            rest = found.rest;
          })
    ]
