-- ===== src/Ibm/Scan.antt =====
-- `ibm_mfm_scan` of src/ibm.c: the headers of a track and the gap between its sectors.
pub mod Gap
use flashfloppy_testbed.Prelude.{
  ℕ, zero, suc, ◌+◌, ◌-◌, ◌*◌, ◌/◌, ◌%◌, ◌^◌, List, [], ◌∷◌, ◌++◌, length,
}
use flashfloppy_testbed.Prelude.{
  Bool, not, ◌||◌, ◌&&◌, ◌==◌, ltb, leb, if◌then◌else◌, Option, none, some,
}
use flashfloppy_testbed.Prelude.Int.{ℤ, pos, negsuc, sub_ℕ, is_zero, is_neg}
use flashfloppy_testbed.Mem.{Mem, u32, put_words}
use flashfloppy_testbed.Util.Compare.{memcmp, rom}
use flashfloppy_testbed.Crc.{crc16_ccitt}
use flashfloppy_testbed.Mfm.{mfm_to_bin}
use flashfloppy_testbed.Ibm.{
  Idam, Capture, Warning, bad_gap3, warn_on, mfm_idam_mark, mfm_gap_sync, mfm_gap2, sector_bytes,
}
use flashfloppy_testbed.Ibm.Write.{time_sysclk}

-- `struct ibm_scan_info`
pub record ScanInfo : Type 0 where
  pub idam : Idam
  pub ticks_past_index : ℕ

abbrev pub idam_at : Mem → ℕ → Idam
idam_at m p = record { c = m p; h = m (p + 1); r = m (p + 2); n = m (p + 3) }

-- The loop: `info` with the entries so far, last first, and `i`. `none` waits for flux.
unfoldable pub mfm_scan_loop :
    Mem → ℕ → ℕ → ℕ → List ScanInfo → ℕ → List Capture → Option (List ScanInfo × ℕ)
mfm_scan_loop m p max index_timestamp info i [] = none
mfm_scan_loop m p max index_timestamp info i (c ∷ rest) =
    let decoded = mfm_to_bin (put_words m p c.cells) p 10 in
    let entry : ScanInfo = record {
      idam = idam_at decoded (p + 4);
      ticks_past_index = u32 (c.start + 2 ^ 32 - index_timestamp);
    } in
    let skipped = mfm_scan_loop decoded p max index_timestamp info i rest in
    let stored = mfm_scan_loop decoded p max index_timestamp (entry ∷ info) (i + 1) rest in
    let counted = mfm_scan_loop decoded p max index_timestamp info (i + 1) rest in
    if not (c.count_after == 1)
    then some (info, i)
    else if not (is_zero (memcmp decoded p (rom mfm_idam_mark) 0 4))
        || not (crc16_ccitt decoded p 10 0xffff == 0)
    then skipped
    else if ltb i max
    then stored
    else counted

-- `round_div`
abbrev pub round_div : ℕ → ℕ → ℕ
round_div x y = (x + y / 2) / y

-- `gap3`, from the first two entries
unfoldable pub gap3_between : ℕ → ScanInfo → ScanInfo → ℤ
gap3_between ticks_per_cell first second =
    let sec_bytes =
      round_div (u32 (second.ticks_past_index + 2 ^ 32 - first.ticks_past_index))
        (time_sysclk (16 * ticks_per_cell)) in
    sub_ℕ sec_bytes
      (mfm_gap_sync + 8 + 2 + mfm_gap2 + (mfm_gap_sync + 4 + sector_bytes first.idam.n + 2))

-- `*p_gap3`, with its warning, for a caller that asks for it
unfoldable pub scan_gap3 : ℕ → ℕ → List ScanInfo → ℕ × List Warning
unfolding gap3_between
scan_gap3 ticks_per_cell max (first ∷ second ∷ rest) =
    let gap3 = gap3_between ticks_per_cell first second in
    if leb 2 max
    then (
      elim gap3 [ pos g ↦ u32 g | negsuc g ↦ u32 (2 ^ 32 - g - 1) ],
      warn_on (is_neg gap3) bad_gap3,
    )
    else (84, [])
scan_gap3 ticks_per_cell max (first ∷ []) = (84, [])
scan_gap3 ticks_per_cell max [] = (84, [])
