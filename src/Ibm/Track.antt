-- ===== src/Ibm/Track.antt =====
-- `ibm_mfm_write_track` of src/ibm.c: formatting a track. `idams` is the array with its `nr` entries.
pub mod Segments
pub mod Image
pub mod Cells
use flashfloppy_testbed.Prelude.{ℕ, zero, suc, ◌+◌, ◌-◌, ◌*◌, ◌/◌, ◌%◌, ◌^◌, List, [], ◌∷◌, ◌++◌}
use flashfloppy_testbed.Mem.{Mem, u32, words, store, store8}
use flashfloppy_testbed.Util.Memory.{memset}
use flashfloppy_testbed.Mfm.{bin_to_mfm, mfm_check}
use flashfloppy_testbed.Ibm.{
  Idam, idam_bytes, Warning, bad_words, mfm_gap_sync, mfm_gap2, mfm_idam_mark,
}
use flashfloppy_testbed.Ibm.{sector_bytes}
use flashfloppy_testbed.Ibm.Write.{put_crc, fix_sync, padding}

-- The first loop: `track_bytes`, from what it is before the entries that are left.
unfoldable pub track_count : ℕ → ℕ → List Idam → ℕ
track_count count gap3 [] = count
track_count count gap3 (i ∷ is) =
    let idam_bytes = mfm_gap_sync + 8 + 2 + mfm_gap2 in
    let dam_bytes = u32 (mfm_gap_sync + 4 + 2 + gap3) in
    track_count (u32 (u32 (u32 (count + idam_bytes) + dam_bytes) + sector_bytes i.n)) gap3 is

-- `track_bytes` before it is made even.
unfoldable pub track_length : ℕ → List Idam → ℕ
track_length gap3 idams = u32 (track_count 64 gap3 idams + 64)

-- "Pre-sync gap" to "CRC" of the header, at `q`, and GAP2.
unfoldable pub put_header : Mem → ℕ → Idam → Mem
put_header m q i =
    let gap = memset m q 0x00 mfm_gap_sync in
    let s = q + mfm_gap_sync in
    let mark = store gap s mfm_idam_mark in
    let id = store mark (s + 4) (idam_bytes i) in
    let crc = put_crc id s 8 in memset crc (s + 8 + 2) 0x4e mfm_gap2

-- "Pre-sync gap" to "Post-data gap" of the data, at `q`.
unfoldable pub put_filler : Mem → ℕ → ℕ → ℕ → Mem
put_filler m q size gap3 =
    let gap = memset m q 0x00 mfm_gap_sync in
    let s = q + mfm_gap_sync in
    let sync = store gap s (0xa1 ∷ 0xa1 ∷ 0xa1 ∷ []) in
    let dam = store8 sync (s + 3) 0xfb in
    let filled = memset dam (s + 4) 0xe2 size in
    let crc = put_crc filled s (4 + size) in memset crc (s + (4 + size) + 2) 0x4e gap3

-- How far `q` moves in one round of the second loop.
abbrev pub sector_span : ℕ → ℕ → ℕ
sector_span size gap3 = mfm_gap_sync + 8 + 2 + mfm_gap2 + (mfm_gap_sync + (4 + size) + 2 + gap3)

-- The second loop, and behind it the "Pre-index gap".
unfoldable pub put_sectors : Mem → ℕ → ℕ → List Idam → Mem
put_sectors m q gap3 [] = memset m q 0x4e 64
put_sectors m q gap3 (i ∷ is) =
    let header = put_header m q i in
    let sector = put_filler header (q + 44) (sector_bytes i.n) gap3 in
    put_sectors sector (q + sector_span (sector_bytes i.n) gap3) gap3 is

-- `sync_off`, where `off` is `q-p` before the rounds that are left.
unfoldable pub sync_off : ℕ → ℕ → List Idam → List ℕ
sync_off off gap3 [] = []
sync_off off gap3 (i ∷ is) =
    (off + mfm_gap_sync)
    ∷ (off + 44 + mfm_gap_sync)
    ∷ sync_off (off + sector_span (sector_bytes i.n) gap3) gap3 is

-- The third loop.
unfoldable pub fix_syncs : Mem → ℕ → List ℕ → Mem
fix_syncs m p [] = m
fix_syncs m p (off ∷ offs) = fix_syncs (fix_sync m (p + 2 * off)) p offs

-- What is handed to `floppy_write`, and the warnings on the way.
pub record TrackWrite : Type 0 where
  pub cells : List ℕ
  pub warnings : List Warning
  pub terminate_at_index : ℕ

-- `ibm_mfm_write_track`, with its buffer at `p`.
unfoldable pub ibm_mfm_write_track : Mem → ℕ → List Idam → ℕ → TrackWrite
ibm_mfm_write_track m p idams gap3 =
    let track_bytes = track_length gap3 idams + padding (track_length gap3 idams) in
    let image = put_sectors (memset m p 0x4e 64) (p + 64) gap3 idams in
    let cells = bin_to_mfm image p track_bytes in
    record {
      cells = words (fix_syncs cells p (sync_off 64 gap3 idams)) p track_bytes;
      warnings = bad_words (mfm_check cells (p + 2) (track_bytes - 1));
      terminate_at_index = 1;
    }
