-- ===== src/Ibm/Write.antt =====
-- `ibm_mfm_write_sector` of src/ibm.c. The caller's data lie in a memory of their own, `src`, since
-- the bitcell buffer is the function's.
pub mod Image
pub mod Cells
pub mod Sector
use flashfloppy_testbed.Prelude.{
  ℕ, zero, suc, ◌+◌, ◌-◌, ◌*◌, ◌/◌, ◌%◌, ◌^◌, List, [], ◌∷◌, ◌++◌, Bool,
}
use flashfloppy_testbed.Prelude.{Option, none, some, ◌==◌, if◌then◌else◌, bit_and}
use flashfloppy_testbed.Prelude.Int.{ℤ, pos, negsuc, signed32}
use flashfloppy_testbed.Mem.{Mem, u8, u32, bytes, words, store, store8, store16, rev16}
use flashfloppy_testbed.Util.Memory.{memset}
use flashfloppy_testbed.Crc.{crc16_ccitt}
use flashfloppy_testbed.Mfm.{bin_to_mfm, mfm_check}
use flashfloppy_testbed.Ibm.{Idam, Capture, Warning, Found, bad_words, mfm_gap_sync, mfm_gap2}
use flashfloppy_testbed.Ibm.{ibm_mfm_search, sector_bytes}

-- `crc = crc16_ccitt(s, q-s, 0xffff); *q++ = crc >> 8; *q++ = crc;` with `n` bytes from `s` to `q`
unfoldable pub put_crc : Mem → ℕ → ℕ → Mem
put_crc m s n =
    let crc = crc16_ccitt m s n 0xffff in store8 (store8 m (s + n) (crc / 256)) (s + n + 1) crc

-- "Sync", "DAM", "Data" and "CRC" from `s` on, the data being `size` bytes at `b` in `src`.
unfoldable pub put_data_block : Mem → ℕ → Mem → ℕ → ℕ → Mem
unfolding put_crc
put_data_block m s src b size =
    let sync = store m s (0xa1 ∷ 0xa1 ∷ 0xa1 ∷ []) in
    let dam = store8 sync (s + 3) 0xfb in
    let filled = store dam (s + 4) (bytes src b size) in put_crc filled s (4 + size)

-- The sector's bytes at `p`: gap, data block and gap.
unfoldable pub mfm_sector_image : Mem → ℕ → Mem → ℕ → ℕ → ℕ → Mem
mfm_sector_image m p src b size gap3 =
    let gap = memset m p 0x00 mfm_gap_sync in
    let block = put_data_block gap (p + mfm_gap_sync) src b size in
    memset block (p + mfm_gap_sync + (4 + size) + 2) 0x4e gap3

-- `for (i = 0; i < 3; i++) *sync++ = htobe16(0x4489);`
unfoldable pub fix_sync : Mem → ℕ → Mem
fix_sync m s =
    store16 (store16 (store16 m s (rev16 0x4489)) (s + 2) (rev16 0x4489)) (s + 4) (rev16 0x4489)

-- `time_sysclk`
abbrev pub time_sysclk : ℕ → ℕ
time_sysclk x = x / 8

-- `delay_ticks(delta)` if `delta > 0`, where `delta = time_diff(now, deadline)`.
unfoldable pub ticks_to_wait : ℕ → ℕ → ℕ
ticks_to_wait now deadline = elim (signed32 (u32 (deadline + 2 ^ 32 - now))) [
  | pos d ↦ d
  | negsuc _ ↦ 0
]

-- What is handed to `floppy_write`: the words, and on the way there the warnings, the delay behind
-- the sector's header, and the captures to come.
pub record SectorWrite : Type 0 where
  pub cells : List ℕ
  pub warnings : List Warning
  pub delay : ℕ
  pub rest : List Capture

-- `dam_bytes`, before and after it is made even.
unfoldable pub dam_length : ℕ → ℕ → ℕ
dam_length size gap3 = u32 (mfm_gap_sync + 4 + size + 2 + gap3)

unfoldable pub padding : ℕ → ℕ
padding len = bit_and len 1

-- `ibm_mfm_write_sector`, with its buffer at `p` and that of the search at `q`; `now` is what
-- `time_now` returns when the header has been found.
unfoldable pub ibm_mfm_write_sector :
    Mem → ℕ → ℕ → Mem → ℕ → Idam → ℕ → ℕ → ℕ → List Capture → Option SectorWrite
ibm_mfm_write_sector m p q src b idam gap3 ticks_per_cell now captures =
    let size = sector_bytes idam.n in
    let pad = padding (dam_length size gap3) in
    let dam_bytes = dam_length size gap3 + pad in
    let image = mfm_sector_image m p src b size (gap3 + pad) in
    let cells = bin_to_mfm image p dam_bytes in
    let warnings = bad_words (mfm_check cells (p + 2) (dam_bytes - 1)) in
    let fixed = fix_sync cells (p + 2 * mfm_gap_sync) in
    elim (ibm_mfm_search fixed q idam captures) [
      | none ↦ none
      | some found ↦
          let deadline = u32 (found.hit.end + time_sysclk (mfm_gap2 * 16 * ticks_per_cell)) in
          some (record {
            cells = words found.mem p dam_bytes;
            warnings = warnings ++ found.warnings;
            delay = ticks_to_wait now deadline;
            rest = found.rest;
          })
    ]
