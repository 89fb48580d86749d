-- ===== src/Ibm.antt =====
-- src/ibm.c: IBM sectors and tracks in MFM. What the flux hardware delivers is a list of captures,
-- one for each call of `floppy_read`, in order.
pub mod Layout
pub mod Write
pub mod Read
pub mod Roundtrip
pub mod Track
pub mod Scan
pub mod Fm
mod Tests
use flashfloppy_testbed.Prelude.{
  ℕ, zero, suc, ◌+◌, ◌-◌, ◌*◌, ◌/◌, ◌%◌, ◌^◌, List, [], ◌∷◌, ◌++◌, Bool,
}
use flashfloppy_testbed.Prelude.{Option, none, some, ◌==◌, leb, not, ◌||◌, if◌then◌else◌, bit_and}
use flashfloppy_testbed.Prelude.Int.{ℤ, pos, negsuc, signed32, is_zero}
use flashfloppy_testbed.Mem.{Mem, u8, u32, bytes, store, store8, store16, rev16, put_words}
use flashfloppy_testbed.Util.Memory.{memset}
use flashfloppy_testbed.Util.Compare.{memcmp, rom}
use flashfloppy_testbed.Crc.{crc16_ccitt}
use flashfloppy_testbed.Mfm.{mfm_to_bin, bin_to_mfm, mfm_check}

-- `struct idam`
pub record Idam : Type 0 where
  pub c : ℕ
  pub h : ℕ
  pub r : ℕ
  pub n : ℕ

-- Its four bytes.
abbrev pub idam_bytes : Idam → List ℕ
idam_bytes i = i.c ∷ i.h ∷ i.r ∷ i.n ∷ []

abbrev pub mfm_gap_sync : ℕ
mfm_gap_sync = 12

abbrev pub mfm_gap2 : ℕ
mfm_gap2 = 22

abbrev pub mfm_idam_mark : List ℕ
mfm_idam_mark = 0xa1 ∷ 0xa1 ∷ 0xa1 ∷ 0xfe ∷ []

-- One `floppy_read`: the words that it puts into the buffer, when it started and ended, and
-- `index.count` before and after it.
pub record Capture : Type 0 where
  pub cells : List ℕ
  pub start : ℕ
  pub end : ℕ
  pub count_before : ℕ
  pub count_after : ℕ

-- What a `WARN_ON` or a check's message reports.
pub data Warning : Type 0 where
  late_index : Warning
  bad_word : ℕ → Warning
  bad_mark bad_dam bad_crc bad_gap3 : Warning

abbrev pub warn_on : Bool → Warning → List Warning
warn_on b w = if b then w ∷ [] else []

abbrev pub bad_words : List ℕ → List Warning
bad_words [] = []
bad_words (i ∷ is) = bad_word i ∷ bad_words is

-- `128 << n`
unfoldable pub sector_bytes : ℕ → ℕ
sector_bytes n = u32 (128 * 2 ^ n)

-- Where `ibm_mfm_search` ends: the memory, the warnings on the way, the capture that matched and
-- those that are still to come.
pub record Found : Type 0 where
  pub mem : Mem
  pub warnings : List Warning
  pub hit : Capture
  pub rest : List Capture

-- `memcmp(p, mfm_idam_mark, 4) || memcmp(p+4, idam, 4) || crc16_ccitt(p, 10, 0xffff)`
unfoldable pub mismatch : Mem → ℕ → Idam → Bool
mismatch m p idam =
    not (is_zero (memcmp m p (rom mfm_idam_mark) 0 4))
    || not (is_zero (memcmp m (p + 4) (rom (idam_bytes idam)) 0 4))
    || not (crc16_ccitt m p 10 0xffff == 0)

-- The `do` loop of `ibm_mfm_search`. `none` is a search that still waits for flux.
unfoldable pub mfm_search_loop : Mem → ℕ → Idam → List Warning → List Capture → Option Found
mfm_search_loop m p idam warnings [] = none
mfm_search_loop m p idam warnings (c ∷ rest) =
    let warned = warnings ++ warn_on (leb 2 c.count_before) late_index in
    let decoded = mfm_to_bin (put_words m p c.cells) p 10 in
    let again = mfm_search_loop decoded p idam warned rest in
    if mismatch decoded p idam
    then again
    else some (record { mem = decoded; warnings = warned; hit = c; rest = rest })

unfoldable pub ibm_mfm_search : Mem → ℕ → Idam → List Capture → Option Found
ibm_mfm_search m p idam captures = mfm_search_loop m p idam [] captures

-- What a sector read returns: the bytes for `buf`, the warnings, and the captures to come.
pub record SectorRead : Type 0 where
  pub buf : List ℕ
  pub warnings : List Warning
  pub rest : List Capture

-- The part of `ibm_mfm_read_sector` behind the search, on the memory that the read has filled.
unfoldable pub mfm_sector_data : Mem → ℕ → ℕ → List ℕ × List Warning
mfm_sector_data m p size =
    let dam_bytes = 4 + size + 2 in
    let decoded = mfm_to_bin m p dam_bytes in
    (
      bytes decoded (p + 4) size,
      bad_words (mfm_check m (p + 6) (dam_bytes - 3))
          ++ (warn_on (not (is_zero (memcmp decoded p (rom mfm_idam_mark) 0 3))) bad_mark
              ++ (warn_on (not (decoded (p + 3) == 0xfb)) bad_dam
                  ++ warn_on (not (crc16_ccitt decoded p dam_bytes 0xffff == 0)) bad_crc)),
    )

-- `ibm_mfm_read_sector`, with its own buffer at `p` and that of the search at `q`.
unfoldable pub ibm_mfm_read_sector : Mem → ℕ → ℕ → Idam → List Capture → Option SectorRead
ibm_mfm_read_sector m p q idam captures = elim (ibm_mfm_search m q idam captures) [
  | none ↦ none
  | some found ↦ elim found.rest [
    | [] ↦ none
    | c ∷ rest ↦
        let (buf, warnings) =
          mfm_sector_data (put_words found.mem p c.cells) p (sector_bytes idam.n) in
        some (record { buf = buf; warnings = found.warnings ++ warnings; rest = rest })
  ]
]
