-- ===== src/Ibm/Roundtrip.antt =====
-- A sector that `ibm_mfm_write_sector` wrote is read back by `ibm_mfm_read_sector`. The drive gives
-- back what it was handed from the first sync word on.
use mathlib.Core.Option.{some-injective}
use flashfloppy_testbed.Prelude.{ℕ, ◌+◌, ◌-◌, ◌*◌, ◌^◌, ◌<◌, ◌≤◌, ◌≡◌, ◌⊎◌, ◌∙◌, ap, sym, arith}
use flashfloppy_testbed.Prelude.{
  List, [], ◌∷◌, length, length-append, replicate, take, drop, take-append, some,
}
use flashfloppy_testbed.Mem.{Mem, IsMem, bytes}
use flashfloppy_testbed.Mem.Bytes.{length-bytes, bytes-IsByte}
use flashfloppy_testbed.Mfm.Words.{encode, last_of, length-encode}
use flashfloppy_testbed.Ibm.{Idam, Capture, Warning, sector_bytes, ibm_mfm_read_sector}
use flashfloppy_testbed.Ibm.Layout.{sector_cells, block_cells, behind_sync, crc_bytes, marked}
use flashfloppy_testbed.Ibm.Read.Search.{IsIdam, SearchCaptures, first_match, Match}
use flashfloppy_testbed.Ibm.Read.Sector.{ibm_mfm_read_sector-block_cells}
use flashfloppy_testbed.Ibm.Write.{SectorWrite, ibm_mfm_write_sector}
use flashfloppy_testbed.Ibm.Write.Sector.{even_gap, sector_write, ibm_mfm_write_sector-sector_write}

-- The words of a written sector from the sync words to the CRC.
block_of_sector :
    (prev : ℕ) (xs : List ℕ) (gap n : ℕ)
    → n ≡ length xs
    → take (4 + n + 2) (drop 12 (sector_cells prev xs gap)) ≡ block_cells (behind_sync 0xfb xs)
block_of_sector prev xs gap n e =
    take-append (4 + n + 2) (block_cells (behind_sync 0xfb xs))
      (encode (last_of 0xa1 (behind_sync 0xfb xs)) (replicate gap 0x4e))
      (omega (
        arith,
        e,
        length-encode 0xa1 (behind_sync 0xfb xs),
        length-append {0} xs (crc_bytes (marked 0xfb xs)),
      ))

-- `writer` and `reader` are what the two searches match, and `w` is what is handed to `floppy_write`.
module _ (m : Mem) (p q : ℕ) (src : Mem) (b : ℕ) (idam : Idam) (gap3 ticks_per_cell now : ℕ)
    (writer : Match) (h : IsMem m) (hs : IsMem src) (pos : 0 < p)
    (fits : 19 + sector_bytes idam.n + gap3 < 2 ^ 32)
    (apart : (q + 20 ≤ p) ⊎ (p + 2 * (18 + sector_bytes idam.n + even_gap gap3) ≤ q))
    (k : IsIdam idam) (captures : List Capture) (good : SearchCaptures idam captures)
    (found : first_match idam [] captures ≡ some writer) where
  -- A sector is read back as it was written: when the drive gives a later `ibm_mfm_read_sector` of
  -- the same header the words that `ibm_mfm_write_sector` handed to `floppy_write`, from the first
  -- sync word on, the read returns the bytes that the write was given, with no warning but its own
  -- search's.
  pub ibm_mfm_read_sector-ibm_mfm_write_sector :
      (w : SectorWrite) (m' : Mem) (p' q' : ℕ) (captures' : List Capture) (warnings : List Warning)
      (hit c : Capture) (rest : List Capture)
      → ibm_mfm_write_sector m p q src b idam gap3 ticks_per_cell now captures ≡ some w
      → IsMem m'
      → SearchCaptures idam captures'
      → first_match idam [] captures'
        ≡ some (record { warnings = warnings; hit = hit; rest = c ∷ rest })
      → c.cells ≡ take (4 + sector_bytes idam.n + 2) (drop 12 w.cells)
      → ibm_mfm_read_sector m' p' q' idam captures'
        ≡ some
            (record { buf = bytes src b (sector_bytes idam.n); warnings = warnings; rest = rest })
  ibm_mfm_read_sector-ibm_mfm_write_sector w m' p' q' captures' warnings hit c rest e h' good'
        found' back =
      ibm_mfm_read_sector-block_cells p' idam (bytes src b size) warnings hit c rest
        (bytes-IsByte src b size hs) (sym (length-bytes src b size))
        (back
          ∙ ap (λ (x : SectorWrite). take (4 + size + 2) (drop 12 x.cells))
              (some-injective w _ (sym e ∙ wrote))
          ∙ block_of_sector (m (p - 1)) (bytes src b size) (even_gap gap3) size
              (sym (length-bytes src b size)))
        m' q' captures' h' k good' found'
    where
      size : ℕ
      size = sector_bytes idam.n

      wrote :
          ibm_mfm_write_sector m p q src b idam gap3 ticks_per_cell now captures
          ≡ some (sector_write (bytes src b size) (m (p - 1)) gap3 ticks_per_cell now writer)
      wrote =
          ibm_mfm_write_sector-sector_write m p q src b idam gap3 ticks_per_cell now writer h hs pos
            fits apart captures k good found
