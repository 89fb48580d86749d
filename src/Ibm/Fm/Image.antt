-- ===== src/Ibm/Fm/Image.antt =====
-- The bytes that `ibm_fm_write_sector` generates are the FM sector's layout.
use flashfloppy_testbed.Prelude.{
  ℕ, ◌+◌, ◌^◌, ◌<◌, ◌≡◌, ◌∙◌, refl, ap, arith, List, [], ◌∷◌, ◌++◌, replicate, length-append,
}
use flashfloppy_testbed.Mem.{Mem, IsMem, bytes, store, store8}
use flashfloppy_testbed.Mem.Bytes.{length-bytes, bytes-IsByte, store-IsMem}
use flashfloppy_testbed.Util.Memory.Store.{store-append}
use flashfloppy_testbed.Util.Memory.Set.{memset-store}
use flashfloppy_testbed.Ibm.Layout.{with_crc, crc_bytes}
use flashfloppy_testbed.Ibm.Write.{put_crc}
use flashfloppy_testbed.Ibm.Write.Image.{put_crc-store, store-one}
use flashfloppy_testbed.Ibm.Fm.{fm_sector_image}

-- The sync gap, the mark with the data and their CRC, the gap behind.
abbrev pub fm_layout : List ℕ → ℕ → List ℕ
fm_layout data_ gap3 = replicate 6 0x00 ++ (with_crc (0xfb ∷ data_) ++ replicate gap3 0xff)

module _ (m : Mem) (p : ℕ) (src : Mem) (b size gap3 : ℕ) (h : IsMem m) (hs : IsMem src) where
  abbrev content : List ℕ
  content = bytes src b size

  abbrev gap : List ℕ
  gap = replicate 6 0x00

  abbrev front : Mem
  front = store m p gap

  block_lem :
      put_crc (store (store8 front (p + 6) 0xfb) (p + 6 + 1) content) (p + 6) (1 + size)
      ≡ store front (p + 6) (with_crc (0xfb ∷ content))
  block_lem =
      ap (λ r. put_crc (store r (p + 6 + 1) content) (p + 6) (1 + size))
        (store-one front (p + 6) 0xfb)
      ∙ ap (λ r. put_crc r (p + 6) (1 + size))
          (store-append front (p + 6) (p + 6 + 1) (0xfb ∷ []) content refl)
      ∙ put_crc-store front (p + 6) (1 + size) (0xfb ∷ content) (store-IsMem m p gap h)
          (omega arith, bytes-IsByte src b size hs) (omega (arith, length-bytes src b size))

  -- The image of an FM sector is one run of bytes: the sync gap, the mark and the data with their
  -- CRC, the gap behind them.
  pub fm_sector_image-store :
      gap3 < 2 ^ 32
      → fm_sector_image m p src b size gap3 ≡ store m p (fm_layout (bytes src b size) gap3)
  unfolding fm_sector_image
  fm_sector_image-store small =
      memset-store _ (p + 6 + (1 + size) + 2) 0xff gap3 small
      ∙ ap
          (λ r.
            store (put_crc (store (store8 r (p + 6) 0xfb) (p + 6 + 1) content) (p + 6) (1 + size))
              (p + 6 + (1 + size) + 2) tail)
          (memset-store m p 0x00 6 (omega arith))
      ∙ ap (λ r. store r (p + 6 + (1 + size) + 2) tail) block_lem
      ∙ store-append front (p + 6) (p + 6 + (1 + size) + 2) (with_crc (0xfb ∷ content)) tail (
          omega (
            arith,
            length-append {0} (0xfb ∷ content) (crc_bytes (0xfb ∷ content)),
            length-bytes src b size,
          ))
      ∙ store-append m p (p + 6) gap (with_crc (0xfb ∷ content) ++ tail) refl
    where
      tail : List ℕ
      tail = replicate gap3 0xff
