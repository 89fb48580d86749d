-- ===== src/Ibm/Write/Image.antt =====
-- The bytes that `ibm_mfm_write_sector` generates are the sector's layout.
use flashfloppy_testbed.Prelude.{ℕ, ◌+◌, ◌/◌, ◌%◌, ◌^◌, ◌<◌, ◌≡◌, ◌∙◌, refl, ap, arith}
use flashfloppy_testbed.Prelude.{List, [], ◌∷◌, ◌++◌, length, replicate, All}
use flashfloppy_testbed.Mem.{Mem, IsMem, bytes, store, store8}
use flashfloppy_testbed.Mem.Bytes.{bytes-store, length-bytes, bytes-IsByte, store-IsMem}
use flashfloppy_testbed.Util.Memory.{memset}
use flashfloppy_testbed.Util.Memory.Store.{store-append, store8_cast}
use flashfloppy_testbed.Util.Memory.Set.{memset-store}
use flashfloppy_testbed.Crc.{crc16_ccitt}
use flashfloppy_testbed.Crc.Spec.{divide}
use flashfloppy_testbed.Crc.Refine.{crc16_ccitt-divide}
use flashfloppy_testbed.Ibm.Layout.{
  crc_bytes, with_crc, marked, marked-IsByte, length-data_block, data_block, sector_layout,
}
use flashfloppy_testbed.Ibm.Write.{put_crc, put_data_block, mfm_sector_image}

pub store-one : (m : Mem) (p v : ℕ) → store8 m p v ≡ store m p (v ∷ [])
unfolding store
store-one m p v = refl

-- Behind `xs` at `s`, `put_crc` stores the two bytes of their CRC.
pub put_crc-store :
    (m : Mem) (s n : ℕ) (xs : List ℕ)
    → IsMem m
    → All (λ x. x < 256) xs
    → n ≡ length xs
    → put_crc (store m s xs) s n ≡ store m s (with_crc xs)
unfolding put_crc
put_crc-store m s n xs h all e = rw e (
    let crc = crc16_ccitt (store m s xs) s (length xs) 0xffff in
    let value : crc ≡ divide xs 0xffff =
      crc16_ccitt-divide (store m s xs) s (length xs) 0xffff (store-IsMem m s xs h) (omega arith)
      ∙ ap (λ l. divide l 0xffff) (bytes-store m s xs all) in
    two (s + length xs) crc
    ∙ ap (λ (c : ℕ). store (store m s xs) (s + length xs) (c / 256 ∷ c % 256 ∷ [])) value
    ∙ store-append m s (s + length xs) xs (crc_bytes xs) refl)
  where
    two :
        (q c : ℕ)
        → store8 (store8 (store m s xs) q (c / 256)) (q + 1) c
          ≡ store (store m s xs) q (c / 256 ∷ c % 256 ∷ [])
    two q c =
        unfold store in
        store8_cast (store8 (store m s xs) q (c / 256)) (q + 1) c (c % 256) (omega arith)

pub marked_lem :
    (m : Mem) (s : ℕ) (xs : List ℕ)
    → store (store8 (store m s (0xa1 ∷ 0xa1 ∷ 0xa1 ∷ [])) (s + 3) 0xfb) (s + 4) xs
      ≡ store m s (marked 0xfb xs)
marked_lem m s xs =
    ap (λ r. store r (s + 4) xs)
      (store-one (store m s (0xa1 ∷ 0xa1 ∷ 0xa1 ∷ [])) (s + 3) 0xfb
        ∙ store-append m s (s + 3) (0xa1 ∷ 0xa1 ∷ 0xa1 ∷ []) (0xfb ∷ []) refl)
    ∙ store-append m s (s + 4) (0xa1 ∷ 0xa1 ∷ 0xa1 ∷ 0xfb ∷ []) xs refl

pub put_data_block-store :
    (m : Mem) (s : ℕ) (src : Mem) (b size : ℕ)
    → IsMem m
    → IsMem src
    → put_data_block m s src b size ≡ store m s (data_block (bytes src b size))
unfolding put_data_block
put_data_block-store m s src b size h hs =
    ap (λ r. put_crc r s (4 + size)) (marked_lem m s (bytes src b size))
    ∙ put_crc-store m s (4 + size) (marked 0xfb (bytes src b size)) h
        (marked-IsByte 0xfb (bytes src b size) (omega arith) (bytes-IsByte src b size hs))
        (omega (arith, length-bytes src b size))

-- The image is one run of bytes: the sync gap, the data block with its CRC, the gap behind it.
pub mfm_sector_image-store :
    (m : Mem) (p : ℕ) (src : Mem) (b size gap3 : ℕ)
    → IsMem m
    → IsMem src
    → gap3 < 2 ^ 32
    → mfm_sector_image m p src b size gap3 ≡ store m p (sector_layout (bytes src b size) gap3)
unfolding mfm_sector_image
mfm_sector_image-store m p src b size gap3 h hs small =
    memset-store _ (p + 12 + (4 + size) + 2) 0x4e gap3 small
    ∙ ap (λ r. store r (p + 12 + (4 + size) + 2) tail) block
    ∙ store-append (store m p gap) (p + 12) (p + 12 + (4 + size) + 2) (data_block content) tail
        (omega (arith, length-data_block content, length-bytes src b size))
    ∙ store-append m p (p + 12) gap (data_block content ++ tail) refl
  where
    content : List ℕ
    content = bytes src b size

    gap : List ℕ
    gap = replicate 12 0x00

    tail : List ℕ
    tail = replicate gap3 0x4e

    block :
        put_data_block (memset m p 0x00 12) (p + 12) src b size
        ≡ store (store m p gap) (p + 12) (data_block content)
    block =
        ap (λ r. put_data_block r (p + 12) src b size) (memset-store m p 0x00 12 (omega arith))
        ∙ put_data_block-store (store m p gap) (p + 12) src b size (store-IsMem m p gap h) hs
