-- ===== src/Ibm/Track/Image.antt =====
-- The bytes that `ibm_mfm_write_track` generates.
use flashfloppy_testbed.Prelude.{ℕ, ◌+◌, ◌^◌, ◌<◌, ◌≡◌, ◌∙◌, refl, ap, sym, arith}
use flashfloppy_testbed.Prelude.{
  List, [], ◌∷◌, ◌++◌, length, length-append, length-replicate, replicate, All, All-append,
}
use flashfloppy_testbed.Mem.{Mem, IsMem, store}
use flashfloppy_testbed.Mem.Bytes.{store-IsMem}
use flashfloppy_testbed.Util.Memory.{memset}
use flashfloppy_testbed.Util.Memory.Store.{store-append}
use flashfloppy_testbed.Util.Memory.Set.{memset-store}
use flashfloppy_testbed.Ibm.{Idam, idam_bytes, mfm_idam_mark, sector_bytes}
use flashfloppy_testbed.Ibm.Layout.{
  sector_bytes-lt, with_crc-IsByte, with_crc, marked, crc_bytes, marked-IsByte, behind_sync,
  replicate-IsByte,
}
use flashfloppy_testbed.Ibm.Read.Search.{IsIdam}
use flashfloppy_testbed.Ibm.Write.{put_crc}
use flashfloppy_testbed.Ibm.Write.Image.{put_crc-store, marked_lem}
use flashfloppy_testbed.Ibm.Track.{put_header, put_filler, put_sectors, sector_span}
use flashfloppy_testbed.Ibm.Track.Segments.{Segment, segment_bytes}

-- A gap of zero bytes, then the sync bytes and a block with its CRC, then filler up to the next.
abbrev pub block_segment : ℕ → List ℕ → ℕ → Segment
block_segment mark xs gap = record {
  before = replicate 12 0x00;
  behind = behind_sync mark xs ++ replicate gap 0x4e;
}

-- The two segments of each sector: its header, and its data all 0xe2.
abbrev pub track_segments : ℕ → List Idam → List Segment
track_segments gap3 [] = []
track_segments gap3 (i ∷ is) =
    block_segment 0xfe (idam_bytes i) 22
    ∷ block_segment 0xfb (replicate (sector_bytes i.n) 0xe2) gap3
    ∷ track_segments gap3 is

abbrev pub AllIdam : List Idam → Type 0
AllIdam idams = All IsIdam idams

-- The bytes of one block between two gaps.
abbrev block_bytes : ℕ → List ℕ → ℕ → List ℕ
block_bytes mark xs gap = replicate 12 0x00 ++ (with_crc (marked mark xs) ++ replicate gap 0x4e)

block-store :
    (m : Mem) (q s n t mark : ℕ) (xs : List ℕ) (gap : ℕ)
    → IsMem m
    → mark < 256
    → All (λ x. x < 256) xs
    → gap < 2 ^ 32
    → s ≡ q + 12
    → n ≡ 4 + length xs
    → t ≡ s + n + 2
    → memset (put_crc (store (memset m q 0x00 12) s (marked mark xs)) s n) t 0x4e gap
      ≡ store m q (block_bytes mark xs gap)
block-store m q s n t mark xs gap h k all small e f g =
    memset-store _ t 0x4e gap small
    ∙ ap (λ r. store (put_crc (store r s (marked mark xs)) s n) t filler)
        (memset-store m q 0x00 12 (omega arith))
    ∙ ap (λ r. store r t filler)
        (put_crc-store (store m q zeros) s n (marked mark xs) (store-IsMem m q zeros h)
          (marked-IsByte mark xs k all) (omega (arith, f)))
    ∙ store-append (store m q zeros) s t (with_crc (marked mark xs)) filler
        (omega (arith, f, g, length-append {0} xs (crc_bytes (marked mark xs))))
    ∙ store-append m q s zeros (with_crc (marked mark xs) ++ filler) e
  where
    filler : List ℕ
    filler = replicate gap 0x4e

    zeros : List ℕ
    zeros = replicate 12 0x00

pub put_header-store :
    (m : Mem) (q : ℕ) (i : Idam)
    → IsMem m
    → IsIdam i
    → put_header m q i ≡ store m q (block_bytes 0xfe (idam_bytes i) 22)
unfolding put_header
put_header-store m q i h k =
    ap (λ r. memset (put_crc r (q + 12) 8) (q + 12 + 8 + 2) 0x4e 22)
      (store-append (memset m q 0x00 12) (q + 12) (q + 12 + 4) mfm_idam_mark (idam_bytes i) refl)
    ∙ block-store m q (q + 12) 8 (q + 12 + 8 + 2) 0xfe (idam_bytes i) 22 h (omega arith) k
        (omega arith) refl refl refl

pub put_filler-store :
    (m : Mem) (q size gap3 : ℕ)
    → IsMem m
    → size < 2 ^ 32
    → gap3 < 2 ^ 32
    → put_filler m q size gap3 ≡ store m q (block_bytes 0xfb (replicate size 0xe2) gap3)
unfolding put_filler
put_filler-store m q size gap3 h k l =
    ap (λ r. memset (put_crc r (q + 12) (4 + size)) (q + 12 + (4 + size) + 2) 0x4e gap3)
      (memset-store _ (q + 12 + 4) 0xe2 size k
        ∙ marked_lem (memset m q 0x00 12) (q + 12) (replicate size 0xe2))
    ∙ block-store m q (q + 12) (4 + size) (q + 12 + (4 + size) + 2) 0xfb (replicate size 0xe2) gap3
        h (omega arith) (replicate-IsByte size 0xe2 (omega arith)) l refl
        (omega (arith, length-replicate {A = ℕ} size 0xe2)) refl

-- The bytes of one sector, before those that follow.
abbrev pub one_sector : ℕ → Idam → List ℕ
one_sector gap3 i =
    block_bytes 0xfe (idam_bytes i) 22 ++ block_bytes 0xfb (replicate (sector_bytes i.n) 0xe2) gap3

pub length-one_sector :
    (gap3 : ℕ) (i : Idam) → length (one_sector gap3 i) ≡ sector_span (sector_bytes i.n) gap3
length-one_sector gap3 i = omega (
  arith,
  length-append {0} (filler ++ crc_bytes (marked 0xfb filler)) (replicate gap3 0x4e),
  length-append {0} filler (crc_bytes (marked 0xfb filler)),
  length-replicate {A = ℕ} (sector_bytes i.n) 0xe2,
  length-replicate {A = ℕ} gap3 0x4e,
)
  where
    filler : List ℕ
    filler = replicate (sector_bytes i.n) 0xe2

pub one_sector_segments :
    (gap3 : ℕ) (i : Idam) (rest : List ℕ)
    → one_sector gap3 i ++ rest
      ≡ segment_bytes
          (block_segment 0xfe (idam_bytes i) 22
            ∷ block_segment 0xfb (replicate (sector_bytes i.n) 0xe2) gap3
            ∷ [])
          rest
one_sector_segments gap3 i rest = refl

block-IsByte :
    (mark : ℕ) (xs : List ℕ) (gap : ℕ)
    → mark < 256
    → All (λ x. x < 256) xs
    → All (λ x. x < 256) (block_bytes mark xs gap)
block-IsByte mark xs gap h k =
    All-append (λ x. x < 256) (replicate 12 0x00) (with_crc (marked mark xs) ++ replicate gap 0x4e)
      (replicate-IsByte 12 0x00 (omega arith))
      (All-append (λ x. x < 256) (with_crc (marked mark xs)) (replicate gap 0x4e)
        (with_crc-IsByte (marked mark xs) (marked-IsByte mark xs h k))
        (replicate-IsByte gap 0x4e (omega arith)))

pub one_sector-IsByte : (gap3 : ℕ) (i : Idam) → IsIdam i → All (λ x. x < 256) (one_sector gap3 i)
one_sector-IsByte gap3 i h =
    All-append (λ x. x < 256) (block_bytes 0xfe (idam_bytes i) 22)
      (block_bytes 0xfb (replicate (sector_bytes i.n) 0xe2) gap3)
      (block-IsByte 0xfe (idam_bytes i) 22 (omega arith) h)
      (block-IsByte 0xfb (replicate (sector_bytes i.n) 0xe2) gap3 (omega arith)
        (replicate-IsByte (sector_bytes i.n) 0xe2 (omega arith)))

sector-store :
    (m : Mem) (q gap3 : ℕ) (i : Idam)
    → IsMem m
    → IsIdam i
    → gap3 < 2 ^ 32
    → put_filler (put_header m q i) (q + 44) (sector_bytes i.n) gap3 ≡ store m q (one_sector gap3 i)
sector-store m q gap3 i h k l =
    ap (λ r. put_filler r (q + 44) (sector_bytes i.n) gap3) (put_header-store m q i h k)
    ∙ put_filler-store (store m q (block_bytes 0xfe (idam_bytes i) 22)) (q + 44) (sector_bytes i.n)
        gap3 (store-IsMem m q (block_bytes 0xfe (idam_bytes i) 22) h) (sector_bytes-lt i.n) l
    ∙ store-append m q (q + 44) (block_bytes 0xfe (idam_bytes i) 22)
        (block_bytes 0xfb (replicate (sector_bytes i.n) 0xe2) gap3) refl

-- All sectors and the gap behind them.
pub put_sectors-store :
    (idams : List Idam) (m : Mem) (q gap3 : ℕ)
    → IsMem m
    → AllIdam idams
    → gap3 < 2 ^ 32
    → put_sectors m q gap3 idams
      ≡ store m q (segment_bytes (track_segments gap3 idams) (replicate 64 0x4e))
unfolding put_sectors
put_sectors-store [] m q gap3 h k l = memset-store m q 0x4e 64 (omega arith)
put_sectors-store (i ∷ is) m q gap3 h k l =
    ap (λ r. put_sectors r (q + sector_span (sector_bytes i.n) gap3) gap3 is)
      (sector-store m q gap3 i h k.0 l)
    ∙ put_sectors-store is (store m q (one_sector gap3 i)) (q + sector_span (sector_bytes i.n) gap3)
        gap3 (store-IsMem m q (one_sector gap3 i) h) k.1 l
    ∙ store-append m q (q + sector_span (sector_bytes i.n) gap3) (one_sector gap3 i) later
        (ap (λ n. q + n) (sym (length-one_sector gap3 i)))
    ∙ ap (store m q) (one_sector_segments gap3 i later)
  where
    later : List ℕ
    later = segment_bytes (track_segments gap3 is) (replicate 64 0x4e)
