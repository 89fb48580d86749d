-- ===== src/Ibm/Track/Cells.antt =====
-- The bitcells that `ibm_mfm_write_track` hands to `floppy_write`.
use mathlib.Core.List.{append_assoc}
use mathlib.Core.Path.{subst}
use flashfloppy_testbed.Prelude.{
  ℕ, suc, ◌+◌, ◌-◌, ◌%◌, ◌^◌, ◌<◌, ◌≡◌, ◌∙◌, inl, inr, refl, ap, ap₂, sym, arith,
}
use flashfloppy_testbed.Prelude.{
  List, [], ◌∷◌, ◌++◌, length, length-append, length-replicate, replicate, All, All-append, drop,
}
use flashfloppy_testbed.Bits.And.{bit_and_mask}
use flashfloppy_testbed.Mem.{Mem, IsMem, bytes, words, store}
use flashfloppy_testbed.Mem.Bytes.{
  bytes-append, bytes-store, bytes_ext, bytes-IsByte, length-bytes, store_outside, store-IsMem,
  words_ext,
}
use flashfloppy_testbed.Mem.Words.{words-append, words_split}
use flashfloppy_testbed.Util.Memory.{memset}
use flashfloppy_testbed.Util.Memory.Set.{memset-store}
use flashfloppy_testbed.Util.Memory.Store.{store-append}
use flashfloppy_testbed.Mfm.{bin_to_mfm, mfm_check}
use flashfloppy_testbed.Mfm.Encode.{bin_to_mfm-IsEncoded}
use flashfloppy_testbed.Mfm.Words.{encode, encode-append, words-bin_to_mfm}
use flashfloppy_testbed.Mfm.Silent.{mfm_check-encode}
use flashfloppy_testbed.Ibm.{Idam, sector_bytes, bad_words}
use flashfloppy_testbed.Ibm.Layout.{replicate-IsByte, crc_bytes, marked}
use flashfloppy_testbed.Ibm.Write.{padding}
use flashfloppy_testbed.Ibm.Track.{
  TrackWrite, track_count, track_length, put_sectors, sector_span, sync_off, fix_syncs,
  ibm_mfm_write_track,
}
use flashfloppy_testbed.Ibm.Track.Segments.{
  Segment, segment_bytes, segment_cells, segment_syncs, fix_syncs-segment_cells, fix_syncs_below,
}
use flashfloppy_testbed.Ibm.Track.Image.{
  AllIdam, track_segments, one_sector, one_sector_segments, one_sector-IsByte, length-one_sector,
  put_sectors-store,
}

abbrev lead : List ℕ
lead = replicate 64 0x4e

-- What all sectors take.
abbrev span_sum : ℕ → List Idam → ℕ
span_sum gap3 [] = 0
span_sum gap3 (i ∷ is) = sector_span (sector_bytes i.n) gap3 + span_sum gap3 is

-- The bytes behind the post-index gap.
abbrev body : ℕ → List Idam → List ℕ
body gap3 idams = segment_bytes (track_segments gap3 idams) lead

-- The bytes of a track.
abbrev pub track_layout : ℕ → List Idam → List ℕ
track_layout gap3 idams =
    replicate 64 0x4e ++ segment_bytes (track_segments gap3 idams) (replicate 64 0x4e)

-- The bitcells of a track behind the byte `prev`, the last of them those of `pad`.
abbrev pub track_cells : ℕ → ℕ → List Idam → List ℕ → List ℕ
track_cells prev gap3 idams pad =
    encode prev (replicate 64 0x4e)
    ++ segment_cells 0x4e (track_segments gap3 idams) (replicate 64 0x4e ++ pad)

length-body : (gap3 : ℕ) (idams : List Idam) → length (body gap3 idams) ≡ span_sum gap3 idams + 64
length-body gap3 [] = refl
length-body gap3 (i ∷ is) = omega (
  arith,
  length-body gap3 is,
  ap length (one_sector_segments gap3 i (body gap3 is)),
  length-append {0} (one_sector gap3 i) (body gap3 is),
  length-one_sector gap3 i,
)

body-IsByte : (gap3 : ℕ) (idams : List Idam) → AllIdam idams → All (λ x. x < 256) (body gap3 idams)
body-IsByte gap3 [] h = replicate-IsByte 64 0x4e (omega arith)
body-IsByte gap3 (i ∷ is) h =
    All-append (λ x. x < 256) (one_sector gap3 i) (body gap3 is) (one_sector-IsByte gap3 i h.0)
      (body-IsByte gap3 is h.1)

count_lem :
    (idams : List Idam) (gap3 count : ℕ)
    → track_count count gap3 idams % 2 ^ 32 ≡ (count + span_sum gap3 idams) % 2 ^ 32
unfolding track_count
count_lem [] gap3 count = omega arith
count_lem (i ∷ is) gap3 count = count_lem is gap3 _ ∙ omega arith

length_lem :
    (gap3 : ℕ) (idams : List Idam)
    → length (track_layout gap3 idams) < 2 ^ 32
    → track_length gap3 idams ≡ length (track_layout gap3 idams)
unfolding track_length
length_lem gap3 idams h = omega (arith, h, count_lem idams gap3 64, length-body gap3 idams)

sync_off-segment_syncs :
    (idams : List Idam) (off gap3 : ℕ)
    → sync_off off gap3 idams ≡ segment_syncs off (track_segments gap3 idams)
unfolding sync_off
sync_off-segment_syncs [] off gap3 = refl
sync_off-segment_syncs (i ∷ is) off gap3 =
    ap (λ l. (off + 12) ∷ (off + 44 + 12) ∷ l)
      (sync_off-segment_syncs is (off + sector_span (sector_bytes i.n) gap3) gap3
        ∙ ap (λ o. segment_syncs o (track_segments gap3 is))
            (omega (
              arith,
              length-append {0} (filler ++ crc_bytes (marked 0xfb filler)) (replicate gap3 0x4e),
              length-append {0} filler (crc_bytes (marked 0xfb filler)),
              length-replicate {A = ℕ} (sector_bytes i.n) 0xe2,
              length-replicate {A = ℕ} gap3 0x4e,
            )))
  where
    filler : List ℕ
    filler = replicate (sector_bytes i.n) 0xe2

segment_bytes-append :
    (ss : List Segment) (tail xs : List ℕ)
    → segment_bytes ss tail ++ xs ≡ segment_bytes ss (tail ++ xs)
segment_bytes-append [] tail xs = refl
segment_bytes-append (s ∷ ss) tail xs =
    append_assoc s.before (0xa1 ∷ 0xa1 ∷ 0xa1 ∷ (s.behind ++ segment_bytes ss tail)) xs
    ∙ ap (λ (l : List ℕ). s.before ++ (0xa1 ∷ 0xa1 ∷ 0xa1 ∷ l))
        (append_assoc s.behind (segment_bytes ss tail) xs
          ∙ ap (λ l. s.behind ++ l) (segment_bytes-append ss tail xs))

module _ (m : Mem) (p : ℕ) (idams : List Idam) (gap3 : ℕ) (h : IsMem m) (k : AllIdam idams)
    (pos : 0 < p) (gap_small : gap3 < 2 ^ 32)
    (fits : length (track_layout gap3 idams) + 1 < 2 ^ 32) where
  abbrev size : ℕ
  size = length (track_layout gap3 idams)

  abbrev total : ℕ
  total = size + size % 2

  -- The byte that makes the length even is not written.
  abbrev pub unwritten : List ℕ
  unwritten = bytes m (p + length (track_layout gap3 idams)) (length (track_layout gap3 idams) % 2)

  abbrev image : Mem
  image = put_sectors (memset m p 0x4e 64) (p + 64) gap3 idams

  image_lem : image ≡ store m p (track_layout gap3 idams)
  image_lem =
      put_sectors-store idams (memset m p 0x4e 64) (p + 64) gap3
        (rw (memset-store m p 0x4e 64 (omega arith)) (store-IsMem m p lead h)) k gap_small
      ∙ ap (λ r. store r (p + 64) (body gap3 idams)) (memset-store m p 0x4e 64 (omega arith))
      ∙ store-append m p (p + 64) lead (body gap3 idams) refl

  image-IsMem : IsMem image
  image-IsMem = rw image_lem (store-IsMem m p (track_layout gap3 idams) h)

  layout_small : All (λ x. x < 256) (track_layout gap3 idams)
  layout_small =
      All-append (λ x. x < 256) lead (body gap3 idams) (replicate-IsByte 64 0x4e (omega arith))
        (body-IsByte gap3 idams k)

  image-bytes : bytes image p total ≡ track_layout gap3 idams ++ unwritten
  image-bytes =
      ap (λ r. bytes r p total) image_lem
      ∙ sym (bytes-append (store m p (track_layout gap3 idams)) p size (size % 2) (p + size) refl)
      ∙ ap₂ ◌++◌ (bytes-store m p (track_layout gap3 idams) layout_small) (
          bytes_ext (store m p (track_layout gap3 idams)) m (p + size) (size % 2)
            (λ a l u. store_outside m p (track_layout gap3 idams) a (inr l)))

  before : image (p - 1) ≡ m (p - 1)
  before = rw image_lem (store_outside m p (track_layout gap3 idams) (p - 1) (inl (omega arith)))

  abbrev behind : List ℕ
  behind = segment_bytes (track_segments gap3 idams) (lead ++ unwritten)

  abbrev cells : Mem
  cells = bin_to_mfm image p total

  cells-IsMem : IsMem cells
  cells-IsMem = (bin_to_mfm-IsEncoded image p total image-IsMem pos).is_mem

  cells_lem : words cells p total ≡ encode (m (p - 1)) (lead ++ behind)
  cells_lem =
      words-bin_to_mfm image p total image-IsMem pos
      ∙ ap₂ encode before (
          image-bytes
          ∙ ap (λ (l : List ℕ). lead ++ l)
              (segment_bytes-append (track_segments gap3 idams) lead unwritten))

  split :
      (words cells p 64 ≡ encode (m (p - 1)) lead)
      × (words cells (p + 128) (total - 64) ≡ encode 0x4e behind)
  split =
      words_split cells p 64 (total - 64) (p + 128) total (encode (m (p - 1)) lead)
        (encode 0x4e behind) refl refl (omega arith)
        (cells_lem ∙ encode-append (m (p - 1)) lead behind)

  rest_lem : total - 64 ≡ length behind
  rest_lem = omega (
    arith,
    ap length (segment_bytes-append (track_segments gap3 idams) lead unwritten),
    length-append {0} (body gap3 idams) unwritten,
    length-bytes m (p + size) (size % 2),
  )

  whole_small : All (λ x. x < 256) (lead ++ behind)
  whole_small =
      All-append (λ x. x < 256) lead behind (replicate-IsByte 64 0x4e (omega arith))
        (subst (All (λ x. x < 256))
          (segment_bytes-append (track_segments gap3 idams) lead unwritten)
          (All-append (λ x. x < 256) (body gap3 idams) unwritten (body-IsByte gap3 idams k)
            (bytes-IsByte m (p + size) (size % 2) h)))

  up : suc (total - 1) ≡ total
  up = omega arith

  check_lem : mfm_check cells (p + 2) (total - 1) ≡ []
  check_lem =
      mfm_check-encode cells p (total - 1) (m (p - 1)) 0x4e (drop 1 (lead ++ behind)) cells-IsMem
        (omega arith) refl whole_small.1 (ap (words cells p) up ∙ cells_lem)

  fixed_lem :
      words (fix_syncs cells p (sync_off 64 gap3 idams)) p total
      ≡ track_cells (m (p - 1)) gap3 idams unwritten
  fixed_lem =
      ap (λ o. words (fix_syncs cells p o) p total) (sync_off-segment_syncs idams 64 gap3)
      ∙ words-append (fix_syncs cells p syncs) p 64 (total - 64) (p + 128) total refl (omega arith)
      ∙ ap₂ ◌++◌
          (words_ext (fix_syncs cells p syncs) cells p 64
              (λ a l u. fix_syncs_below (track_segments gap3 idams) cells p 64 a (omega arith))
            ∙ split.0)
          (fix_syncs-segment_cells (track_segments gap3 idams) cells p 64 (p + 128) 0x4e
            (lead ++ unwritten) (total - 64) (omega arith) rest_lem split.1)
    where
      syncs : List ℕ
      syncs = segment_syncs 64 (track_segments gap3 idams)

  total_lem : track_length gap3 idams + padding (track_length gap3 idams) ≡ total
  unfolding padding
  total_lem =
      omega
        (arith, fits, length_lem gap3 idams (omega arith), bit_and_mask 1 (track_length gap3 idams))

  -- The write when `n` words are written.
  abbrev write_of : ℕ → TrackWrite
  write_of n = record {
    cells = words (fix_syncs (bin_to_mfm image p n) p (sync_off 64 gap3 idams)) p n;
    warnings = bad_words (mfm_check (bin_to_mfm image p n) (p + 2) (n - 1));
    terminate_at_index = 1;
  }

  -- For a track whose bytes, with the pad, are fewer than 2 ^ 32, and headers of bytes: the cells that
  -- `ibm_mfm_write_track` hands to the drive are the MFM code of the post-index gap, then of each
  -- sector with its header and data block behind three sync words, their checksums and their gap, then
  -- of the pre-index gap and the byte that makes the length even, which is what memory held before.
  -- The check warns of nothing, and the write stops at the index.
  pub ibm_mfm_write_track-track_cells : ibm_mfm_write_track m p idams gap3 ≡ record {
    cells = track_cells (m (p - 1)) gap3 idams unwritten;
    warnings = [];
    terminate_at_index = 1;
  }
  unfolding ibm_mfm_write_track
  ibm_mfm_write_track-track_cells =
      ap write_of total_lem
      ∙ ap₂ (λ (c w : List ℕ). record { cells = c; warnings = bad_words w; terminate_at_index = 1 })
          fixed_lem check_lem
