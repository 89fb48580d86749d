-- ===== src/Ibm/Write/Sector.antt =====
-- `ibm_mfm_write_sector` as a function of the sector's data and the captures.
use mathlib.Core.Option
use mathlib.Core.Option.{some-injective}
use flashfloppy_testbed.Prelude.{
  ℕ, suc, ◌+◌, ◌-◌, ◌*◌, ◌%◌, ◌^◌, ◌<◌, ◌≤◌, ◌≡◌, ◌⊎◌, inl, ◌∙◌, refl, ap, ap₂, sym, arith,
}
use flashfloppy_testbed.Prelude.{List, [], ◌++◌, length, All, Option, none, some, drop}
use flashfloppy_testbed.Bits.And.{bit_and_mask}
use flashfloppy_testbed.Mem.{Mem, IsMem, u32, bytes, words, store}
use flashfloppy_testbed.Mem.Bytes.{
  bytes-store, store_outside, store-IsMem, bytes-IsByte, length-bytes, words_ext,
}
use flashfloppy_testbed.Mfm.{bin_to_mfm, mfm_check}
use flashfloppy_testbed.Mfm.Encode.{bin_to_mfm-IsEncoded}
use flashfloppy_testbed.Mfm.Words.{encode, words-bin_to_mfm}
use flashfloppy_testbed.Ibm.{Idam, Capture, Found, bad_words, ibm_mfm_search, sector_bytes}
use flashfloppy_testbed.Mfm.Silent.{mfm_check-encode}
use flashfloppy_testbed.Ibm.Layout.{
  sector_layout, sector_cells, length-sector_layout, sector_layout-IsByte,
}
use flashfloppy_testbed.Ibm.Read.Search.{
  IsIdam, SearchCaptures, first_match, Match, match_of, IsSearch, ibm_mfm_search-IsSearch,
}
use flashfloppy_testbed.Ibm.Write.{
  mfm_sector_image, fix_sync, dam_length, padding, ibm_mfm_write_sector, SectorWrite, time_sysclk,
  ticks_to_wait,
}
use flashfloppy_testbed.Ibm.Write.Image.{mfm_sector_image-store}
use flashfloppy_testbed.Ibm.Write.Cells.{fix_sync-sector_cells, fix_sync-put_words}
use flashfloppy_testbed.Mem.Words.{put_words-IsMem}

-- The gap behind the sector, rounded up so that the number of words is even.
abbrev pub even_gap : ℕ → ℕ
even_gap gap3 = gap3 + gap3 % 2

module _ (gap3 n : ℕ) (fits : 19 + sector_bytes n + gap3 < 2 ^ 32) where
  pub length_lem : dam_length (sector_bytes n) gap3 ≡ 18 + sector_bytes n + gap3
  unfolding dam_length
  length_lem = omega (arith, fits)

  pub padding_lem : padding (dam_length (sector_bytes n) gap3) ≡ gap3 % 2
  unfolding padding sector_bytes
  padding_lem = omega (arith, length_lem, bit_and_mask 1 (dam_length (sector_bytes n) gap3))

module _ (m : Mem) (p : ℕ) (src : Mem) (b size gap n : ℕ) (h : IsMem m) (hs : IsMem src)
    (pos : 0 < p) (fits : gap < 2 ^ 32) (count : n ≡ 18 + size + gap) where
  abbrev image : Mem
  image = mfm_sector_image m p src b size gap

  abbrev layout : List ℕ
  layout = sector_layout (bytes src b size) gap

  image_lem : image ≡ store m p layout
  image_lem = mfm_sector_image-store m p src b size gap h hs fits

  layout-length : n ≡ length layout
  layout-length =
      count
      ∙ sym (
          length-sector_layout (bytes src b size) gap
          ∙ ap (λ k. 18 + k + gap) (length-bytes src b size))

  layout_small : All (λ x. x < 256) layout
  layout_small = sector_layout-IsByte (bytes src b size) gap (bytes-IsByte src b size hs)

  image-IsMem : IsMem image
  image-IsMem = rw image_lem (store-IsMem m p layout h)

  image-bytes : bytes image p n ≡ layout
  image-bytes = rw (image_lem, layout-length) (bytes-store m p layout layout_small)

  before : image (p - 1) ≡ m (p - 1)
  before = rw image_lem (store_outside m p layout (p - 1) (inl (omega arith)))

  pub cells_lem : words (bin_to_mfm image p n) p n ≡ encode (m (p - 1)) layout
  cells_lem = words-bin_to_mfm image p n image-IsMem pos ∙ ap₂ encode before image-bytes

  pub fixed_lem :
      words (fix_sync (bin_to_mfm image p n) (p + 24)) p n
      ≡ sector_cells (m (p - 1)) (bytes src b size) gap
  fixed_lem =
      fix_sync-sector_cells (bin_to_mfm image p n) p (m (p - 1)) (bytes src b size) gap n
        (omega (arith, count, length-bytes src b size)) cells_lem

  up : suc (n - 1) ≡ n
  up = omega (arith, count)

  cells-IsMem : IsMem (bin_to_mfm image p n)
  cells-IsMem = (bin_to_mfm-IsEncoded image p n image-IsMem pos).is_mem

  fixed-IsMem : IsMem (fix_sync (bin_to_mfm image p n) (p + 24))
  fixed-IsMem =
      rw (fix_sync-put_words (bin_to_mfm image p n) (p + 24))
        (put_words-IsMem _ _ (p + 24) cells-IsMem)

  pub check_lem : mfm_check (bin_to_mfm image p n) (p + 2) (n - 1) ≡ []
  check_lem =
      mfm_check-encode (bin_to_mfm image p n) p (n - 1) (m (p - 1)) 0 (drop 1 layout) cells-IsMem
        (omega arith) refl layout_small.1 (ap (words (bin_to_mfm image p n) p) up ∙ cells_lem)

-- What `ibm_mfm_write_sector` makes of what its search has found.
abbrev write_found : ℕ → ℕ → List ℕ → ℕ → ℕ → Option Found → Option SectorWrite
write_found p dam_bytes warnings ticks_per_cell now result = elim result [
  | none ↦ none
  | some found ↦
      let deadline = u32 (found.hit.end + time_sysclk (22 * 16 * ticks_per_cell)) in
      some (record {
        cells = words found.mem p dam_bytes;
        warnings = bad_words warnings ++ found.warnings;
        delay = ticks_to_wait now deadline;
        rest = found.rest;
      })
]

-- The write of a sector, in terms of the data, the byte before the buffer and the match.
abbrev pub sector_write : List ℕ → ℕ → ℕ → ℕ → ℕ → Match → SectorWrite
sector_write cells prev gap3 ticks_per_cell now r = record {
  cells = sector_cells prev cells (even_gap gap3);
  warnings = r.warnings;
  delay = ticks_to_wait now (u32 (r.hit.end + time_sysclk (22 * 16 * ticks_per_cell)));
  rest = r.rest;
}

module _ (m : Mem) (p q : ℕ) (src : Mem) (b : ℕ) (idam : Idam) (gap3 ticks_per_cell now : ℕ)
    (r : Match) (h : IsMem m) (hs : IsMem src) (pos : 0 < p)
    (fits : 19 + sector_bytes idam.n + gap3 < 2 ^ 32)
    (apart : (q + 20 ≤ p) ⊎ (p + 2 * (18 + sector_bytes idam.n + even_gap gap3) ≤ q)) where
  abbrev size : ℕ
  size = sector_bytes idam.n

  abbrev total : ℕ
  total = 18 + size + even_gap gap3

  abbrev fixed : Mem
  fixed = fix_sync (bin_to_mfm (mfm_sector_image m p src b size (even_gap gap3)) p total) (p + 24)

  -- The write of `n` words with the gap `gap` behind the data.
  abbrev write_with : List Capture → ℕ → ℕ → Option SectorWrite
  write_with captures gap n =
      let cells = bin_to_mfm (mfm_sector_image m p src b size gap) p n in
      write_found p n (mfm_check cells (p + 2) (n - 1)) ticks_per_cell now
        (ibm_mfm_search (fix_sync cells (p + 24)) q idam captures)

  count : total ≡ 18 + size + even_gap gap3
  count = refl

  total_lem : dam_length size gap3 + gap3 % 2 ≡ total
  total_lem = omega (arith, length_lem gap3 idam.n fits)

  found-IsSearch :
      (captures : List Capture)
      → IsIdam idam
      → SearchCaptures idam captures
      → IsSearch fixed q (first_match idam [] captures) (ibm_mfm_search fixed q idam captures)
  found-IsSearch captures k good =
      ibm_mfm_search-IsSearch fixed q idam captures
        (fixed-IsMem m p src b size (even_gap gap3) total h hs pos (omega arith) count) k good

  written :
      (f : Found)
      → ((a : ℕ) → (a < q) ⊎ (q + 20 ≤ a) → f.mem a ≡ fixed a)
      → match_of f ≡ r
      → write_found p total [] ticks_per_cell now (some f)
        ≡ some (sector_write (bytes src b size) (m (p - 1)) gap3 ticks_per_cell now r)
  written f o e =
      ap₂
        (λ (cells : List ℕ) (x : Match). some (record {
          cells = cells;
          warnings = x.warnings;
          delay = ticks_to_wait now (u32 (x.hit.end + time_sysclk (22 * 16 * ticks_per_cell)));
          rest = x.rest;
        }))
        (words_ext f.mem fixed p total (λ a l u. o a (omega arith))
          ∙ fixed_lem m p src b size (even_gap gap3) total h hs pos (omega arith) count)
        e

  written_of_match :
      (o : Option Found)
      → ((f : Found) → o ≡ some f → (a : ℕ) → (a < q) ⊎ (q + 20 ≤ a) → f.mem a ≡ fixed a)
      → Option.map match_of o ≡ some r
      → write_found p total [] ticks_per_cell now o
        ≡ some (sector_write (bytes src b size) (m (p - 1)) gap3 ticks_per_cell now r)
  written_of_match none o e = cc
  written_of_match (some f) o e = written f (o f refl) (some-injective _ _ e)

  -- `ibm_mfm_write_sector` hands the sector's bitcells to `floppy_write`: when its search ends at a
  -- header, its buffers are apart and the length fits in 32 bits, these are the MFM of twelve zero
  -- bytes behind whatever byte precedes the buffer, three sync words, the MFM of data mark, data and
  -- CRC, and that of the gap made even; the only warnings are the search's, and the delay is what is
  -- left of the second gap behind the header.
  pub ibm_mfm_write_sector-sector_write :
      (captures : List Capture)
      → IsIdam idam
      → SearchCaptures idam captures
      → first_match idam [] captures ≡ some r
      → ibm_mfm_write_sector m p q src b idam gap3 ticks_per_cell now captures
        ≡ some (sector_write (bytes src b size) (m (p - 1)) gap3 ticks_per_cell now r)
  unfolding ibm_mfm_write_sector
  ibm_mfm_write_sector-sector_write captures k good e =
      let s = found-IsSearch captures k good in
      ap (λ pad. write_with captures (gap3 + pad) (dam_length size gap3 + pad))
        (padding_lem gap3 idam.n fits)
      ∙ ap (write_with captures (even_gap gap3)) total_lem
      ∙ ap (λ w. write_found p total w ticks_per_cell now (ibm_mfm_search fixed q idam captures))
          (check_lem m p src b size (even_gap gap3) total h hs pos (omega arith) count)
      ∙ written_of_match (ibm_mfm_search fixed q idam captures) s.outside (s.same ∙ e)
