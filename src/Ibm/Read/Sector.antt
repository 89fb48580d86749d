-- ===== src/Ibm/Read/Sector.antt =====
-- `ibm_mfm_read_sector` on a well-formed sector.
use mathlib.Core.Option
use mathlib.Core.Option.{some-injective}
use mathlib.Core.List.{append-nil}
use flashfloppy_testbed.Prelude.{ℕ, ◌+◌, ◌%◌, ◌<◌, ◌≡◌, ◌∙◌, refl, ap, ap₂, sym, arith}
use flashfloppy_testbed.Prelude.{
  List, [], ◌∷◌, ◌++◌, map, length, length-append, All, take, drop, take-append,
}
use flashfloppy_testbed.Prelude.{Option, none, some, get_or}
use flashfloppy_testbed.Mem.{Mem, IsMem, words, word_at, load16, put_words}
use flashfloppy_testbed.Mem.Bytes.{length-bytes}
use flashfloppy_testbed.Mem.Words.{words-append, words-put_words, put_words-IsMem}
use flashfloppy_testbed.Mfm.Spec.{mfm_word, word_data}
use flashfloppy_testbed.Mfm.Words.{
  encode, map-word_data-encode, misclocked, misclocked-encode, length-encode, encode-lt,
}
use flashfloppy_testbed.Ibm.{
  Idam, Capture, Warning, Found, SectorRead, mfm_sector_data, ibm_mfm_read_sector,
}
use flashfloppy_testbed.Ibm.{ibm_mfm_search, sector_bytes}
use flashfloppy_testbed.Ibm.Layout.{
  data_block, crc_bytes, marked, marked-IsByte, with_crc-IsByte, behind_sync, block_cells,
}
use flashfloppy_testbed.Ibm.Read.Search.{
  IsIdam, SearchCaptures, first_match, Match, match_of, ibm_mfm_search-IsSearch,
}
use flashfloppy_testbed.Ibm.Read.Data.{mfm_sector_data_silent_iff, split_block, decoded-words, buf}

-- The clock before a data mark does not depend on the sync word.
mark_clock : mfm_word 1 0xfb ≡ mfm_word 0 0xfb
unfolding mfm_word
mark_clock = refl

sync_data : word_data 0x4489 ≡ 0xa1
unfolding word_data
sync_data = refl

tail_of : (xs : List ℕ) → All (λ x. x < 256) xs → All (λ x. x < 256) (behind_sync 0xfb xs)
tail_of xs small =
    (with_crc-IsByte (marked 0xfb xs) (marked-IsByte 0xfb xs (omega arith) small)).1.1.1

module _ (m : Mem) (p : ℕ) (xs : List ℕ) (h : IsMem m) (small : All (λ x. x < 256) xs)
    (read : words m p (4 + length xs + 2) ≡ block_cells (behind_sync 0xfb xs)) where
  tail_small : All (λ x. x < 256) (behind_sync 0xfb xs)
  tail_small = tail_of xs small

  block_data : map word_data (words m p (4 + length xs + 2)) ≡ data_block xs
  block_data =
      ap (map word_data) read
      ∙ ap₂ (λ (s : ℕ) (l : List ℕ). s ∷ s ∷ s ∷ l) sync_data
          (map-word_data-encode 0xa1 (behind_sync 0xfb xs) tail_small)

  returned : buf m p (length xs) h ≡ xs
  returned =
      sym (
        take-append (length xs) (buf m p (length xs) h) _
          (sym (length-bytes _ (p + 4) (length xs))))
      ∙ ap (λ (l : List ℕ). take (length xs) (drop 4 l))
          (sym (split_block m p (length xs) h) ∙ sym (decoded-words m p (length xs) h) ∙ block_data)
      ∙ take-append (length xs) xs (crc_bytes (marked 0xfb xs)) refl

  behind : words m (p + 6) (length xs + 3) ≡ encode 0xa1 (behind_sync 0xfb xs)
  behind = ap (drop 3) (
      sym (words-append m p 3 (length xs + 3) (p + 6) (4 + length xs + 2) refl (omega arith))
      ∙ read)

  third_word : word_at m (p + 2 + 2) ≡ 0x4489
  third_word =
      ap (λ (l : List ℕ). get_or l 2 0)
        (sym (words-append m p 3 (length xs + 3) (p + 6) (4 + length xs + 2) refl (omega arith))
          ∙ read)

  even : load16 m (p + 2 + 2) % 2 ≡ 0
  unfolding load16
  even = omega (arith, third_word, h (p + 2 + 2), h (p + 2 + 2 + 1))

  two_on : p + 4 ≡ p + 2 + 2
  two_on = omega arith

  third : load16 m (p + 4) % 2 ≡ 0
  third = ap (λ t. load16 m t % 2) two_on ∙ even

  clocked : misclocked (load16 m (p + 4)) 0 (words m (p + 6) (length xs + 3)) ≡ []
  clocked =
      ap (misclocked (load16 m (p + 4)) 0)
        (behind ∙ ap (λ w. w ∷ encode 0xfb (xs ++ crc_bytes (marked 0xfb xs))) mark_clock)
      ∙ misclocked-encode 0 (load16 m (p + 4)) 0 (behind_sync 0xfb xs) tail_small third

  -- A captured sector that is well formed is returned as it is, with no warning.
  pub mfm_sector_data-block_cells : mfm_sector_data m p (length xs) ≡ (xs, [])
  unfolding mfm_sector_data
  mfm_sector_data-block_cells =
      ap₂ (λ (a : List ℕ) (b : List Warning). (a, b)) returned
        ((mfm_sector_data_silent_iff m p (length xs) h).1
          (block_data ∙ ap data_block (sym returned), clocked))

-- What `ibm_mfm_read_sector` makes of what its search has found.
abbrev read_found : ℕ → Idam → Option Found → Option SectorRead
read_found p idam result = elim result [
  | none ↦ none
  | some found ↦ elim found.rest [
    | [] ↦ none
    | c ∷ rest ↦
        let (buf, warnings) =
          mfm_sector_data (put_words found.mem p c.cells) p (sector_bytes idam.n) in
        some (record { buf = buf; warnings = found.warnings ++ warnings; rest = rest })
  ]
]

module _ (p : ℕ) (idam : Idam) (data_ : List ℕ) (warnings : List Warning) (hit c : Capture)
    (rest : List Capture) (small : All (λ x. x < 256) data_)
    (size : sector_bytes idam.n ≡ length data_)
    (written : c.cells ≡ block_cells (behind_sync 0xfb data_)) where
  cells_small : All (λ w. w < 65536) c.cells
  cells_small = rw written (
    (omega arith),
    ((omega arith), ((omega arith), encode-lt 0xa1 (behind_sync 0xfb data_) (tail_of data_ small))),
  )

  cells_length : length c.cells ≡ 4 + length data_ + 2
  cells_length = rw written (
      omega (
        arith,
        length-encode 0xa1 (behind_sync 0xfb data_),
        length-append {0} data_ (crc_bytes (marked 0xfb data_)),
      ))

  filled :
      (m : Mem)
      → words (put_words m p c.cells) p (4 + length data_ + 2)
        ≡ block_cells (behind_sync 0xfb data_)
  filled m =
      words-put_words c.cells m p (4 + length data_ + 2) cells_small (sym cells_length) ∙ written

  sector_found :
      (f : Found)
      → IsMem f.mem
      → f.warnings ≡ warnings
      → f.rest ≡ c ∷ rest
      → read_found p idam (some f) ≡ some (record { buf = data_; warnings = warnings; rest = rest })
  sector_found f h e k =
      rw
        (
          k,
          e,
          size,
          mfm_sector_data-block_cells (put_words f.mem p c.cells) p data_
              (put_words-IsMem c.cells f.mem p h) small (filled f.mem),
        )
        (ap (λ (w : List Warning). some (record { buf = data_; warnings = w; rest = rest }))
          (append-nil warnings))

  sector_of_match :
      (r : Option Found)
      → ((f : Found) → r ≡ some f → IsMem f.mem)
      → Option.map match_of r ≡ some (record { warnings = warnings; hit = hit; rest = c ∷ rest })
      → read_found p idam r ≡ some (record { buf = data_; warnings = warnings; rest = rest })
  sector_of_match none h e = cc
  sector_of_match (some f) h e =
      let same = some-injective _ _ e in
      sector_found f (h f refl) (ap (λ (x : Match). x.warnings) same)
        (ap (λ (x : Match). x.rest) same)

  -- `ibm_mfm_read_sector` returns the data of a well-formed sector: when the search ends at a header,
  -- and the capture behind it holds the bitcells of a data block with the sector's size of data, the
  -- result is that data, with the search's warnings and no other.
  pub ibm_mfm_read_sector-block_cells :
      (m : Mem) (q : ℕ) (captures : List Capture)
      → IsMem m
      → IsIdam idam
      → SearchCaptures idam captures
      → first_match idam [] captures
        ≡ some (record { warnings = warnings; hit = hit; rest = c ∷ rest })
      → ibm_mfm_read_sector m p q idam captures
        ≡ some (record { buf = data_; warnings = warnings; rest = rest })
  unfolding ibm_mfm_read_sector
  ibm_mfm_read_sector-block_cells m q captures h k good e =
      let s = ibm_mfm_search-IsSearch m q idam captures h k good in
      sector_of_match (ibm_mfm_search m q idam captures) s.is_mem (s.same ∙ e)
