-- ===== src/Ibm/Write/Cells.antt =====
-- The bitcells that `ibm_mfm_write_sector` hands to `floppy_write`.
use flashfloppy_testbed.Prelude.{ℕ, ◌+◌, ◌≡◌, ◌∙◌, refl, ap, ap₂, sym, arith}
use flashfloppy_testbed.Prelude.{List, [], ◌∷◌, ◌++◌, length, replicate, take, drop}
use flashfloppy_testbed.Mem.{Mem, words, put_words, store16, rev16}
use flashfloppy_testbed.Mem.Words.{words-append, words-put_words_inside}
use flashfloppy_testbed.Mfm.Words.{encode, encode-append, last_of}
use flashfloppy_testbed.Ibm.Layout.{sector_layout, sector_cells, behind_sync}
use flashfloppy_testbed.Ibm.Write.{fix_sync}

pub fix_sync-put_words :
    (m : Mem) (s : ℕ) → fix_sync m s ≡ put_words m s (0x4489 ∷ 0x4489 ∷ 0x4489 ∷ [])
unfolding fix_sync put_words
fix_sync-put_words m s =
    ap (λ t. store16 (store16 (store16 m s (rev16 0x4489)) (s + 2) (rev16 0x4489)) t (rev16 0x4489))
      (four_on s)
  where
    four_on : (s : ℕ) → s + 4 ≡ s + 2 + 2
    four_on s = omega arith

module _ (prev : ℕ) (data_ : List ℕ) (gap : ℕ) where
  -- the bitcells before the sync words are fixed
  tail_cells :
      drop 15 (encode prev (sector_layout data_ gap))
      ≡ encode 0xa1 (behind_sync 0xfb data_)
        ++ encode (last_of 0xa1 (behind_sync 0xfb data_)) (replicate gap 0x4e)
  tail_cells = encode-append 0xa1 (behind_sync 0xfb data_) (replicate gap 0x4e)

  head_cells : take 12 (encode prev (sector_layout data_ gap)) ≡ encode prev (replicate 12 0x00)
  head_cells = refl

-- Fixing the sync words of a sector in MFM gives the sector as the drive delivers it.
pub fix_sync-sector_cells :
    (m : Mem) (p prev : ℕ) (data_ : List ℕ) (gap n : ℕ)
    → n ≡ 12 + 3 + (1 + length data_ + 2 + gap)
    → words m p n ≡ encode prev (sector_layout data_ gap)
    → words (fix_sync m (p + 24)) p n ≡ sector_cells prev data_ gap
fix_sync-sector_cells m p prev data_ gap n e h =
    ap (λ r. words r p n) (fix_sync-put_words m (p + 24))
    ∙ words-put_words_inside m p 12 (0x4489 ∷ 0x4489 ∷ 0x4489 ∷ []) (1 + length data_ + 2 + gap)
        (p + 24) (p + 30) n (omega arith, (omega arith, (omega arith, tt))) refl (omega arith) e
    ∙ ap₂ (λ (s t : List ℕ). s ++ (0x4489 ∷ 0x4489 ∷ 0x4489 ∷ t))
        (ap (take 12) (
            sym
              (words-append m p 12 (3 + (1 + length data_ + 2 + gap)) (p + 24) n refl (omega arith))
            ∙ h)
          ∙ head_cells prev data_ gap)
        (ap (drop 15) (
            sym (words-append m p 15 (1 + length data_ + 2 + gap) (p + 30) n refl (omega arith))
            ∙ h)
          ∙ tail_cells prev data_ gap)
