-- ===== src/Ibm/Fm/Data.antt =====
-- When the part of `ibm_fm_read_sector` behind the search is silent.
use flashfloppy_testbed.Prelude.{ℕ, suc, ◌+◌, ◌-◌, ◌≡◌, ◌↔◌, ◌∙◌, refl, ap, sym, arith}
use flashfloppy_testbed.Prelude.{List, [], ◌∷◌, ◌++◌, map, Bool, true, not, ◌==◌, ==_iff, get_or}
use flashfloppy_testbed.Mem.{Mem, IsMem, bytes, words}
use flashfloppy_testbed.Mem.Bytes.{bytes-append, bytes-IsByte}
use flashfloppy_testbed.Crc.{crc16_ccitt}
use flashfloppy_testbed.Crc.Spec.{divide}
use flashfloppy_testbed.Crc.Refine.{crc16_ccitt-divide}
use flashfloppy_testbed.Mfm.{mfm_to_bin}
use flashfloppy_testbed.Mfm.Spec.{word_data}
use flashfloppy_testbed.Mfm.Decode.{mfm_to_bin-IsDecoded}
use flashfloppy_testbed.Mfm.Words.{bytes-mfm_to_bin}
use flashfloppy_testbed.Fm.{fm_check, fm_to_bin}
use flashfloppy_testbed.Fm.Check.{unclocked, fm_check-unclocked}
use flashfloppy_testbed.Ibm.{warn_on, bad_words, bad_dam, bad_crc}
use flashfloppy_testbed.Ibm.Layout.{with_crc}
use flashfloppy_testbed.Ibm.Read.Header.{with_crc_of_zero, divide-with_crc}
use flashfloppy_testbed.Ibm.Fm.{fm_sector_data}

silent_parts :
    (is : List ℕ) (a b : Bool)
    → bad_words is ++ (warn_on (not a) bad_dam ++ warn_on (not b) bad_crc) ≡ []
    → (is ≡ []) × (a ≡ true) × (b ≡ true)
silent_parts [] a b e = ground arith
silent_parts (i ∷ is) a b e = cc

silent_from :
    (is : List ℕ) (a b : Bool)
    → is ≡ []
    → a ≡ true
    → b ≡ true
    → bad_words is ++ (warn_on (not a) bad_dam ++ warn_on (not b) bad_crc) ≡ []
silent_from is a b e f g = rw (e, f, g)

module _ (m : Mem) (p size : ℕ) (h : IsMem m) where
  abbrev len : ℕ
  len = 2 + size + 2

  abbrev decoded : Mem
  decoded = mfm_to_bin m p len

  abbrev buf : List ℕ
  buf = bytes decoded (p + 2) size

  abbrev block : List ℕ
  block = bytes decoded (p + 1) (suc (size + 2))

  decoded-IsMem : IsMem decoded
  decoded-IsMem = (mfm_to_bin-IsDecoded m p len h).is_mem

  tail_length : suc (size + 2) ≡ suc size + 2
  tail_length = omega arith

  two_on : p + 2 ≡ p + 1 + 1
  two_on = omega arith

  split_block : block ≡ (decoded (p + 1) ∷ buf) ++ bytes decoded (p + 1 + suc size) 2
  split_block =
      ap (bytes decoded (p + 1)) tail_length
      ∙ sym (bytes-append decoded (p + 1) (suc size) 2 (p + 1 + suc size) refl)
      ∙ ap (λ a. (decoded (p + 1) ∷ bytes decoded a size) ++ bytes decoded (p + 1 + suc size) 2)
          (sym two_on)

  lengths :
      (len - 1 ≡ suc (size + 2))
      × (len - 2 ≡ size + 2)
      × (len ≡ suc (suc (size + 2)))
      × (1 + size + 2 ≡ suc (size + 2))
  lengths = (omega arith, omega arith, omega arith, omega arith)

  crc_test : crc16_ccitt decoded (p + 1) (len - 1) 0xffff ≡ divide block 0xffff
  crc_test =
      ap (λ n. crc16_ccitt decoded (p + 1) n 0xffff) lengths.0
      ∙ crc16_ccitt-divide decoded (p + 1) (suc (size + 2)) 0xffff decoded-IsMem (omega arith)

  clock_test : fm_check m (p + 4) (len - 2) ≡ unclocked 0 (words m (p + 4) (size + 2))
  clock_test =
      fm_check-unclocked m (p + 4) (len - 2) h ∙ ap (λ n. unclocked 0 (words m (p + 4) n)) lengths.1

  decoded-words : map word_data (words m p (suc (suc (size + 2)))) ≡ decoded p ∷ block
  decoded-words =
      ap (λ n. map word_data (words m p n)) (sym lengths.2)
      ∙ sym (bytes-mfm_to_bin m p len h)
      ∙ ap (bytes decoded p) lengths.2

  framed : decoded (p + 1) ≡ 0xfb → divide block 0xffff ≡ 0 → block ≡ with_crc (0xfb ∷ buf)
  framed dam crc =
      split_block
      ∙ with_crc_of_zero (decoded (p + 1) ∷ buf) (decoded (p + 1 + suc size))
          (decoded (p + 1 + suc size + 1))
          (decoded-IsMem (p + 1), bytes-IsByte decoded (p + 2) size decoded-IsMem) (decoded-IsMem _)
          (decoded-IsMem _) (ap (λ (l : List ℕ). divide l 0xffff) (sym split_block) ∙ crc)
      ∙ ap (λ (d : ℕ). with_crc (d ∷ buf)) dam

  unframed : block ≡ with_crc (0xfb ∷ buf) → (decoded (p + 1) ≡ 0xfb) × (divide block 0xffff ≡ 0)
  unframed e = (
    ap (λ (l : List ℕ). get_or l 0 0) e,
    ap (λ (l : List ℕ). divide l 0xffff) e
        ∙ divide-with_crc (0xfb ∷ buf)
            (omega arith, bytes-IsByte decoded (p + 2) size decoded-IsMem),
  )

  -- A read of an FM sector of `size` bytes gives no warning exactly when the captured words behind
  -- the mark are FM words and the data of the captured words, but for the first, are the data mark,
  -- the bytes returned, and the CRC of these.
  pub fm_sector_data_silent_iff :
      let (buf, warnings) = fm_sector_data m p size in
      (warnings ≡ []) ↔ (
        (map word_data (words m (p + 2) (1 + size + 2)) ≡ with_crc (0xfb ∷ buf))
        × (unclocked 0 (words m (p + 4) (size + 2)) ≡ []))
  unfolding fm_sector_data fm_to_bin
  fm_sector_data_silent_iff = (
    λ e.
        (let parts = silent_parts (fm_check m (p + 4) (len - 2)) a b e in
          (
            tail_lem ∙ framed ((==_iff _ _).0 parts.1) (sym crc_test ∙ (==_iff _ _).0 parts.2),
            sym clock_test ∙ parts.0,
          )),
    λ e.
        (let parts = unframed (sym tail_lem ∙ e.0) in
          silent_from (fm_check m (p + 4) (len - 2)) a b (clock_test ∙ e.1) ((==_iff _ _).1 parts.0)
            ((==_iff _ _).1 (crc_test ∙ parts.1))),
  )
    where
      a : Bool
      a = decoded (p + 1) == 0xfb

      b : Bool
      b = crc16_ccitt decoded (p + 1) (len - 1) 0xffff == 0

      tail_of : List ℕ → List ℕ
      tail_of [] = []
      tail_of (x ∷ xs) = xs

      tail_lem : map word_data (words m (p + 2) (1 + size + 2)) ≡ block
      tail_lem = ap (λ n. map word_data (words m (p + 2) n)) lengths.3 ∙ ap tail_of decoded-words
