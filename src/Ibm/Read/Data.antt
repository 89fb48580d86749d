-- ===== src/Ibm/Read/Data.antt =====
-- The part of `ibm_mfm_read_sector` behind the search: when it is silent, and what it returns then.
use flashfloppy_testbed.Prelude.{ℕ, ◌+◌, ◌-◌, ◌<◌, ◌≡◌, ◌↔◌, ◌∙◌, refl, ap, ap₂, sym, arith}
use flashfloppy_testbed.Prelude.{
  List, [], ◌∷◌, ◌++◌, map, All-append, Bool, true, not, ◌==◌, ==_iff, get_or,
}
use flashfloppy_testbed.Prelude.Int.{is_zero}
use flashfloppy_testbed.Mem.{Mem, IsMem, bytes, words, load16}
use flashfloppy_testbed.Mem.Bytes.{bytes-append, bytes-IsByte}
use flashfloppy_testbed.Util.Compare.{memcmp, rom}
use flashfloppy_testbed.Util.Compare.Memcmp.{same_bytes, memcmp-same_bytes, eq_of_same_bytes}
use flashfloppy_testbed.Crc.{crc16_ccitt}
use flashfloppy_testbed.Crc.Spec.{divide}
use flashfloppy_testbed.Crc.Refine.{crc16_ccitt-divide}
use flashfloppy_testbed.Mfm.{mfm_to_bin, mfm_check}
use flashfloppy_testbed.Mfm.Spec.{word_data}
use flashfloppy_testbed.Mfm.Decode.{mfm_to_bin-IsDecoded}
use flashfloppy_testbed.Mfm.Words.{bytes-mfm_to_bin, misclocked, mfm_check-misclocked}
use flashfloppy_testbed.Ibm.{
  warn_on, bad_words, bad_mark, bad_dam, bad_crc, mfm_idam_mark, mfm_sector_data,
}
use flashfloppy_testbed.Ibm.Layout.{data_block, with_crc, marked, marked-IsByte}
use flashfloppy_testbed.Ibm.Read.Header.{with_crc_of_zero, divide-with_crc}

silent_parts :
    (is : List ℕ) (a b c : Bool)
    → bad_words is
        ++ (warn_on (not a) bad_mark ++ (warn_on (not b) bad_dam ++ warn_on (not c) bad_crc))
      ≡ []
    → (is ≡ []) × (a ≡ true) × (b ≡ true) × (c ≡ true)
silent_parts [] a b c e = ground arith
silent_parts (i ∷ is) a b c e = cc

silent_from :
    (is : List ℕ) (a b c : Bool)
    → is ≡ []
    → a ≡ true
    → b ≡ true
    → c ≡ true
    → bad_words is
        ++ (warn_on (not a) bad_mark ++ (warn_on (not b) bad_dam ++ warn_on (not c) bad_crc))
      ≡ []
silent_from is a b c e f g h = rw (e, f, g, h)

module _ (m : Mem) (p size : ℕ) (h : IsMem m) where
  abbrev pub block_length : ℕ
  block_length = 4 + size + 2

  abbrev pub decoded : Mem
  decoded = mfm_to_bin m p block_length

  abbrev pub buf : List ℕ
  buf = bytes decoded (p + 4) size

  decoded-IsMem : IsMem decoded
  decoded-IsMem = (mfm_to_bin-IsDecoded m p block_length h).is_mem

  pub split_block :
      bytes decoded p block_length ≡ (bytes decoded p 4 ++ buf) ++ bytes decoded (p + (4 + size)) 2
  split_block =
      sym (bytes-append decoded p (4 + size) 2 (p + (4 + size)) refl)
      ∙ ap (λ (l : List ℕ). l ++ bytes decoded (p + (4 + size)) 2)
          (sym (bytes-append decoded p 4 size (p + 4) refl))

  three_on : p + 3 ≡ p + 1 + 1 + 1
  three_on = omega arith

  mark_test :
      is_zero (memcmp decoded p (rom mfm_idam_mark) 0 3)
      ≡ same_bytes (bytes decoded p 3) (0xa1 ∷ 0xa1 ∷ 0xa1 ∷ [])
  mark_test = memcmp-same_bytes 3 decoded p (rom mfm_idam_mark) 0

  crc_test :
      crc16_ccitt decoded p block_length 0xffff ≡ divide (bytes decoded p block_length) 0xffff
  crc_test = crc16_ccitt-divide decoded p block_length 0xffff decoded-IsMem (omega arith)

  framed :
      same_bytes (bytes decoded p 3) (0xa1 ∷ 0xa1 ∷ 0xa1 ∷ []) ≡ true
      → decoded (p + 3) ≡ 0xfb
      → divide (bytes decoded p block_length) 0xffff ≡ 0
      → bytes decoded p block_length ≡ data_block buf
  framed mark dam crc =
      let starts : bytes decoded p 4 ++ buf ≡ marked 0xfb buf =
        ap₂ (λ (s : List ℕ) (d : ℕ). s ++ (d ∷ buf))
          (eq_of_same_bytes (bytes decoded p 3) (0xa1 ∷ 0xa1 ∷ 0xa1 ∷ []) mark)
          (ap decoded (sym three_on) ∙ dam) in
      split_block
      ∙ with_crc_of_zero (bytes decoded p 4 ++ buf) (decoded (p + (4 + size)))
          (decoded (p + (4 + size) + 1))
          (All-append (λ x. x < 256) (bytes decoded p 4) buf
            (bytes-IsByte decoded p 4 decoded-IsMem)
            (bytes-IsByte decoded (p + 4) size decoded-IsMem))
          (decoded-IsMem (p + (4 + size))) (decoded-IsMem (p + (4 + size) + 1))
          (ap (λ (l : List ℕ). divide l 0xffff) (sym split_block) ∙ crc)
      ∙ ap with_crc starts

  module _ (e : bytes decoded p block_length ≡ data_block buf) where
    mark_of_block : same_bytes (bytes decoded p 3) (0xa1 ∷ 0xa1 ∷ 0xa1 ∷ []) ≡ true
    mark_of_block =
        ap
          (λ (l : List ℕ).
            same_bytes (get_or l 0 0 ∷ get_or l 1 0 ∷ get_or l 2 0 ∷ []) (0xa1 ∷ 0xa1 ∷ 0xa1 ∷ []))
          (sym split_block ∙ e)

    dam_of_block : decoded (p + 3) ≡ 0xfb
    dam_of_block = ap decoded three_on ∙ ap (λ (l : List ℕ). get_or l 3 0) (sym split_block ∙ e)

    crc_of_block : divide (bytes decoded p block_length) 0xffff ≡ 0
    crc_of_block =
        ap (λ (l : List ℕ). divide l 0xffff) e
        ∙ divide-with_crc (marked 0xfb buf)
            (marked-IsByte 0xfb buf (omega arith) (bytes-IsByte decoded (p + 4) size decoded-IsMem))

  check_length : block_length - 3 ≡ size + 3
  check_length = omega arith

  -- where `mfm_check` looks for the word before
  third_sync : p + 6 - 2 ≡ p + 4
  third_sync = omega arith

  clock_test :
      mfm_check m (p + 6) (block_length - 3)
      ≡ misclocked (load16 m (p + 4)) 0 (words m (p + 6) (size + 3))
  clock_test =
      mfm_check-misclocked m (p + 6) (block_length - 3) h
      ∙ ap₂ (λ (a n : ℕ). misclocked (load16 m a) 0 (words m (p + 6) n)) third_sync check_length

  pub decoded-words : map word_data (words m p block_length) ≡ bytes decoded p block_length
  decoded-words = sym (bytes-mfm_to_bin m p block_length h)

  -- A sector read of `size` bytes gives no warning exactly when the captured words behind the third
  -- sync word are clocked by the MFM rule and the data of all of them are sync bytes, data mark, the
  -- bytes returned, and the CRC of all that.
  pub mfm_sector_data_silent_iff :
      let (buf, warnings) = mfm_sector_data m p size in
      (warnings ≡ []) ↔ (
        (map word_data (words m p (4 + size + 2)) ≡ data_block buf)
        × (misclocked (load16 m (p + 4)) 0 (words m (p + 6) (size + 3)) ≡ []))
  unfolding mfm_sector_data
  mfm_sector_data_silent_iff = (forth, back)
    where
      a : Bool
      a = is_zero (memcmp decoded p (rom mfm_idam_mark) 0 3)

      b : Bool
      b = decoded (p + 3) == 0xfb

      c : Bool
      c = crc16_ccitt decoded p block_length 0xffff == 0

      forth :
          bad_words (mfm_check m (p + 6) (block_length - 3))
              ++ (warn_on (not a) bad_mark ++ (warn_on (not b) bad_dam ++ warn_on (not c) bad_crc))
            ≡ []
          → (map word_data (words m p block_length) ≡ data_block buf)
            × (misclocked (load16 m (p + 4)) 0 (words m (p + 6) (size + 3)) ≡ [])
      forth e =
          let parts = silent_parts (mfm_check m (p + 6) (block_length - 3)) a b c e in
          (
            decoded-words
                ∙ framed (sym mark_test ∙ parts.1) ((==_iff _ _).0 parts.2)
                    (sym crc_test ∙ (==_iff _ _).0 parts.3),
            sym clock_test ∙ parts.0,
          )

      back :
          (map word_data (words m p block_length) ≡ data_block buf)
            × (misclocked (load16 m (p + 4)) 0 (words m (p + 6) (size + 3)) ≡ [])
          → bad_words (mfm_check m (p + 6) (block_length - 3))
              ++ (warn_on (not a) bad_mark ++ (warn_on (not b) bad_dam ++ warn_on (not c) bad_crc))
            ≡ []
      back e =
          let block = sym decoded-words ∙ e.0 in
          silent_from (mfm_check m (p + 6) (block_length - 3)) a b c (clock_test ∙ e.1)
            (mark_test ∙ mark_of_block block) ((==_iff _ _).1 (dam_of_block block))
            ((==_iff _ _).1 (crc_test ∙ crc_of_block block))
