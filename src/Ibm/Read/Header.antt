-- ===== src/Ibm/Read/Header.antt =====
-- The three tests of `ibm_mfm_search` together: the ten bytes are the header's, mark, IDAM and CRC.
use flashfloppy_testbed.Prelude.{
  ℕ, ◌+◌, ◌*◌, ◌/◌, ◌%◌, ◌<◌, ◌≡◌, ◌↔◌, ◌∙◌, refl, ap, ap₂, sym, arith,
}
use flashfloppy_testbed.Prelude.{List, [], ◌∷◌, ◌++◌, All, Bool, true, false, not, ◌||◌, ◌==◌}
use flashfloppy_testbed.Prelude.{==_iff, take, drop}
use flashfloppy_testbed.Prelude.Int.{is_zero}
use flashfloppy_testbed.Mem.{Mem, IsMem, bytes}
use flashfloppy_testbed.Mem.Bytes.{bytes-IsByte}
use flashfloppy_testbed.Util.Compare.{memcmp, rom}
use flashfloppy_testbed.Util.Compare.Memcmp.{
  same_bytes, same_bytes_refl, eq_of_same_bytes, memcmp-same_bytes,
}
use flashfloppy_testbed.Crc.{crc16_ccitt}
use flashfloppy_testbed.Crc.Spec.{divide}
use flashfloppy_testbed.Crc.Refine.{crc16_ccitt-divide}
use flashfloppy_testbed.Crc.Residue.{divide-append, divide_two_iff}
use flashfloppy_testbed.Ibm.{Idam, idam_bytes, mfm_idam_mark, mismatch}
use flashfloppy_testbed.Ibm.Layout.{header_block, marked, with_crc, divide-lt, marked-IsByte}

-- A CRC over `xs` and two more bytes is zero exactly when those are the CRC of `xs`.
pub crc_bytes_iff :
    (xs : List ℕ) (b d : ℕ)
    → All (λ x. x < 256) xs
    → b < 256
    → d < 256
    → (divide (xs ++ (b ∷ d ∷ [])) 0xffff ≡ 0) ↔ (divide xs 0xffff ≡ b * 256 + d)
crc_bytes_iff xs b d h k l =
    rw (divide-append xs (b ∷ d ∷ []) 0xffff)
      (divide_two_iff (divide xs 0xffff) b d (divide-lt xs 0xffff h (omega arith)) k l)

-- What is left of the CRC's two bytes when the check gives zero.
pub with_crc_of_zero :
    (xs : List ℕ) (b d : ℕ)
    → All (λ x. x < 256) xs
    → b < 256
    → d < 256
    → divide (xs ++ (b ∷ d ∷ [])) 0xffff ≡ 0
    → xs ++ (b ∷ d ∷ []) ≡ with_crc xs
with_crc_of_zero xs b d h k l e =
    let crc = (crc_bytes_iff xs b d h k l).0 e in
    ap₂ (λ (s t : ℕ). xs ++ (s ∷ t ∷ [])) (omega (arith, crc)) (omega (arith, crc))

pub divide-with_crc : (xs : List ℕ) → All (λ x. x < 256) xs → divide (with_crc xs) 0xffff ≡ 0
divide-with_crc xs h =
    let small : divide xs 0xffff < 65536 = divide-lt xs 0xffff h (omega arith) in
    (crc_bytes_iff xs (divide xs 0xffff / 256) (divide xs 0xffff % 256) h (omega arith)
        (omega arith)).1
      (omega arith)

pub eq_of_iff : (a b : Bool) → (a ≡ true → b ≡ true) → (b ≡ true → a ≡ true) → a ≡ b
eq_of_iff true true f g = refl
eq_of_iff true false f g = sym (f refl)
eq_of_iff false true f g = g refl
eq_of_iff false false f g = refl

all_three :
    (a b c : Bool) → not (not a || not b || not c) ≡ true → (a ≡ true) × (b ≡ true) × (c ≡ true)
all_three a b c e = ground arith

three_tests : (a b c : Bool) → a ≡ true → b ≡ true → c ≡ true → not (not a || not b || not c) ≡ true
three_tests a b c e f g = ground arith

module _ (m : Mem) (p : ℕ) (idam : Idam) (h : IsMem m)
    (id_bytes : All (λ x. x < 256) (idam_bytes idam)) where
  -- the ten bytes at `p`
  abbrev ten : List ℕ
  ten = bytes m p 10

  abbrev head_ : List ℕ
  head_ = marked 0xfe (idam_bytes idam)

  four_on : p + 4 ≡ p + 1 + 1 + 1 + 1
  four_on = omega arith

  mark_test : is_zero (memcmp m p (rom mfm_idam_mark) 0 4) ≡ same_bytes (take 4 ten) mfm_idam_mark
  mark_test = memcmp-same_bytes 4 m p (rom mfm_idam_mark) 0

  idam_test :
      is_zero (memcmp m (p + 4) (rom (idam_bytes idam)) 0 4)
      ≡ same_bytes (take 4 (drop 4 ten)) (idam_bytes idam)
  idam_test =
      memcmp-same_bytes 4 m (p + 4) (rom (idam_bytes idam)) 0
      ∙ ap (λ (t : ℕ). same_bytes (bytes m t 4) (idam_bytes idam)) four_on

  crc_test : crc16_ccitt m p 10 0xffff ≡ divide ten 0xffff
  crc_test = crc16_ccitt-divide m p 10 0xffff h (omega arith)

  accepted :
      same_bytes (take 4 ten) mfm_idam_mark ≡ true
      → same_bytes (take 4 (drop 4 ten)) (idam_bytes idam) ≡ true
      → divide ten 0xffff ≡ 0
      → ten ≡ with_crc head_
  accepted mark id crc =
      let starts : take 8 ten ≡ head_ =
        ap₂ ◌++◌ (eq_of_same_bytes (take 4 ten) mfm_idam_mark mark)
          (eq_of_same_bytes (take 4 (drop 4 ten)) (idam_bytes idam) id) in
      with_crc_of_zero (take 8 ten) (m (p + 1 + 1 + 1 + 1 + 1 + 1 + 1 + 1))
        (m (p + 1 + 1 + 1 + 1 + 1 + 1 + 1 + 1 + 1)) (bytes-IsByte m p 8 h)
        (h (p + 1 + 1 + 1 + 1 + 1 + 1 + 1 + 1)) (h (p + 1 + 1 + 1 + 1 + 1 + 1 + 1 + 1 + 1)) crc
      ∙ ap with_crc starts

  mark_of_header : ten ≡ with_crc head_ → same_bytes (take 4 ten) mfm_idam_mark ≡ true
  mark_of_header e = ap (λ (l : List ℕ). same_bytes (take 4 l) mfm_idam_mark) e

  idam_of_header : ten ≡ with_crc head_ → same_bytes (take 4 (drop 4 ten)) (idam_bytes idam) ≡ true
  idam_of_header e =
      ap (λ (l : List ℕ). same_bytes (take 4 (drop 4 l)) (idam_bytes idam)) e
      ∙ same_bytes_refl (idam_bytes idam)

  crc_of_header : ten ≡ with_crc head_ → divide ten 0xffff ≡ 0
  crc_of_header e =
      ap (λ (l : List ℕ). divide l 0xffff) e
      ∙ divide-with_crc head_ (marked-IsByte 0xfe (idam_bytes idam) (omega arith) id_bytes)

  forth : not (mismatch m p idam) ≡ true → same_bytes ten (header_block (idam_bytes idam)) ≡ true
  unfolding mismatch
  forth e =
      let tests =
        all_three (is_zero (memcmp m p (rom mfm_idam_mark) 0 4))
          (is_zero (memcmp m (p + 4) (rom (idam_bytes idam)) 0 4)) (crc16_ccitt m p 10 0xffff == 0)
          e in
      ap (λ (l : List ℕ). same_bytes l (with_crc head_))
        (accepted (sym mark_test ∙ tests.0) (sym idam_test ∙ tests.1)
          (sym crc_test ∙ (==_iff _ 0).0 tests.2))
      ∙ same_bytes_refl (with_crc head_)

  back : same_bytes ten (header_block (idam_bytes idam)) ≡ true → not (mismatch m p idam) ≡ true
  unfolding mismatch
  back e =
      let same : ten ≡ with_crc head_ = eq_of_same_bytes ten (with_crc head_) e in
      three_tests (is_zero (memcmp m p (rom mfm_idam_mark) 0 4))
        (is_zero (memcmp m (p + 4) (rom (idam_bytes idam)) 0 4)) (crc16_ccitt m p 10 0xffff == 0)
        (mark_test ∙ mark_of_header same) (idam_test ∙ idam_of_header same)
        ((==_iff _ 0).1 (crc_test ∙ crc_of_header same))

  -- The loop of `ibm_mfm_search` goes on exactly while the ten bytes are not the header's.
  pub mismatch-same_bytes :
      mismatch m p idam ≡ not (same_bytes ten (header_block (idam_bytes idam)))
  mismatch-same_bytes =
      twice (mismatch m p idam)
      ∙ ap not (eq_of_iff (not (mismatch m p idam)) (same_bytes ten (with_crc head_)) forth back)
    where
      twice : (b : Bool) → b ≡ not (not b)
      twice true = refl
      twice false = refl
