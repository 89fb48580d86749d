-- ===== src/Mfm/Check.antt =====
-- `mfm_check` on what `bin_to_mfm` wrote. Its first word is judged by `in[-1]` read with no byte
-- swap, so by data bit 4 of the byte before in place of data bit 0.
use flashfloppy_testbed.Prelude.{
  ℕ, zero, suc, ◌+◌, ◌-◌, ◌*◌, ◌/◌, ◌%◌, ◌<◌, ◌≡◌, refl, arith, [], ◌∷◌,
}
use flashfloppy_testbed.Prelude.{◌==◌, leb, ◌||◌, Bool, if◌then◌else◌, ap, ◌∙◌}
use flashfloppy_testbed.Mem.{Mem, IsMem, load16, rev16}
use flashfloppy_testbed.Mem.Access.{rev16-load16}
use flashfloppy_testbed.Mfm.{bintomfm, mfmtobin, clear_clock, bin_to_mfm, mfm_check, mfm_check_loop}
use flashfloppy_testbed.Mfm.Spec.{mfm_word, word_data}
use flashfloppy_testbed.Mfm.Asm.{
  clear_clock-mfm_word, word_data-mfm_word, mfm_word_parity, mfm_word_middle, mfm_word_clock,
}
use flashfloppy_testbed.Mfm.Decode.{decoded-word_data, word_at-lt}
use flashfloppy_testbed.Mfm.Encode.{IsEncoded, bin_to_mfm-IsEncoded}

module _ (m r : Mem) (p n : ℕ) (h : IsMem m) (enc : IsEncoded m r p n) where
  -- What the check expects at word `k`, behind the word `a`.
  expected :
      (k a : ℕ)
      → k < n
      → a < 65536
      → clear_clock (bintomfm (mfmtobin (rev16 (load16 r (p + k * 2))))) a
        ≡ mfm_word (a % 2) (m (p + k))
  expected k a l small =
      let decoded : mfmtobin (rev16 (load16 r (p + k * 2))) ≡ m (p + k) =
        decoded-word_data r (p + k * 2) enc.is_mem
        ∙ ap word_data (enc.inside k l)
        ∙ word_data-mfm_word (m (p + k - 1) % 2) (m (p + k)) (omega arith) (h (p + k)) in
      ap (λ (x : ℕ). clear_clock (bintomfm x) a) decoded
      ∙ clear_clock-mfm_word (m (p + k)) a (h (p + k)) small

  found : (k : ℕ) → k < n → rev16 (load16 r (p + k * 2)) ≡ mfm_word (m (p + k - 1) % 2) (m (p + k))
  found k l = rev16-load16 r (p + k * 2) enc.is_mem ∙ enc.inside k l

  found_parity : (k : ℕ) → k < n → rev16 (load16 r (p + k * 2)) % 2 ≡ m (p + k) % 2
  found_parity k l =
      ground (
        arith,
        found k l,
        mfm_word_parity (m (p + k - 1) % 2) (m (p + k)) (omega arith) (h (p + k)),
      )

  -- Behind a properly read word nothing is wrong.
  loop_clean :
      (j k in_ a i : ℕ)
      → k + j ≡ n
      → 0 < k
      → in_ ≡ p + k * 2
      → a < 65536
      → a % 2 ≡ m (p + k - 1) % 2
      → mfm_check_loop r in_ a i j ≡ []
  unfolding mfm_check_loop
  loop_clean zero k in_ a i e pos f small par = refl
  loop_clean (suc j) k in_ a i e pos f small par = rw f (
      ground (
        arith,
        expected k a (omega arith) small,
        found k (omega arith),
        loop_clean j (k + 1) (p + k * 2 + 2) (rev16 (load16 r (p + k * 2))) (i + 1) (omega arith)
            (omega arith) (omega arith)
            (omega
              (arith, rev16-load16 r (p + k * 2) enc.is_mem, word_at-lt r (p + k * 2) enc.is_mem))
            (omega (arith, found_parity k (omega arith), ap m (index k))),
      ))
    where
      index : (k : ℕ) → p + (k + 1) - 1 ≡ p + k
      index k = omega arith

same_word :
    (u v x : ℕ) → u < 2 → v < 2 → x < 256 → (mfm_word u x == mfm_word v x) ≡ (v == u || leb 128 x)
same_word zero zero x h k l = ground arith
same_word zero (suc zero) x h k l = ground (arith, mfm_word_clock x l)
same_word (suc zero) zero x h k l = ground (arith, mfm_word_clock x l)
same_word (suc zero) (suc zero) x h k l = ground arith
same_word (suc (suc u)) v x h k l = absurd (omega arith)
same_word u (suc (suc v)) x h k l = absurd (omega arith)

before : (p : ℕ) → p + 1 - 1 ≡ p
before p = omega arith

second : (p : ℕ) → p + 1 ≡ p + 2 - 1
second p = omega arith

-- The first word is judged by the low byte of the swapped word before it.
module _ (m r : Mem) (p nr : ℕ) (h : IsMem m) (enc : IsEncoded m r p (suc (suc nr))) where
  swapped_parity : load16 r p % 2 ≡ m p / 16 % 2
  unfolding load16
  swapped_parity = ground (
    arith,
    enc.is_mem p,
    enc.is_mem (p + 1),
    enc.inside 0 (omega arith),
    mfm_word_middle (m (p + 0 - 1) % 2) (m (p + 0)) (omega arith) (h (p + 0)),
  )

  swapped-lt : load16 r p < 65536
  unfolding load16
  swapped-lt = omega (arith, enc.is_mem p, enc.is_mem (p + 1))

  -- whether the first word passes
  first_passes : Bool
  first_passes = mfm_word (m p % 2) (m (p + 1)) == mfm_word (m p / 16 % 2) (m (p + 1))

  first_passes_lem : first_passes ≡ (m p / 16 % 2 == m p % 2 || leb 128 (m (p + 1)))
  unfolding first_passes
  first_passes_lem =
      same_word (m p % 2) (m p / 16 % 2) (m (p + 1)) (omega arith) (omega arith) (h (p + 1))

  check_first :
      mfm_check_loop r (p + 2) (load16 r p) 0 (suc nr) ≡ (if first_passes then [] else 0 ∷ [])
  unfolding mfm_check_loop first_passes
  check_first = ground (
    arith,
    expected m r p (suc (suc nr)) h enc 1 (load16 r p) (omega arith) swapped-lt,
    found m r p (suc (suc nr)) h enc 1 (omega arith),
    swapped_parity,
    ap (λ (t : ℕ). mfm_word (m t % 2) (m (p + 1))) (before p),
    loop_clean m r p (suc (suc nr)) h enc nr 2 (p + 2 + 2) (rev16 (load16 r (p + 2))) 1
        (omega arith) (omega arith) (omega arith)
        (omega (arith, rev16-load16 r (p + 1 * 2) enc.is_mem, word_at-lt r (p + 1 * 2) enc.is_mem))
        (found_parity m r p (suc (suc nr)) h enc 1 (omega arith)
          ∙ ap (λ (t : ℕ). m t % 2) (second p)),
  )

-- The check of all but the first of at least two words that `bin_to_mfm` wrote is silent, unless
-- data bits 4 and 0 of the first byte differ and the second byte has a leading zero bit: then it
-- warns of the second word, though that is right.
pub mfm_check-bin_to_mfm :
    (m : Mem) (p nr : ℕ)
    → IsMem m
    → 0 < p
    → mfm_check (bin_to_mfm m p (suc (suc nr))) (p + 2) (suc nr)
      ≡ (if m p / 16 % 2 == m p % 2 || leb 128 (m (p + 1)) then [] else 0 ∷ [])
unfolding mfm_check
mfm_check-bin_to_mfm m p nr h pos =
    let enc = bin_to_mfm-IsEncoded m p (suc (suc nr)) h pos in
    let r = bin_to_mfm m p (suc (suc nr)) in
    rw (at p) (
      check_first m r p nr h enc
      ∙ ap (λ (b : Bool). if b then [] else 0 ∷ []) (first_passes_lem m r p nr h enc))
  where
    at : (p : ℕ) → p + 2 - 2 ≡ p
    at p = omega arith
