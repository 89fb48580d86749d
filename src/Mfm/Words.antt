-- ===== src/Mfm/Words.antt =====
-- The conversions as functions on lists of bytes and words: what a client of src/mfm.c sees.
use flashfloppy_testbed.Prelude.{
  ℕ, zero, suc, ◌+◌, ◌-◌, ◌*◌, ◌%◌, ◌<◌, ◌≡◌, ◌∙◌, refl, ap, ap₂, sym, arith,
}
use flashfloppy_testbed.Prelude.{List, [], ◌∷◌, ◌++◌, map, length, All, ◌==◌, if◌then◌else◌}
use flashfloppy_testbed.Mem.{Mem, IsMem, bytes, words, word_at, load16}
use flashfloppy_testbed.Mem.Access.{rev16-load16}
use flashfloppy_testbed.Mfm.{mfm_to_bin, bin_to_mfm, mfm_check, mfm_check_loop}
use flashfloppy_testbed.Mfm.Spec.{mfm_word, word_data}
use flashfloppy_testbed.Mfm.Asm.{
  word_data-mfm_word, clear_clock-mfm_word, mfm_word_parity, word_data-lt, mfm_word-lt,
}
use flashfloppy_testbed.Mfm.Decode.{mfm_to_bin-IsDecoded, decoded-word_data, word_at-lt}
use flashfloppy_testbed.Mfm.Encode.{bin_to_mfm-IsEncoded}

-- The words of a byte string behind the byte `prev`.
abbrev pub encode : ℕ → List ℕ → List ℕ
encode prev [] = []
encode prev (x ∷ xs) = mfm_word (prev % 2) x ∷ encode x xs

-- The indices, from `i` on, of the words that are not the MFM of their own data behind the word `a`.
abbrev pub misclocked : ℕ → ℕ → List ℕ → List ℕ
misclocked a i [] = []
misclocked a i (w ∷ ws) =
    let rest = misclocked w (i + 1) ws in
    if w == mfm_word (a % 2) (word_data w) then rest else i ∷ rest

pub length-encode : (prev : ℕ) (xs : List ℕ) → length (encode prev xs) ≡ length xs
length-encode prev [] = refl
length-encode prev (x ∷ xs) = ap suc (length-encode x xs)

pub encode-lt :
    (prev : ℕ) (xs : List ℕ) → All (λ x. x < 256) xs → All (λ w. w < 65536) (encode prev xs)
encode-lt prev [] h = tt
encode-lt prev (x ∷ xs) h = (mfm_word-lt (prev % 2) x (omega arith) h.0, encode-lt x xs h.1)

-- The last byte of a string, behind `prev`.
abbrev pub last_of : ℕ → List ℕ → ℕ
last_of prev [] = prev
last_of prev (x ∷ xs) = last_of x xs

pub encode-append :
    (prev : ℕ) (xs ys : List ℕ)
    → encode prev (xs ++ ys) ≡ encode prev xs ++ encode (last_of prev xs) ys
encode-append prev [] ys = refl
encode-append prev (x ∷ xs) ys = ap (λ l. mfm_word (prev % 2) x ∷ l) (encode-append x xs ys)

pub map-word_data-encode :
    (prev : ℕ) (xs : List ℕ) → All (λ x. x < 256) xs → map word_data (encode prev xs) ≡ xs
map-word_data-encode prev [] h = refl
map-word_data-encode prev (x ∷ xs) h =
    ap₂ ◌∷◌ (word_data-mfm_word (prev % 2) x (omega arith) h.0) (map-word_data-encode x xs h.1)

pub misclocked-encode :
    (prev a i : ℕ) (xs : List ℕ)
    → All (λ x. x < 256) xs
    → a % 2 ≡ prev % 2
    → misclocked a i (encode prev xs) ≡ []
misclocked-encode prev a i [] h e = refl
misclocked-encode prev a i (x ∷ xs) h e = ground (
  arith,
  h.0,
  word_data-mfm_word (prev % 2) x (omega arith) h.0,
  misclocked-encode x (mfm_word (prev % 2) x) (i + 1) xs h.1
      (mfm_word_parity (prev % 2) x (omega arith) h.0),
)

next_byte : (p k : ℕ) → p + 1 + k ≡ p + suc k
next_byte p k = omega arith

next_word : (p k : ℕ) → p + 2 + k * 2 ≡ p + suc k * 2
next_word p k = omega arith

bytes_of_words :
    (n : ℕ) (m m' : Mem) (q p : ℕ)
    → ((k : ℕ) → k < n → m' (p + k) ≡ word_data (word_at m (q + k * 2)))
    → bytes m' p n ≡ map word_data (words m q n)
bytes_of_words zero m m' q p h = refl
bytes_of_words (suc n) m m' q p h =
    ap₂ ◌∷◌ (ap m' (same p) ∙ h 0 (omega arith) ∙ ap (λ t. word_data (word_at m t)) (sym (same q)))
      (bytes_of_words n m m' (q + 2) (p + 1) (λ k l.
        ap m' (next_byte p k)
        ∙ h (suc k) (omega arith)
        ∙ ap (λ t. word_data (word_at m t)) (sym (next_word q k))))
  where
    same : (u : ℕ) → u ≡ u + 0
    same u = omega arith

-- `mfm_to_bin(p, n)` replaces the `n` words at `p` by their data.
pub bytes-mfm_to_bin :
    (m : Mem) (p n : ℕ) → IsMem m → bytes (mfm_to_bin m p n) p n ≡ map word_data (words m p n)
bytes-mfm_to_bin m p n h =
    bytes_of_words n m (mfm_to_bin m p n) p p (mfm_to_bin-IsDecoded m p n h).inside

words_of_bytes :
    (n : ℕ) (m m' : Mem) (q p prev : ℕ)
    → prev % 2 ≡ m (p - 1) % 2
    → 0 < p
    → ((k : ℕ) → k < n → word_at m' (q + k * 2) ≡ mfm_word (m (p + k - 1) % 2) (m (p + k)))
    → words m' q n ≡ encode prev (bytes m p n)
words_of_bytes zero m m' q p prev e pos h = refl
words_of_bytes (suc n) m m' q p prev e pos h =
    ap₂ ◌∷◌
      (ap (word_at m') (same q)
        ∙ h 0 (omega arith)
        ∙ ap₂ mfm_word (ap (λ t. m t % 2) (before p pos) ∙ sym e) (ap m (sym (same p))))
      (words_of_bytes n m m' (q + 2) (p + 1) (m p) (ap (λ t. m t % 2) (back p)) (omega arith)
        (λ k l.
          ap (word_at m') (next_word q k)
          ∙ h (suc k) (omega arith)
          ∙ ap₂ (λ (s t : ℕ). mfm_word (m s % 2) (m t)) (behind p k) (sym (next_byte p k))))
  where
    same : (u : ℕ) → u ≡ u + 0
    same u = omega arith

    before : (u : ℕ) → 0 < u → u + 0 - 1 ≡ u - 1
    before u z = omega arith

    back : (u : ℕ) → u ≡ u + 1 - 1
    back u = omega arith

    behind : (u k : ℕ) → u + suc k - 1 ≡ u + 1 + k - 1
    behind u k = omega arith

-- `bin_to_mfm(p, n)` replaces the `n` bytes at `p` by their words behind the byte at `p - 1`.
pub words-bin_to_mfm :
    (m : Mem) (p n : ℕ)
    → IsMem m
    → 0 < p
    → words (bin_to_mfm m p n) p n ≡ encode (m (p - 1)) (bytes m p n)
words-bin_to_mfm m p n h pos =
    words_of_bytes n m (bin_to_mfm m p n) p p (m (p - 1)) refl pos
      (bin_to_mfm-IsEncoded m p n h pos).inside

loop-misclocked :
    (n : ℕ) (m : Mem) (p a i : ℕ)
    → IsMem m
    → a < 65536
    → mfm_check_loop m p a i n ≡ misclocked a i (words m p n)
unfolding mfm_check_loop
loop-misclocked zero m p a i h small = refl
loop-misclocked (suc n) m p a i h small = ground (
  arith,
  rev16-load16 m p h,
  decoded-word_data m p h,
  word_data-lt (word_at m p),
  word_at-lt m p h,
  clear_clock-mfm_word (word_data (word_at m p)) a,
  loop-misclocked n m (p + 2) (word_at m p) (i + 1) h (word_at-lt m p h),
)

-- `mfm_check(p, n)` warns of exactly the words that do not follow the MFM rule, where the first is
-- judged by the word at `p - 2` read with no byte swap.
pub mfm_check-misclocked :
    (m : Mem) (p n : ℕ) → IsMem m → mfm_check m p n ≡ misclocked (load16 m (p - 2)) 0 (words m p n)
unfolding mfm_check
mfm_check-misclocked m p n h = loop-misclocked n m p (load16 m (p - 2)) 0 h (load-lt (p - 2))
  where
    load-lt : (q : ℕ) → load16 m q < 65536
    load-lt q = unfold load16 in omega (arith, h q, h (q + 1))
