-- ===== src/Mem/Words.antt =====
-- Big-endian words in memory as lists: splitting a range, and storing a list of words.
use flashfloppy_testbed.Prelude.{
  ℕ, zero, suc, ◌+◌, ◌*◌, ◌<◌, ◌≤◌, ◌≡◌, ◌⊎◌, inl, inr, ◌∙◌, refl, ap, ap₂, sym, arith,
}
use flashfloppy_testbed.Prelude.{List, [], ◌∷◌, ◌++◌, length, All}
use flashfloppy_testbed.Prelude.{take, drop, take-append, drop-append}
use flashfloppy_testbed.Mem.{Mem, IsMem, bytes, words, word_at, store16, rev16, put_words, store}
use flashfloppy_testbed.Mem.Access.{store16-IsMem, store16-rev16}
use flashfloppy_testbed.Mem.Bytes.{words_ext, bytes_ext, store_outside, bytes-append, bytes-store}

suc-add : (n k : ℕ) → suc (n + k) ≡ suc n + k
suc-add n k = omega arith

pub words-append :
    (m : Mem) (p n k q t : ℕ) → q ≡ p + n * 2 → t ≡ n + k → words m p t ≡ words m p n ++ words m q k
words-append m p zero k q t e f = ap₂ (words m) (omega arith) (omega arith)
words-append m p (suc n) k q zero e f = absurd (omega arith)
words-append m p (suc n) k q (suc t) e f =
    ap (λ l. word_at m p ∷ l) (words-append m (p + 2) n k q t (omega arith) (omega arith))

pub length-words : (m : Mem) (p n : ℕ) → length (words m p n) ≡ n
length-words m p zero = refl
length-words m p (suc n) = ap suc (length-words m (p + 2) n)

pub put_words_outside :
    (ws : List ℕ) (m : Mem) (p a : ℕ)
    → All (λ w. w < 65536) ws
    → (a < p) ⊎ (p + length ws * 2 ≤ a)
    → put_words m p ws a ≡ m a
unfolding put_words
put_words_outside [] m p a h o = refl
put_words_outside (w ∷ ws) m p a h o =
    ground (
      arith,
      h.0,
      put_words_outside ws (store16 m p (rev16 w)) (p + 2) a h.1,
      store16-rev16 m p w a,
    )

pub put_words-IsMem : (ws : List ℕ) (m : Mem) (p : ℕ) → IsMem m → IsMem (put_words m p ws)
unfolding put_words
put_words-IsMem [] m p h = h
put_words-IsMem (w ∷ ws) m p h =
    put_words-IsMem ws (store16 m p (rev16 w)) (p + 2) (store16-IsMem m p (rev16 w) h)

-- The words just stored are read back.
pub words-put_words :
    (ws : List ℕ) (m : Mem) (p n : ℕ)
    → All (λ w. w < 65536) ws
    → n ≡ length ws
    → words (put_words m p ws) p n ≡ ws
unfolding put_words
words-put_words [] m p zero h e = refl
words-put_words [] m p (suc n) h e = absurd (omega arith)
words-put_words (w ∷ ws) m p zero h e = absurd (omega arith)
words-put_words (w ∷ ws) m p (suc n) h e =
    ap₂ ◌∷◌
      (ground (
        arith,
        h.0,
        put_words_outside ws (store16 m p (rev16 w)) (p + 2) p h.1 (inl (omega arith)),
        put_words_outside ws (store16 m p (rev16 w)) (p + 2) (p + 1) h.1 (inl (omega arith)),
        store16-rev16 m p w p,
        store16-rev16 m p w (p + 1),
      ))
      (words-put_words ws (store16 m p (rev16 w)) (p + 2) n h.1 (omega arith))

-- Where the words of a range are an append, its two parts are the words of the two halves.
pub words_split :
    (m : Mem) (q k n t u : ℕ) (xs ys : List ℕ)
    → k ≡ length xs
    → t ≡ q + k * 2
    → u ≡ k + n
    → words m q u ≡ xs ++ ys
    → (words m q k ≡ xs) × (words m t n ≡ ys)
words_split m q k n t u xs ys e f g read =
    let whole = sym (words-append m q k n t u f g) ∙ read in
    (
      sym (take-append k (words m q k) (words m t n) (sym (length-words m q k)))
          ∙ ap (take k) whole
          ∙ take-append k xs ys e,
      sym (drop-append k (words m q k) (words m t n) (sym (length-words m q k)))
          ∙ ap (drop k) whole
          ∙ drop-append k xs ys e,
    )

-- Storing words in the middle of a range of words.
pub words-put_words_inside :
    (m : Mem) (p n : ℕ) (ws : List ℕ) (k s t u : ℕ)
    → All (λ w. w < 65536) ws
    → s ≡ p + n * 2
    → t ≡ s + length ws * 2
    → u ≡ n + length ws + k
    → words (put_words m s ws) p u ≡ words m p n ++ (ws ++ words m t k)
words-put_words_inside m p n ws k s t u h e f g =
    words-append (put_words m s ws) p n (length ws + k) s u e (omega arith)
    ∙ ap₂ ◌++◌
        (words_ext (put_words m s ws) m p n
          (λ a l r. put_words_outside ws m s a h (inl (omega arith))))
        (words-append (put_words m s ws) s (length ws) k t (length ws + k) f refl
          ∙ ap₂ ◌++◌ (words-put_words ws m s (length ws) h refl) (
              words_ext (put_words m s ws) m t k
                (λ a l r. put_words_outside ws m s a h (inr (omega arith)))))

-- Appending to a filled range by storing right behind it.
pub bytes-store_behind :
    (m : Mem) (p n q t : ℕ) (xs : List ℕ)
    → All (λ x. x < 256) xs
    → q ≡ p + n
    → t ≡ n + length xs
    → bytes (store m q xs) p t ≡ bytes m p n ++ xs
bytes-store_behind m p n q t xs h e f =
    ap (bytes (store m q xs) p) f
    ∙ sym (bytes-append (store m q xs) p n (length xs) q (sym e))
    ∙ ap₂ ◌++◌
        (bytes_ext (store m q xs) m p n (λ a l u. store_outside m q xs a (inl (omega arith))))
        (bytes-store m q xs h)
