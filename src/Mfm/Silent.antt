-- ===== src/Mfm/Silent.antt =====
-- When `mfm_check` is silent about a range of which the word before is known.
use flashfloppy_testbed.Prelude.{ℕ, suc, ◌+◌, ◌-◌, ◌/◌, ◌%◌, ◌<◌, ◌≡◌, ◌∙◌, ap, ap₂, arith}
use flashfloppy_testbed.Prelude.{List, [], ◌∷◌, All, drop, get_or}
use flashfloppy_testbed.Mem.{Mem, IsMem, words, word_at, load16}
use flashfloppy_testbed.Mfm.{mfm_check}
use flashfloppy_testbed.Mfm.Spec.{mfm_word}
use flashfloppy_testbed.Mfm.Asm.{mfm_word_middle}
use flashfloppy_testbed.Mfm.Words.{encode, misclocked, mfm_check-misclocked, misclocked-encode}

-- What `in[-1]` gives without a byte swap.
load_parity :
    (m : Mem) (p d x : ℕ)
    → IsMem m
    → d < 2
    → x < 256
    → word_at m p ≡ mfm_word d x
    → load16 m p % 2 ≡ x / 16 % 2
unfolding load16
load_parity m p d x h k l e = omega (arith, e, mfm_word_middle d x k l, h p, h (p + 1))

-- The words behind that of a byte whose bits 4 and 0 are the same pass `mfm_check`.
pub mfm_check-encode :
    (m : Mem) (p n prev x : ℕ) (xs : List ℕ)
    → IsMem m
    → x < 256
    → x / 16 % 2 ≡ x % 2
    → All (λ x. x < 256) xs
    → words m p (suc n) ≡ encode prev (x ∷ xs)
    → mfm_check m (p + 2) n ≡ []
mfm_check-encode m p n prev x xs h byte bits small e =
    mfm_check-misclocked m (p + 2) n h
    ∙ ap₂ (λ a l. misclocked (load16 m a) 0 l) two_back (ap (drop 1) e)
    ∙ misclocked-encode x (load16 m p) 0 xs small
        (load_parity m p (prev % 2) x h (omega arith) byte first ∙ bits)
  where
    two_back : p + 2 - 2 ≡ p
    two_back = omega arith

    first : word_at m p ≡ mfm_word (prev % 2) x
    first = ap (λ (l : List ℕ). get_or l 0 0) e
