-- ===== src/Fm/Check.antt =====
-- `fm_check` accepts exactly the FM words.
use flashfloppy_testbed.Prelude.{ℕ, zero, suc, ◌+◌, ◌*◌, ◌<◌, ◌≡◌, refl, arith, []}
use flashfloppy_testbed.Prelude.{ap, sym, ◌∙◌, bit_or}
use flashfloppy_testbed.Mem.{Mem, IsMem, load16, rev16, word_at, words}
use flashfloppy_testbed.Prelude.{List, ◌∷◌, ◌==◌, if◌then◌else◌}
use flashfloppy_testbed.Mem.Access.{rev16-load16}
use flashfloppy_testbed.Mfm.{bintomfm, mfmtobin}
use flashfloppy_testbed.Mfm.Spec.{word_data}
use flashfloppy_testbed.Mfm.Asm.{word_data-lt}
use flashfloppy_testbed.Mfm.Decode.{decoded-word_data}
use flashfloppy_testbed.Fm.{bin_to_fm, fm_check, fm_check_loop}
use flashfloppy_testbed.Fm.Spec.{fm_word}
use flashfloppy_testbed.Fm.Table.{bintomfm-fm_word, word_data-fm_word}
use flashfloppy_testbed.Fm.Encode.{bin_to_fm-IsFmEncoded}

expected :
    (m : Mem) (p : ℕ)
    → IsMem m
    → bit_or (bintomfm (mfmtobin (rev16 (load16 m p)))) 0xaaaa ≡ fm_word (word_data (word_at m p))
expected m p h =
    ap (λ (x : ℕ). bit_or (bintomfm x) 0xaaaa) (decoded-word_data m p h)
    ∙ bintomfm-fm_word (word_data (word_at m p)) (word_data-lt (word_at m p))

loop_silent :
    (nr : ℕ) (m : Mem) (p i : ℕ)
    → IsMem m
    → ((k : ℕ) → k < nr → word_at m (p + k * 2) ≡ fm_word (word_data (word_at m (p + k * 2))))
    → fm_check_loop m p i nr ≡ []
unfolding fm_check_loop
loop_silent zero m p i h good = refl
loop_silent (suc nr) m p i h good = ground (
  arith,
  expected m p h,
  rev16-load16 m p h,
  good 0 (omega arith),
  loop_silent nr m (p + 2) (i + 1) h (λ k l. ground (arith, good (k + 1) (omega arith))),
)

-- `fm_check` is silent about the whole buffer that `bin_to_fm` wrote, its first word included.
pub fm_check-bin_to_fm :
    (m : Mem) (p nr : ℕ) → IsMem m → 0 < p → fm_check (bin_to_fm m p nr) p nr ≡ []
unfolding fm_check
fm_check-bin_to_fm m p nr h pos =
    let enc = bin_to_fm-IsFmEncoded m p nr h pos in
    loop_silent nr (bin_to_fm m p nr) p 0 enc.is_mem (λ k l.
      enc.inside k l
      ∙ ap fm_word
          (sym (ap word_data (enc.inside k l) ∙ word_data-fm_word (m (p + k)) (h (p + k)))))

-- Which of some words, counted from `i`, are not the FM words of their own data.
abbrev pub unclocked : ℕ → List ℕ → List ℕ
unclocked i [] = []
unclocked i (w ∷ ws) =
    if w == fm_word (word_data w) then unclocked (i + 1) ws else i ∷ unclocked (i + 1) ws

loop-unclocked :
    (nr : ℕ) (m : Mem) (p i : ℕ) → IsMem m → fm_check_loop m p i nr ≡ unclocked i (words m p nr)
unfolding fm_check_loop
loop-unclocked zero m p i h = refl
loop-unclocked (suc nr) m p i h =
    ground (arith, expected m p h, rev16-load16 m p h, loop-unclocked nr m (p + 2) (i + 1) h)

-- `fm_check` warns of exactly the words that are not the FM words of their own data bits.
pub fm_check-unclocked :
    (m : Mem) (p nr : ℕ) → IsMem m → fm_check m p nr ≡ unclocked 0 (words m p nr)
unfolding fm_check
fm_check-unclocked m p nr h = loop-unclocked nr m p 0 h
