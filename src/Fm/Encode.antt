-- ===== src/Fm/Encode.antt =====
-- `bin_to_fm` encodes in place, from the end backwards.
use flashfloppy_testbed.Prelude.{
  ℕ, zero, suc, ◌+◌, ◌-◌, ◌*◌, ◌<◌, ◌≤◌, ◌≡◌, ◌⊎◌, inl, inr, refl, arith,
}
use flashfloppy_testbed.Prelude.{◌==◌, Bool-cases, ap, sym, ◌∙◌, bit_or}
use flashfloppy_testbed.Mem.{Mem, IsMem, store16, rev16, word_at}
use flashfloppy_testbed.Mem.Access.{store16-IsMem, store16-rev16}
use flashfloppy_testbed.Mfm.{bintomfm}
use flashfloppy_testbed.Mfm.Spec.{word_data}
use flashfloppy_testbed.Mfm.Decode.{mfm_to_bin-IsDecoded}
use flashfloppy_testbed.Fm.{bin_to_fm_loop, bin_to_fm, fm_to_bin}
use flashfloppy_testbed.Fm.Spec.{fm_word}
use flashfloppy_testbed.Fm.Table.{bintomfm-fm_word, word_data-fm_word, fm_word-lt}

-- `m'` holds the `nr` bytes of `m` at `p` as big-endian FM words at `p`, and is `m` elsewhere.
pub record IsFmEncoded (m m' : Mem) (p nr : ℕ) : Type 0 where
  pub is_mem : IsMem m'
  pub inside : (k : ℕ) → k < nr → word_at m' (p + k * 2) ≡ fm_word (m (p + k))
  pub outside : (a : ℕ) → (a < p) ⊎ (p + nr * 2 ≤ a) → m' a ≡ m a

module _ (m : Mem) (p nr : ℕ) (h : IsMem m) where
  abbrev cell : ℕ
  cell = bit_or (bintomfm (m (p + nr))) 0xaaaa

  abbrev stored : Mem
  stored = store16 m (p + nr * 2) (rev16 cell)

  cell_lem : cell ≡ fm_word (m (p + nr))
  cell_lem = bintomfm-fm_word (m (p + nr)) (h (p + nr))

  cell-lt : cell < 65536
  cell-lt = omega (arith, cell_lem, fm_word-lt (m (p + nr)))

  kept : (a : ℕ) → (a < p + nr * 2) ⊎ (p + nr * 2 + 2 ≤ a) → stored a ≡ m a
  kept a o = ground (arith, store16-rev16 m (p + nr * 2) cell a cell-lt)

  word_stored : word_at stored (p + nr * 2) ≡ cell
  word_stored = ground (
    arith,
    store16-rev16 m (p + nr * 2) cell (p + nr * 2) cell-lt,
    store16-rev16 m (p + nr * 2) cell (p + nr * 2 + 1) cell-lt,
  )

  IsFmEncoded-snoc : (r : Mem) → 0 < p → IsFmEncoded stored r p nr → IsFmEncoded m r p (suc nr)
  IsFmEncoded-snoc r pos rest = record {
    is_mem = rest.is_mem;
    inside = λ k l. elim (Bool-cases (k == nr)) [
      | inl last ↦ ground (
        arith,
        word_stored,
        cell_lem,
        rest.outside (p + k * 2) (ground arith),
        rest.outside (p + k * 2 + 1) (ground arith),
      )
      | inr before ↦ ground (arith, rest.inside k (ground arith), kept (p + k) (ground arith))
    ];
    outside = λ a o. ground (arith, rest.outside a, kept a);
  }

loop-IsFmEncoded :
    (nr : ℕ) (m : Mem) (p in_ out x : ℕ)
    → IsMem m
    → 0 < p
    → in_ + 1 ≡ p + nr
    → out ≡ p + nr * 2
    → x ≡ m in_
    → IsFmEncoded m (bin_to_fm_loop m in_ out x nr) p nr
unfolding bin_to_fm_loop
loop-IsFmEncoded zero m p in_ out x h pos e f g = record {
  is_mem = h;
  inside = λ k l. absurd (omega arith);
  outside = λ a o. refl;
}
loop-IsFmEncoded (suc nr) m p in_ out x h pos e f g =
    let at : in_ ≡ p + nr = omega arith in
    let end : out - 2 ≡ p + nr * 2 = omega arith in
    let rest =
      loop-IsFmEncoded nr (stored m p nr h) p (p + nr - 1) (p + nr * 2) (m (p + nr - 1))
        (store16-IsMem m (p + nr * 2) (rev16 (cell m p nr h)) h) pos (omega arith) refl
        (sym (kept m p nr h (p + nr - 1) (inl (omega arith)))) in
    rw (g, at, end) (IsFmEncoded-snoc m p nr h _ pos rest)

-- `bin_to_fm(p, nr)` leaves each byte at `p` as its FM word at `p`, and changes no other byte.
pub bin_to_fm-IsFmEncoded :
    (m : Mem) (p nr : ℕ) → IsMem m → 0 < p → IsFmEncoded m (bin_to_fm m p nr) p nr
unfolding bin_to_fm
bin_to_fm-IsFmEncoded m p nr h pos =
    loop-IsFmEncoded nr m p (p + nr - 1) (p + nr * 2) (m (p + nr - 1)) h pos (omega arith) refl refl

-- Decoding what `bin_to_fm` wrote gives every byte of the buffer back.
pub fm_to_bin-bin_to_fm :
    (m : Mem) (p nr k : ℕ)
    → IsMem m
    → 0 < p
    → k < nr
    → fm_to_bin (bin_to_fm m p nr) p nr (p + k) ≡ m (p + k)
unfolding fm_to_bin
fm_to_bin-bin_to_fm m p nr k h pos l =
    let enc = bin_to_fm-IsFmEncoded m p nr h pos in
    let dec = mfm_to_bin-IsDecoded (bin_to_fm m p nr) p nr enc.is_mem in
    dec.inside k l ∙ ap word_data (enc.inside k l) ∙ word_data-fm_word (m (p + k)) (h (p + k))
