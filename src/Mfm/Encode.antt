-- ===== src/Mfm/Encode.antt =====
-- `bin_to_mfm` encodes in place, from the end backwards.
use flashfloppy_testbed.Prelude.{
  ℕ, zero, suc, ◌+◌, ◌-◌, ◌*◌, ◌%◌, ◌<◌, ◌≤◌, ◌≡◌, ◌⊎◌, inl, inr, refl, arith,
}
use flashfloppy_testbed.Prelude.{◌==◌, Bool-cases, ap, sym, ◌∙◌}
use flashfloppy_testbed.Mem.{Mem, IsMem, store16, rev16, word_at}
use flashfloppy_testbed.Mem.Access.{store16-IsMem, store16-rev16}
use flashfloppy_testbed.Mfm.{bintomfm, clear_clock, bin_to_mfm_loop, bin_to_mfm, mfm_to_bin}
use flashfloppy_testbed.Mfm.Spec.{mfm_word, word_data}
use flashfloppy_testbed.Mfm.Asm.{clear_clock-mfm_word, mfm_word-lt, word_data-mfm_word}
use flashfloppy_testbed.Mfm.Decode.{mfm_to_bin-IsDecoded}

-- `m'` holds the `nr` bytes of `m` at `p` as big-endian MFM words at `p`, each clocked behind the
-- byte before it in `m`, and is `m` elsewhere.
pub record IsEncoded (m m' : Mem) (p nr : ℕ) : Type 0 where
  pub is_mem : IsMem m'
  pub inside : (k : ℕ) → k < nr → word_at m' (p + k * 2) ≡ mfm_word (m (p + k - 1) % 2) (m (p + k))
  pub outside : (a : ℕ) → (a < p) ⊎ (p + nr * 2 ≤ a) → m' a ≡ m a

module _ (m : Mem) (p nr : ℕ) (h : IsMem m) where
  abbrev cell : ℕ
  cell = clear_clock (bintomfm (m (p + nr))) (m (p + nr - 1))

  abbrev stored : Mem
  stored = store16 m (p + nr * 2) (rev16 cell)

  cell_lem : cell ≡ mfm_word (m (p + nr - 1) % 2) (m (p + nr))
  cell_lem =
      clear_clock-mfm_word (m (p + nr)) (m (p + nr - 1)) (h (p + nr))
        (omega (arith, h (p + nr - 1)))

  cell-lt : cell < 65536
  cell-lt =
      omega
        (arith, cell_lem, mfm_word-lt (m (p + nr - 1) % 2) (m (p + nr)) (omega arith) (h (p + nr)))

  kept : (a : ℕ) → (a < p + nr * 2) ⊎ (p + nr * 2 + 2 ≤ a) → stored a ≡ m a
  kept a o = ground (arith, store16-rev16 m (p + nr * 2) cell a cell-lt)

  word_stored : word_at stored (p + nr * 2) ≡ cell
  word_stored = ground (
    arith,
    store16-rev16 m (p + nr * 2) cell (p + nr * 2) cell-lt,
    store16-rev16 m (p + nr * 2) cell (p + nr * 2 + 1) cell-lt,
  )

  IsEncoded-snoc : (r : Mem) → 0 < p → IsEncoded stored r p nr → IsEncoded m r p (suc nr)
  IsEncoded-snoc r pos rest = record {
    is_mem = rest.is_mem;
    inside = λ k l. elim (Bool-cases (k == nr)) [
      | inl last ↦ ground (
        arith,
        word_stored,
        cell_lem,
        rest.outside (p + k * 2) (ground arith),
        rest.outside (p + k * 2 + 1) (ground arith),
      )
      | inr before ↦ ground (
        arith,
        rest.inside k (ground arith),
        kept (p + k) (ground arith),
        kept (p + k - 1) (ground arith),
      )
    ];
    outside = λ a o. ground (arith, rest.outside a, kept a);
  }

loop-IsEncoded :
    (nr : ℕ) (m : Mem) (p in_ out x : ℕ)
    → IsMem m
    → 0 < p
    → in_ + 1 ≡ p + nr
    → out ≡ p + nr * 2
    → x ≡ m in_
    → IsEncoded m (bin_to_mfm_loop m in_ out x nr) p nr
unfolding bin_to_mfm_loop
loop-IsEncoded zero m p in_ out x h pos e f g = record {
  is_mem = h;
  inside = λ k l. absurd (omega arith);
  outside = λ a o. refl;
}
loop-IsEncoded (suc nr) m p in_ out x h pos e f g =
    let at : in_ ≡ p + nr = omega arith in
    let end : out - 2 ≡ p + nr * 2 = omega arith in
    let m1 = stored m p nr h in
    let rest =
      loop-IsEncoded nr m1 p (p + nr - 1) (p + nr * 2) (m (p + nr - 1))
        (store16-IsMem m (p + nr * 2) (rev16 (cell m p nr h)) h) pos (omega arith) refl
        (sym (kept m p nr h (p + nr - 1) (inl (omega arith)))) in
    rw (g, at, end) (IsEncoded-snoc m p nr h _ pos rest)

-- Every cell pair of `bin_to_mfm(p, nr)` follows the MFM rule, also across byte boundaries and from
-- the byte at `p - 1`, which the last round reads; no other byte changes.
pub bin_to_mfm-IsEncoded :
    (m : Mem) (p nr : ℕ) → IsMem m → 0 < p → IsEncoded m (bin_to_mfm m p nr) p nr
unfolding bin_to_mfm
bin_to_mfm-IsEncoded m p nr h pos =
    loop-IsEncoded nr m p (p + nr - 1) (p + nr * 2) (m (p + nr - 1)) h pos (omega arith) refl refl

-- Decoding what `bin_to_mfm` wrote gives every byte of the buffer back.
pub mfm_to_bin-bin_to_mfm :
    (m : Mem) (p nr k : ℕ)
    → IsMem m
    → 0 < p
    → k < nr
    → mfm_to_bin (bin_to_mfm m p nr) p nr (p + k) ≡ m (p + k)
mfm_to_bin-bin_to_mfm m p nr k h pos l =
    let enc = bin_to_mfm-IsEncoded m p nr h pos in
    let dec = mfm_to_bin-IsDecoded (bin_to_mfm m p nr) p nr enc.is_mem in
    dec.inside k l
    ∙ ap word_data (enc.inside k l)
    ∙ word_data-mfm_word (m (p + k - 1) % 2) (m (p + k)) (omega arith) (h (p + k))
