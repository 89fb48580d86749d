-- ===== src/Mfm/Decode.antt =====
-- `mfm_to_bin` decodes in place: the write pointer never overtakes the read pointer.
use flashfloppy_testbed.Prelude.{ℕ, zero, suc, ◌+◌, ◌*◌, ◌<◌, ◌≤◌, ◌≡◌, ◌⊎◌, refl, arith}
use flashfloppy_testbed.Prelude.{ap, ◌∙◌}
use flashfloppy_testbed.Mem.{Mem, IsMem, store8, load16, rev16, word_at}
use flashfloppy_testbed.Mem.Access.{store8-IsMem, rev16-load16}
use flashfloppy_testbed.Mfm.{mfmtobin, mfm_to_bin_loop, mfm_to_bin}
use flashfloppy_testbed.Mfm.Spec.{word_data}
use flashfloppy_testbed.Mfm.Asm.{mfmtobin-word_data, word_data-lt}

pub word_at-lt : (m : Mem) (p : ℕ) → IsMem m → word_at m p < 65536
word_at-lt m p h = omega (arith, h p, h (p + 1))

-- What one round stores.
pub decoded-word_data :
    (m : Mem) (p : ℕ) → IsMem m → mfmtobin (rev16 (load16 m p)) ≡ word_data (word_at m p)
decoded-word_data m p h =
    ap mfmtobin (rev16-load16 m p h) ∙ mfmtobin-word_data (word_at m p) (word_at-lt m p h)

-- `m'` holds the data of the `nr` words of `m` at `in_` as bytes at `out`, and is `m` elsewhere.
pub record IsDecoded (m m' : Mem) (in_ out nr : ℕ) : Type 0 where
  pub is_mem : IsMem m'
  pub inside : (k : ℕ) → k < nr → m' (out + k) ≡ word_data (word_at m (in_ + k * 2))
  pub outside : (a : ℕ) → (a < out) ⊎ (out + nr ≤ a) → m' a ≡ m a

module _ (m : Mem) (in_ out : ℕ) (h : IsMem m) (le : out ≤ in_) where
  abbrev decoded : ℕ
  decoded = mfmtobin (rev16 (load16 m in_))

  stored : store8 m out decoded out ≡ word_data (word_at m in_)
  unfolding store8
  stored = ground (arith, decoded-word_data m in_ h, word_data-lt (word_at m in_))

  kept : (a : ℕ) → (a < out) ⊎ (out < a) → store8 m out decoded a ≡ m a
  unfolding store8
  kept a o = ground arith

  IsDecoded-cons :
      (r : Mem) (nr : ℕ)
      → IsDecoded (store8 m out decoded) r (in_ + 2) (out + 1) nr
      → IsDecoded m r in_ out (suc nr)
  IsDecoded-cons r nr rest = record {
    is_mem = rest.is_mem;
    inside = inside;
    outside = λ a o. ground (arith, rest.outside a, kept a);
  }
    where
      inside : (k : ℕ) → k < suc nr → r (out + k) ≡ word_data (word_at m (in_ + k * 2))
      inside zero l = ground (arith, stored, rest.outside (out + 0), decoded-word_data m in_ h)
      inside (suc k) l =
          ground (arith, rest.inside k, kept (in_ + 2 + k * 2), kept (in_ + 2 + k * 2 + 1))

loop-IsDecoded :
    (nr : ℕ) (m : Mem) (in_ out : ℕ)
    → IsMem m
    → out ≤ in_
    → IsDecoded m (mfm_to_bin_loop m in_ out nr) in_ out nr
unfolding mfm_to_bin_loop
loop-IsDecoded zero m in_ out h le = record {
  is_mem = h;
  inside = λ k l. absurd (omega arith);
  outside = λ a o. refl;
}
loop-IsDecoded (suc nr) m in_ out h le = IsDecoded-cons m in_ out h le _ nr (
    loop-IsDecoded nr (store8 m out (decoded m in_ out h le)) (in_ + 2) (out + 1)
      (store8-IsMem m out (decoded m in_ out h le) h) (omega arith))

-- `mfm_to_bin(p, nr)` leaves the data bits of the `nr` big-endian words at `p` as `nr` bytes at
-- `p`, each word read before it is overwritten, and changes no other byte.
pub mfm_to_bin-IsDecoded : (m : Mem) (p nr : ℕ) → IsMem m → IsDecoded m (mfm_to_bin m p nr) p p nr
unfolding mfm_to_bin
mfm_to_bin-IsDecoded m p nr h = loop-IsDecoded nr m p p h (omega arith)
