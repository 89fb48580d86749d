-- ===== src/Amiga/Decode.antt =====
-- The data of an AmigaDOS sector: decoded in place, and copied to the caller's buffer.
use flashfloppy_testbed.Prelude.{
  ℕ, zero, suc, ◌+◌, ◌*◌, ◌/◌, ◌^◌, ◌<◌, ◌≤◌, ◌≡◌, ◌∙◌, refl, sym, ap, ap₂, arith, ◌∷◌, ◌++◌, map,
  drop, take, get_or, ◌⊎◌, inr,
}
use flashfloppy_testbed.Mem.{Mem, IsMem, u8}
use flashfloppy_testbed.Mfm.{rev32}
use flashfloppy_testbed.Util.Memory.{load32, store32, copy_words, memcpy}
use flashfloppy_testbed.Util.Memory.Copy.{IsLaid, word-IsLaid, words-IsLaid, Apart, memcpy-IsCopied}
use flashfloppy_testbed.Amiga.{be32, get_long, even, join}
use flashfloppy_testbed.Amiga.Read.{decode_data, sector_data}
use flashfloppy_testbed.Amiga.Cells.{data_of}
use flashfloppy_testbed.Amiga.Long.{data_of-halves}
use flashfloppy_testbed.Amiga.Swap.{be32-lt, join-load32, rev32-be32}
use flashfloppy_testbed.Amiga.Checksum.{longs}
use flashfloppy_testbed.Amiga.Sector.{take-longs, drop-longs}
use mathlib.Core.Path.{subst}

pub longs_ext :
    (m m' : Mem) (p n : ℕ)
    → ((a : ℕ) → p ≤ a → a < p + n * 4 → m a ≡ m' a)
    → longs m p n ≡ longs m' p n
unfolding be32 load32
longs_ext m m' p zero h = refl
longs_ext m m' p (suc n) h =
    ap₂ ◌∷◌
      (ap rev32 (
        omega (
          arith,
          h p (omega arith) (omega arith),
          h (p + 1) (omega arith) (omega arith),
          h (p + 2) (omega arith) (omega arith),
          h (p + 3) (omega arith) (omega arith),
        )))
      (longs_ext m m' (p + 4) n (λ a l k. h a (omega arith) (omega arith)))

-- The data at `p` are the even bits, those at `q` the odd ones.
decode_data-copy_words :
    (n : ℕ) (src m : Mem) (p q b : ℕ)
    → IsMem src
    → IsMem m
    → p + n * 4 ≤ q
    → map (data_of 16) (longs m p n) ≡ map (data_of 16) (map even (longs src b n))
    → map (data_of 16) (longs m q n) ≡ map (data_of 16) (longs src b n)
    → decode_data m p q n ≡ copy_words src m p b n
unfolding decode_data copy_words even
decode_data-copy_words zero src m p q b hs h far evens odds = refl
decode_data-copy_words (suc n) src m p q b hs h far evens odds =
    ap (λ t. decode_data (store32 m p t) (p + 4) (q + 4) n) joined
    ∙ decode_data-copy_words n src (store32 m p (load32 src b)) (p + 4) (q + 4) (b + 4) hs
        laid.is_mem (omega arith)
        (ap (map (data_of 16)) (kept (p + 4) (omega arith)) ∙ ap (drop 1) evens)
        (ap (map (data_of 16)) (kept (q + 4) (omega arith)) ∙ ap (drop 1) odds)
  where
    joined : join (load32 m p) (load32 m q) ≡ load32 src b
    joined =
        join-load32 m p q h (be32 src b) (
          omega (
            arith,
            ap (λ l. get_or l 0 0) evens,
            ap (λ l. get_or l 0 0) odds,
            data_of-halves 16 (be32 src b) (be32-lt src b hs),
          ))
        ∙ rev32-be32 src b hs

    laid : IsLaid src m (store32 m p (load32 src b)) p b 4
    laid = word-IsLaid src m p b hs h

    kept : (r : ℕ) → p + 4 ≤ r → longs (store32 m p (load32 src b)) r n ≡ longs m r n
    kept r o =
        longs_ext (store32 m p (load32 src b)) m r n (λ a l k. laid.outside a (inr (omega arith)))

-- `r` is `m` with 512 bytes of `src` at `dest`, but for the place where they were decoded.
pub record IsSectorRead (src m r : Mem) (dest b p : ℕ) : Type 0 where
  pub is_mem : IsMem r
  pub inside : (i : ℕ) → i < 512 → r (dest + i) ≡ src (b + i)
  pub outside : (a : ℕ) → (a < dest) ⊎ (dest + 512 ≤ a) → (a < p) ⊎ (p + 512 ≤ a) → r a ≡ m a

copied-IsSectorRead :
    (src m : Mem) (dest q b : ℕ)
    → IsMem src
    → IsMem m
    → Apart dest q 512
    → IsSectorRead src m (memcpy (copy_words src m q b 128) dest q 512) dest b q
copied-IsSectorRead src m dest q b hs h apart =
    let laid = words-IsLaid 128 src m q b 512 hs h (omega arith) in
    let copied =
      memcpy-IsCopied (copy_words src m q b 128) dest q 512 laid.is_mem (omega arith) apart in
    record {
      is_mem = copied.is_mem;
      inside = λ i l. copied.inside i l ∙ laid.inside i l;
      outside = λ a o k. copied.outside a o ∙ laid.outside a k;
    }

pub sector_data-IsSectorRead :
    (src m : Mem) (buf p b sec : ℕ)
    → IsMem src
    → IsMem m
    → u8 (get_long m (p + 4) / 2 ^ 8) ≡ sec
    → Apart (buf + sec * 512) (p + 60) 512
    → map (data_of 16) (longs m (p + 60) 256)
      ≡ map (data_of 16) (map even (longs src b 128) ++ longs src b 128)
    → IsSectorRead src m (sector_data m buf p) (buf + sec * 512) b (p + 60)
unfolding sector_data
sector_data-IsSectorRead src m buf p b sec hs h at apart held =
    subst (λ r. IsSectorRead src m r (buf + sec * 512) b (p + 60)) (sym same)
      (copied-IsSectorRead src m (buf + sec * 512) (p + 60) b hs h apart)
  where
    evens : map (data_of 16) (longs m (p + 60) 128) ≡ map (data_of 16) (map even (longs src b 128))
    evens = sym (take-longs (data_of 16) m (p + 60) 128 256 (omega arith)) ∙ ap (take 128) held

    odds : map (data_of 16) (longs m (p + 60 + 512) 128) ≡ map (data_of 16) (longs src b 128)
    odds =
        sym (
          drop-longs (data_of 16) m (p + 60) 128 128 256 (p + 60 + 512) (omega arith) (omega arith))
        ∙ ap (drop 128) held

    decoded : decode_data m (p + 60) (p + 60 + 512) 128 ≡ copy_words src m (p + 60) b 128
    decoded =
        decode_data-copy_words 128 src m (p + 60) (p + 60 + 512) b hs h (omega arith) evens odds

    same :
        sector_data m buf p
        ≡ memcpy (copy_words src m (p + 60) b 128) (buf + sec * 512) (p + 60) 512
    same = ap₂ (λ d s. memcpy d (buf + s * 512) (p + 60) 512) decoded at
