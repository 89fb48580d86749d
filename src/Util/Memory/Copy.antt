-- ===== src/Util/Memory/Copy.antt =====
-- `memcpy` copies disjoint ranges, and `memmove` any.
use flashfloppy_testbed.Prelude.{
  ℕ, zero, suc, ◌+◌, ◌-◌, ◌*◌, ◌/◌, ◌%◌, ◌^◌, ◌<◌, ◌≤◌, ◌≡◌, ◌∙◌, refl, ap, arith,
}
use flashfloppy_testbed.Prelude.{bit_and, ◌==◌, if◌then◌else◌, bit_or, ltb}
use flashfloppy_testbed.Prelude.{sym, Bool-cases, inl, inr, ◌&&◌, not, ◌⊎◌}
use flashfloppy_testbed.Mem.{Mem, IsMem, store8}
use flashfloppy_testbed.Mem.Access.{store8-IsMem}
use flashfloppy_testbed.Util.Memory.{
  load32, store32, copy_words, memcpy_fast, memcpy_loop, memcpy, whole_blocks,
}
use flashfloppy_testbed.Util.Memory.{memmove, memmove_down}
use flashfloppy_testbed.Util.Memory.Store.{whole_blocks_lem, block_rest}

-- `m'` holds the `n` bytes of `m` at `q` at `p`, and is `m` elsewhere.
pub record IsCopied (m m' : Mem) (p q n : ℕ) : Type 0 where
  pub is_mem : IsMem m'
  pub inside : (i : ℕ) → i < n → m' (p + i) ≡ m (q + i)
  pub outside : (a : ℕ) → (a < p) ⊎ (p + n ≤ a) → m' a ≡ m a

-- The ranges do not overlap, or the destination is the lower one.
abbrev pub Apart : ℕ → ℕ → ℕ → Type 0
Apart p q n = (p ≤ q) ⊎ (q + n ≤ p)

IsCopied-empty : (m : Mem) (p q : ℕ) → IsMem m → IsCopied m m p q 0
IsCopied-empty m p q h = record {
  is_mem = h;
  inside = λ i l. absurd (omega arith);
  outside = λ a o. refl;
}

-- One copy behind another.
IsCopied-append :
    (m m1 m2 : Mem) (p q n k p' q' t : ℕ)
    → Apart p q t
    → p' ≡ p + n
    → q' ≡ q + n
    → t ≡ n + k
    → IsCopied m m1 p q n
    → IsCopied m1 m2 p' q' k
    → IsCopied m m2 p q t
IsCopied-append m m1 m2 p q n k p' q' t apart e f g first second = record {
  is_mem = second.is_mem;
  inside = inside;
  outside = λ a o. ground (arith, second.outside a, first.outside a);
}
  where
    later : (i : ℕ) → i < t → (i < n) ⊎ (n ≤ i) → m2 (p + i) ≡ m (q + i)
    later i l (inl low) = ground (arith, second.outside (p + i), first.inside i)
    later i l (inr high) = ground (
      arith,
      ap m2 (at p p' (e)),
      second.inside (i - n) (omega arith),
      ap m1 (at q q' f),
      first.outside (q + i),
    )
      where
        at : (u v : ℕ) → v ≡ u + n → u + i ≡ v + (i - n)
        at u v w = omega arith

    inside : (i : ℕ) → i < t → m2 (p + i) ≡ m (q + i)
    inside i l = later i l (omega arith)

byte-IsCopied : (m : Mem) (p q : ℕ) → IsMem m → IsCopied m (store8 m p (m q)) p q 1
unfolding store8
byte-IsCopied m p q h = record {
  is_mem = λ a. ground (arith, h a, h q);
  inside = λ i l. ground (arith, h q, ap m (first q i l));
  outside = λ a o. ground arith;
}
  where
    first : (u i : ℕ) → i < 1 → u + i ≡ u
    first u i l = omega arith

loop-IsCopied :
    (n : ℕ) (m : Mem) (p q : ℕ) → IsMem m → Apart p q n → IsCopied m (memcpy_loop m p q n) p q n
unfolding memcpy_loop
loop-IsCopied zero m p q h apart = IsCopied-empty m p q h
loop-IsCopied (suc n) m p q h apart =
    IsCopied-append m (store8 m p (m q)) _ p q 1 n (p + 1) (q + 1) (suc n) apart refl refl
      (omega arith) (byte-IsCopied m p q h)
      (loop-IsCopied n (store8 m p (m q)) (p + 1) (q + 1) (store8-IsMem m p (m q) h) (omega arith))

-- A word that is stored where it is loaded from memory lays down the four bytes.
store32-load32 :
    (src m : Mem) (p q a : ℕ)
    → IsMem src
    → store32 m p (load32 src q) a ≡ (
        if a == p + 3
        then src (q + 3)
        else if a == p + 2
        then src (q + 2)
        else if a == p + 1
        then src (q + 1)
        else if a == p
        then src q
        else m a)
unfolding store32 load32 store8
store32-load32 src m p q a h = ground (arith, h q, h (q + 1), h (q + 2), h (q + 3))

-- The words of `src` laid over `m`.
pub record IsLaid (src m m' : Mem) (p q n : ℕ) : Type 0 where
  pub is_mem : IsMem m'
  pub inside : (i : ℕ) → i < n → m' (p + i) ≡ src (q + i)
  pub outside : (a : ℕ) → (a < p) ⊎ (p + n ≤ a) → m' a ≡ m a

pub word-IsLaid :
    (src m : Mem) (p q : ℕ) → IsMem src → IsMem m → IsLaid src m (store32 m p (load32 src q)) p q 4
word-IsLaid src m p q h k = record {
  is_mem =
      λ a. ground (arith, store32-load32 src m p q a h, h q, h (q + 1), h (q + 2), h (q + 3), k a);
  inside = inside;
  outside = λ a o. ground (arith, store32-load32 src m p q a h);
}
  where
    inside : (i : ℕ) → i < 4 → store32 m p (load32 src q) (p + i) ≡ src (q + i)
    inside zero l = ground (arith, store32-load32 src m p q (p + 0) h, ap src (plus_zero q))
      where
        plus_zero : (u : ℕ) → u ≡ u + 0
        plus_zero u = omega arith
    inside (suc zero) l = ground (arith, store32-load32 src m p q (p + 1) h)
    inside (suc (suc zero)) l = ground (arith, store32-load32 src m p q (p + 2) h)
    inside (suc (suc (suc zero))) l = ground (arith, store32-load32 src m p q (p + 3) h)
    inside (suc (suc (suc (suc i)))) l = absurd (omega arith)

pub words-IsLaid :
    (k : ℕ) (src m : Mem) (p q n : ℕ)
    → IsMem src
    → IsMem m
    → n ≡ k * 4
    → IsLaid src m (copy_words src m p q k) p q n
unfolding copy_words
words-IsLaid zero src m p q n h l e = record {
  is_mem = l;
  inside = λ i o. absurd (omega arith);
  outside = λ a o. refl;
}
words-IsLaid (suc k) src m p q n h l e =
    laid
      (words-IsLaid k src (store32 m p (load32 src q)) (p + 4) (q + 4) (k * 4) h first.is_mem refl)
  where
    first : IsLaid src m (store32 m p (load32 src q)) p q 4
    first = word-IsLaid src m p q h l

    laid :
        {r : Mem}
        → IsLaid src (store32 m p (load32 src q)) r (p + 4) (q + 4) (k * 4)
        → IsLaid src m r p q n
    laid {r} rest = record {
      is_mem = rest.is_mem;
      inside = λ i o. split i o (omega arith);
      outside = λ a o. ground (arith, rest.outside a, first.outside a);
    }
      where
        split : (i : ℕ) → i < n → (i < 4) ⊎ (4 ≤ i) → r (p + i) ≡ src (q + i)
        split i o (inl low) = ground (arith, rest.outside (p + i), first.inside i)
        split i o (inr high) = ap r (at p) ∙ rest.inside (i - 4) (omega arith) ∙ ap src (sym (at q))
          where
            at : (u : ℕ) → u + i ≡ u + 4 + (i - 4)
            at u = omega arith

block-IsCopied : (m : Mem) (p q : ℕ) → IsMem m → IsCopied m (copy_words m m p q 8) p q 32
block-IsCopied m p q h =
    let laid = words-IsLaid 8 m m p q 32 h h refl in
    record { is_mem = laid.is_mem; inside = laid.inside; outside = laid.outside }

fast-IsCopied :
    (k : ℕ) (m : Mem) (p q n : ℕ)
    → IsMem m
    → n ≡ k * 32
    → Apart p q n
    → IsCopied m (memcpy_fast m p q k) p q n
unfolding memcpy_fast
fast-IsCopied zero m p q n h e apart = record {
  is_mem = h;
  inside = λ i l. absurd (omega arith);
  outside = λ a o. refl;
}
fast-IsCopied (suc k) m p q n h e apart =
    let block = block-IsCopied m p q h in
    IsCopied-append m (copy_words m m p q 8) _ p q 32 (k * 32) (p + 32) (q + 32) n apart refl refl
      (omega arith) block
      (fast-IsCopied k (copy_words m m p q 8) (p + 32) (q + 32) (k * 32) block.is_mem refl
        (omega arith))

-- `memcpy(dest, src, n)` copies every byte and changes no other, on the aligned fast path and on
-- the byte loop alike, unless `dest` lies inside the source above its start.
pub memcpy-IsCopied :
    (m : Mem) (dest src n : ℕ)
    → IsMem m
    → n < 2 ^ 32
    → Apart dest src n
    → IsCopied m (memcpy m dest src n) dest src n
unfolding memcpy
memcpy-IsCopied m dest src n h small apart =
    elim (Bool-cases (not (whole_blocks n == 0) && bit_and (bit_or dest src) 3 == 0)) [
      | inl fast ↦
          rw (fast, whole_blocks_lem n small, block_rest n, rounds n)
            (let head = fast-IsCopied (n / 32) m dest src (n / 32 * 32) h refl (omega arith) in
              IsCopied-append m (memcpy_fast m dest src (n / 32)) _ dest src (n / 32 * 32) (n % 32)
                (dest + n / 32 * 32) (src + n / 32 * 32) n apart refl refl (omega arith) head
                (loop-IsCopied (n % 32) (memcpy_fast m dest src (n / 32)) (dest + n / 32 * 32)
                  (src + n / 32 * 32) head.is_mem (omega arith)))
      | inr slow ↦ rw slow (loop-IsCopied n m dest src h apart)
    ]
  where
    rounds : (t : ℕ) → t / 32 * 32 / 32 ≡ t / 32
    rounds t = omega arith

down-IsCopied :
    (n : ℕ) (m : Mem) (p q : ℕ) → IsMem m → q ≤ p → IsCopied m (memmove_down m p q n) p q n
unfolding memmove_down
down-IsCopied zero m p q h le = IsCopied-empty m p q h
down-IsCopied (suc n) m p q h le =
    moved
      (down-IsCopied n (store8 m (p + n) (m (q + n))) p q (store8-IsMem m (p + n) (m (q + n)) h) le)
  where
    first : IsCopied m (store8 m (p + n) (m (q + n))) (p + n) (q + n) 1
    first = byte-IsCopied m (p + n) (q + n) h

    moved : {r : Mem} → IsCopied (store8 m (p + n) (m (q + n))) r p q n → IsCopied m r p q (suc n)
    moved {r} rest = record {
      is_mem = rest.is_mem;
      inside = λ i l. elim (Bool-cases (i == n)) [
        | inl last ↦ ground (arith, rest.outside (p + i), first.inside 0)
        | inr before ↦ ground (arith, rest.inside i, first.outside (q + i))
      ];
      outside = λ a o. ground (arith, rest.outside a, first.outside a);
    }

-- `memmove(dest, src, n)` copies every byte of the source as it was and changes no other, however
-- the ranges overlap.
pub memmove-IsCopied :
    (m : Mem) (dest src n : ℕ) → IsMem m → n < 2 ^ 32 → IsCopied m (memmove m dest src n) dest src n
unfolding memmove
memmove-IsCopied m dest src n h small = elim (Bool-cases (ltb dest src)) [
  | inl below ↦ rw below (memcpy-IsCopied m dest src n h small (inl (ground arith)))
  | inr above ↦ rw above (down-IsCopied n m dest src h (ground arith))
]
