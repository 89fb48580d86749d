-- ===== src/Util/Memory/Set.antt =====
-- `memset` fills its range and nothing else, whichever path it takes.
use flashfloppy_testbed.Prelude.{
  ℕ, zero, suc, ◌+◌, ◌*◌, ◌/◌, ◌%◌, ◌^◌, ◌<◌, ◌≡◌, ◌∙◌, refl, ap, arith,
}
use flashfloppy_testbed.Prelude.{fun_ext, length-replicate, replicate, bit_and, ◌==◌}
use flashfloppy_testbed.Prelude.{Bool-cases, inl, inr, ◌&&◌, not}
use flashfloppy_testbed.Mem.{Mem, u8, u32, store, store8}
use flashfloppy_testbed.Util.Memory.{
  store32, store_same, memset_fast, memset_loop, memset, whole_blocks,
}
use flashfloppy_testbed.Util.Memory.Store.{
  store-append, whole_blocks_lem, block_rest, replicate-append,
}

loop-store : (m : Mem) (p c n : ℕ) → memset_loop m p c n ≡ store m p (replicate n c)
unfolding memset_loop store
loop-store m p c zero = refl
loop-store m p c (suc n) = loop-store (store8 m p c) (p + 1) c n

-- A register of four equal bytes.
store32_same :
    (m : Mem) (p c : ℕ) → store32 m p (u32 (u8 c * 0x01010101)) ≡ store m p (replicate 4 c)
unfolding store32 store store8
store32_same m p c = fun_ext (λ a. ground arith)

same-store :
    (k : ℕ) (m : Mem) (p c : ℕ)
    → store_same m p (u32 (u8 c * 0x01010101)) k ≡ store m p (replicate (k * 4) c)
unfolding store_same store
same-store zero m p c = refl
same-store (suc k) m p c =
    ap (λ r. store_same r (p + 4) (u32 (u8 c * 0x01010101)) k) (store32_same m p c)
    ∙ same-store k (store m p (replicate 4 c)) (p + 4) c
    ∙ store-append m p (p + 4) (replicate 4 c) (replicate (k * 4) c) refl
    ∙ ap (store m p) (replicate-append 4 (k * 4) (suc k * 4) c (omega arith))

fast-store : (k : ℕ) (m : Mem) (p c : ℕ) → memset_fast m p c k ≡ store m p (replicate (k * 32) c)
unfolding memset_fast store
fast-store zero m p c = refl
fast-store (suc k) m p c =
    ap (λ r. memset_fast r (p + 32) c k) (same-store 8 m p c)
    ∙ fast-store k (store m p (replicate 32 c)) (p + 32) c
    ∙ store-append m p (p + 32) (replicate 32 c) (replicate (k * 32) c) refl
    ∙ ap (store m p) (replicate-append 32 (k * 32) (suc k * 32) c (omega arith))

blocks :
    (m : Mem) (s c n : ℕ)
    → memset_loop (memset_fast m s c (n / 32 * 32 / 32)) (s + n / 32 * 32) c (n % 32)
      ≡ store m s (replicate n c)
blocks m s c n =
    loop-store (memset_fast m s c (n / 32 * 32 / 32)) (s + n / 32 * 32) c (n % 32)
    ∙ ap (λ r. store r (s + n / 32 * 32) (replicate (n % 32) c)) filled
    ∙ store-append m s (s + n / 32 * 32) (replicate (n / 32 * 32) c) (replicate (n % 32) c)
        (omega (arith, length-replicate (n / 32 * 32) c))
    ∙ ap (store m s) (replicate-append (n / 32 * 32) (n % 32) n c (omega arith))
  where
    filled : memset_fast m s c (n / 32 * 32 / 32) ≡ store m s (replicate (n / 32 * 32) c)
    filled = ap (memset_fast m s c) (omega arith) ∙ fast-store (n / 32) m s c

-- `memset(s, c, n)` stores `n` copies of the low byte of `c` from `s` on, on the aligned fast path
-- and on the byte loop alike.
pub memset-store : (m : Mem) (s c n : ℕ) → n < 2 ^ 32 → memset m s c n ≡ store m s (replicate n c)
unfolding memset
memset-store m s c n h = elim (Bool-cases (not (whole_blocks n == 0) && bit_and s 3 == 0)) [
  | inl fast ↦ rw (fast, whole_blocks_lem n h, block_rest n) (blocks m s c n)
  | inr slow ↦ rw slow (loop-store m s c n)
]
