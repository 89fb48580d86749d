-- ===== src/Util/Memory.antt =====
-- src/util.c: `memset`, `memcpy` and `memmove`, with the assembly of their fast paths.
pub mod Store
pub mod Set
pub mod Copy
use flashfloppy_testbed.Prelude.{
  ℕ, zero, suc, ◌+◌, ◌-◌, ◌*◌, ◌/◌, ◌%◌, ◌^◌, bit_and, bit_or, ◌==◌, ltb, ◌&&◌,
}
use flashfloppy_testbed.Prelude.{not, if◌then◌else◌}
use flashfloppy_testbed.Mem.{Mem, u8, u32, store8}

-- `stmia p!,{r}` of a 32-bit register.
unfoldable pub store32 : Mem → ℕ → ℕ → Mem
unfolding store8
store32 m p v =
    store8 (store8 (store8 (store8 m p v) (p + 1) (v / 2 ^ 8)) (p + 2) (v / 2 ^ 16)) (p + 3)
      (v / 2 ^ 24)

unfoldable pub load32 : Mem → ℕ → ℕ
load32 m p = m p + m (p + 1) * 2 ^ 8 + m (p + 2) * 2 ^ 16 + m (p + 3) * 2 ^ 24

-- `n & ~31`
unfoldable pub whole_blocks : ℕ → ℕ
whole_blocks n = bit_and n (2 ^ 32 - 32)

-- `stmia r0!,{r3-r10}` with the same value in all eight registers, the count in words.
unfoldable pub store_same : Mem → ℕ → ℕ → ℕ → Mem
store_same m p v zero = m
store_same m p v (suc k) = store_same (store32 m p v) (p + 4) v k

-- `memset_fast`, the count being that of its 32-byte rounds.
unfoldable pub memset_fast : Mem → ℕ → ℕ → ℕ → Mem
memset_fast m p c zero = m
memset_fast m p c (suc k) = memset_fast (store_same m p (u32 (u8 c * 0x01010101)) 8) (p + 32) c k

-- `while (n--) *p++ = c;`
unfoldable pub memset_loop : Mem → ℕ → ℕ → ℕ → Mem
memset_loop m p c zero = m
memset_loop m p c (suc n) = memset_loop (store8 m p c) (p + 1) c n

unfoldable pub memset : Mem → ℕ → ℕ → ℕ → Mem
memset m s c n =
    let n32 = whole_blocks n in
    if not (n32 == 0) && bit_and s 3 == 0
    then memset_loop (memset_fast m s c (n32 / 32)) (s + n32) c (bit_and n 31)
    else memset_loop m s c n

-- `ldmia r1!,{r3-r10}` then `stmia r0!,{r3-r10}`: the words are all loaded before any is stored.
-- `src` is the memory at the load, the count in words.
unfoldable pub copy_words : Mem → Mem → ℕ → ℕ → ℕ → Mem
copy_words src m p q zero = m
copy_words src m p q (suc k) = copy_words src (store32 m p (load32 src q)) (p + 4) (q + 4) k

-- `memcpy_fast`, the count being that of its 32-byte rounds.
unfoldable pub memcpy_fast : Mem → ℕ → ℕ → ℕ → Mem
memcpy_fast m p q zero = m
memcpy_fast m p q (suc k) = memcpy_fast (copy_words m m p q 8) (p + 32) (q + 32) k

-- `while (n--) *p++ = *q++;`
unfoldable pub memcpy_loop : Mem → ℕ → ℕ → ℕ → Mem
memcpy_loop m p q zero = m
memcpy_loop m p q (suc n) = memcpy_loop (store8 m p (m q)) (p + 1) (q + 1) n

unfoldable pub memcpy : Mem → ℕ → ℕ → ℕ → Mem
memcpy m dest src n =
    let n32 = whole_blocks n in
    if not (n32 == 0) && bit_and (bit_or dest src) 3 == 0
    then memcpy_loop (memcpy_fast m dest src (n32 / 32)) (dest + n32) (src + n32) (bit_and n 31)
    else memcpy_loop m dest src n

-- `while (n--) *--p = *--q;`, where `p` and `q` are `n` behind the starts.
unfoldable pub memmove_down : Mem → ℕ → ℕ → ℕ → Mem
memmove_down m dest src zero = m
memmove_down m dest src (suc n) = memmove_down (store8 m (dest + n) (m (src + n))) dest src n

unfoldable pub memmove : Mem → ℕ → ℕ → ℕ → Mem
memmove m dest src n = if ltb dest src then memcpy m dest src n else memmove_down m dest src n
