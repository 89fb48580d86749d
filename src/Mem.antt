-- ===== src/Mem.antt =====
-- Memory as C sees it: a byte at each address. Pointers are addresses, and a 16-bit or 32-bit
-- access is little-endian, as on the STM32.
pub mod Bytes
pub mod Access
pub mod Words
use flashfloppy_testbed.Prelude.{ℕ, zero, suc, ◌+◌, ◌*◌, ◌/◌, ◌%◌, ◌^◌, ◌<◌, List, [], ◌∷◌, ◌==◌}
use flashfloppy_testbed.Prelude.{if◌then◌else◌, length}

abbrev pub Mem : Type 0
Mem = ℕ → ℕ

-- The casts to the unsigned types.
abbrev pub u8 : ℕ → ℕ
u8 x = x % 2 ^ 8

abbrev pub u16 : ℕ → ℕ
u16 x = x % 2 ^ 16

abbrev pub u32 : ℕ → ℕ
u32 x = x % 2 ^ 32

-- Every address holds a byte.
abbrev pub IsMem : Mem → Type 0
IsMem m = (a : ℕ) → m a < 256

-- `*(uint8_t *)p = v`
unfoldable pub store8 : Mem → ℕ → ℕ → Mem
store8 m p v a = if a == p then u8 v else m a

-- `*(uint16_t *)p` and `*(uint16_t *)p = v`
unfoldable pub load16 : Mem → ℕ → ℕ
load16 m p = m p + m (p + 1) * 256

unfoldable pub store16 : Mem → ℕ → ℕ → Mem
unfolding store8
store16 m p v = store8 (store8 m p v) (p + 1) (v / 256)

-- `_rev16`, which `be16toh` and `htobe16` are
unfoldable pub rev16 : ℕ → ℕ
rev16 x = x % 256 * 256 + x / 256

-- The `n` bytes from `p` on.
abbrev pub bytes : Mem → ℕ → ℕ → List ℕ
bytes m p zero = []
bytes m p (suc n) = m p ∷ bytes m (p + 1) n

-- The big-endian word at `p`, as the floppy buffers hold them.
abbrev pub word_at : Mem → ℕ → ℕ
word_at m p = m p * 256 + m (p + 1)

-- The `n` big-endian words from `p` on.
abbrev pub words : Mem → ℕ → ℕ → List ℕ
words m p zero = []
words m p (suc n) = word_at m p ∷ words m (p + 2) n

-- Writes a list of bytes from `p` on.
unfoldable pub store : Mem → ℕ → List ℕ → Mem
unfolding store8
store m p [] = m
store m p (x ∷ xs) = store (store8 m p x) (p + 1) xs

-- Writes a list of words, big-endian, from `p` on.
unfoldable pub put_words : Mem → ℕ → List ℕ → Mem
put_words m p [] = m
put_words m p (w ∷ ws) = put_words (store16 m p (rev16 w)) (p + 2) ws
