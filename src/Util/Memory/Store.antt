-- ===== src/Util/Memory/Store.antt =====
-- Storing a list of bytes: what the loops and the fast paths come down to.
use flashfloppy_testbed.Prelude.{ℕ, zero, suc, ◌+◌, ◌-◌, ◌*◌, ◌/◌, ◌%◌, ◌^◌, ◌<◌, ◌≡◌, ap, arith}
use flashfloppy_testbed.Prelude.{fun_ext, List, [], ◌∷◌, ◌++◌, length, replicate, bit_and}
use flashfloppy_testbed.Bits.And.{bit_and_mask, bit_and_fields, bit_and-zero, bit_and_full}
use flashfloppy_testbed.Mem.{Mem, u8, store, store8}
use flashfloppy_testbed.Util.Memory.{whole_blocks}

pub store-append :
    (m : Mem) (p q : ℕ) (xs ys : List ℕ)
    → q ≡ p + length xs
    → store (store m p xs) q ys ≡ store m p (xs ++ ys)
unfolding store
store-append m p q [] ys e = ap (λ (t : ℕ). store m t ys) (omega arith)
store-append m p q (x ∷ xs) ys e = store-append (store8 m p x) (p + 1) q xs ys (omega arith)

-- Only the low bytes of what is stored matter.
pub store8_cast : (m : Mem) (p v w : ℕ) → u8 v ≡ u8 w → store8 m p v ≡ store8 m p w
unfolding store8
store8_cast m p v w e = fun_ext (λ a. ground arith)

pub whole_blocks_lem : (n : ℕ) → n < 2 ^ 32 → whole_blocks n ≡ n / 32 * 32
unfolding whole_blocks
whole_blocks_lem n h = ground (
  arith,
  bit_and_fields 5 (n / 32) (n % 32) (2 ^ 27 - 1) 0,
  bit_and-zero (n % 32),
  bit_and_full 27 (n / 32),
)

pub block_rest : (n : ℕ) → bit_and n 31 ≡ n % 32
block_rest n = bit_and_mask 5 n

pub replicate-append {ℓ} :
    {A : Type ℓ} (n k t : ℕ) (x : A) → t ≡ n + k → replicate n x ++ replicate k x ≡ replicate t x
replicate-append zero k t x e = ap (λ (u : ℕ). replicate u x) (omega arith)
replicate-append (suc n) k zero x e = absurd (omega arith)
replicate-append (suc n) k (suc t) x e = ap (λ l. x ∷ l) (replicate-append n k t x (omega arith))
