-- ===== src/Bits/Fields.antt =====
-- `^` on the two fields of a word, in the forms that the 16-bit code uses.
use flashfloppy_testbed.Prelude.{ℕ, ◌+◌, ◌*◌, ◌/◌, ◌%◌, ◌<◌, ◌≡◌, arith, bit_xor}
use flashfloppy_testbed.Bits.Xor.{bit_xor_fields, bit_xor-zero, zero-bit_xor}
use flashfloppy_testbed.Bits.Xor.{bit_xor_assoc, bit_xor_comm}

-- The split of a sum at bit 8.
pub bit_xor_bytes :
    (q r q' r' : ℕ)
    → r < 256
    → r' < 256
    → bit_xor (q * 256 + r) (q' * 256 + r') ≡ bit_xor q q' * 256 + bit_xor r r'
bit_xor_bytes q r q' r' h h' = bit_xor_fields 8 q r q' r' h h'

-- A word is the `^` of its two bytes in place.
pub bit_xor_sum : (q r : ℕ) → r < 256 → bit_xor (q * 256) r ≡ q * 256 + r
bit_xor_sum q r h = ground (arith, bit_xor_bytes q 0 0 r, bit_xor-zero q, zero-bit_xor r)

pub bit_xor_double : (a b : ℕ) → bit_xor (a * 2) (b * 2) ≡ bit_xor a b * 2
bit_xor_double a b = ground (arith, bit_xor_fields 1 a 0 b 0, zero-bit_xor 0)

pub bit_xor_split15 :
    (a b : ℕ)
    → bit_xor a b ≡ bit_xor (a / 32768) (b / 32768) * 32768 + bit_xor (a % 32768) (b % 32768)
bit_xor_split15 a b =
    ground (arith, bit_xor_fields 15 (a / 32768) (a % 32768) (b / 32768) (b % 32768))

-- `(x ^ y) ^ (u ^ v)` is `(x ^ u) ^ (y ^ v)`.
pub bit_xor_regroup :
    (x y u v : ℕ) → bit_xor (bit_xor x y) (bit_xor u v) ≡ bit_xor (bit_xor x u) (bit_xor y v)
bit_xor_regroup x y u v = ground (
  arith,
  bit_xor_assoc x y (bit_xor u v),
  bit_xor_assoc x u (bit_xor y v),
  bit_xor_assoc y u v,
  bit_xor_assoc u y v,
  bit_xor_comm y u,
)
