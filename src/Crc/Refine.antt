-- ===== src/Crc/Refine.antt =====
-- The table performs eight steps of the bitwise division at once.
use flashfloppy_testbed.Prelude.{ℕ, zero, suc, ◌+◌, ◌*◌, ◌/◌, ◌%◌, ◌<◌, ◌≡◌, refl, arith, bit_xor}
use flashfloppy_testbed.Prelude.{◌∙◌, ap, true, ◌==◌, ==_iff, all_below, all_below-lt, get_or}
use flashfloppy_testbed.Bits.Xor.{bit_xor-lt, bit_xor_fields, bit_xor-zero}
use flashfloppy_testbed.Bits.Fields.{bit_xor_bytes, bit_xor_sum}
use flashfloppy_testbed.Mem.{Mem, IsMem, bytes}
use flashfloppy_testbed.Crc.{crc16tab, crc_byte, crc16_ccitt}
use flashfloppy_testbed.Crc.Spec.{shift_bit, shift_bits, divide_byte, divide}
use flashfloppy_testbed.Crc.Linear.{shift_bits-bit_xor, shift_bits-lt}

table_checked : all_below 256 (λ t. get_or crc16tab t 0 == shift_bits 8 (t * 256)) ≡ true
unfolding all_below shift_bit
table_checked = refl

low_checked : all_below 256 (λ l. shift_bits 8 l == l * 256) ≡ true
unfolding all_below shift_bit
low_checked = refl

pub table_lem : (t : ℕ) → t < 256 → get_or crc16tab t 0 ≡ shift_bits 8 (t * 256)
table_lem t h = (==_iff _ _).0 (all_below-lt 256 _ t table_checked h)

pub shift_bits_low : (l : ℕ) → l < 256 → shift_bits 8 l ≡ l * 256
shift_bits_low l h = (==_iff _ _).0 (all_below-lt 256 _ l low_checked h)

-- The cast keeps the low byte of the shifted register.
crc_byte_fields :
    (c b : ℕ)
    → c < 65536
    → b < 256
    → crc_byte c b ≡ bit_xor (shift_bits 8 (bit_xor (c / 256) b * 256)) (shift_bits 8 (c % 256))
unfolding crc_byte
crc_byte_fields c b h k =
    let index : bit_xor (c / 256) b < 256 = bit_xor-lt 8 (c / 256) b (omega arith) k in
    let entry : shift_bits 8 (bit_xor (c / 256) b * 256) < 65536 =
      shift_bits-lt 8 (bit_xor (c / 256) b * 256) (omega arith) in
    cast (bit_xor (c / 256) b) index entry
  where
    cast :
        (t : ℕ)
        → t < 256
        → shift_bits 8 (t * 256) < 65536
        → bit_xor (get_or crc16tab t 0) (c * 256) % 65536
          ≡ bit_xor (shift_bits 8 (t * 256)) (shift_bits 8 (c % 256))
    cast t small entry = ground (
      arith,
      table_lem t small,
      shift_bits_low (c % 256) (omega arith),
      bit_xor_fields 16 0 (shift_bits 8 (t * 256)) (c / 256) (c % 256 * 256),
      bit_xor-lt 16 (shift_bits 8 (t * 256)) (c % 256 * 256),
    )

split_register :
    (c b : ℕ)
    → c < 65536
    → b < 256
    → bit_xor c (b * 256) ≡ bit_xor (bit_xor (c / 256) b * 256) (c % 256)
split_register c b h k = ground (
  arith,
  bit_xor_bytes (c / 256) (c % 256) b 0,
  bit_xor-zero (c % 256),
  bit_xor_sum (bit_xor (c / 256) b) (c % 256),
)

pub crc_byte-divide_byte : (c b : ℕ) → c < 65536 → b < 256 → crc_byte c b ≡ divide_byte c b
unfolding divide_byte
crc_byte-divide_byte c b h k =
    let index : bit_xor (c / 256) b < 256 = bit_xor-lt 8 (c / 256) b (omega arith) k in
    rw (split_register c b h k, crc_byte_fields c b h k)
      (rw (shift_bits-bit_xor 8 (bit_xor (c / 256) b * 256) (c % 256) (omega arith) (omega arith))
        refl)

pub crc_byte-lt : (c b : ℕ) → crc_byte c b < 65536
unfolding crc_byte
crc_byte-lt c b = omega arith

-- `crc16_ccitt` is the bitwise CRC-CCITT of the buffer's bytes, for every buffer, length and start.
pub crc16_ccitt-divide :
    (m : Mem) (b len crc : ℕ)
    → IsMem m
    → crc < 65536
    → crc16_ccitt m b len crc ≡ divide (bytes m b len) crc
unfolding crc16_ccitt
crc16_ccitt-divide m b zero crc h k = refl
crc16_ccitt-divide m b (suc len) crc h k =
    crc16_ccitt-divide m (b + 1) len (crc_byte crc (m b)) h (crc_byte-lt crc (m b))
    ∙ ap (divide (bytes m (b + 1) len)) (crc_byte-divide_byte crc (m b) k (h b))
