-- ===== src/Crc/Spec.antt =====
-- CRC16-CCITT by its definition: division by x^16 + x^12 + x^5 + 1, bit by bit.
use flashfloppy_testbed.Prelude.{ℕ, zero, suc, ◌*◌, ◌/◌, ◌%◌, List, [], ◌∷◌, bit_xor}

-- Shift one bit out at the top; if it was set, subtract the polynomial.
unfoldable pub shift_bit : ℕ → ℕ
shift_bit c = bit_xor (c * 2 % 65536) (c / 32768 % 2 * 0x1021)

abbrev pub shift_bits : ℕ → ℕ → ℕ
shift_bits zero c = c
shift_bits (suc n) c = shift_bits n (shift_bit c)

-- The byte is added at the top and its eight bits are shifted out.
unfoldable pub divide_byte : ℕ → ℕ → ℕ
divide_byte c b = shift_bits 8 (bit_xor c (b * 256))

abbrev pub divide : List ℕ → ℕ → ℕ
divide [] c = c
divide (b ∷ bs) c = divide bs (divide_byte c b)
