-- ===== src/Crc/Linear.antt =====
-- The bitwise division is linear over `^`.
use flashfloppy_testbed.Prelude.{
  ℕ, zero, suc, ◌+◌, ◌*◌, ◌/◌, ◌%◌, ◌<◌, ◌≡◌, refl, arith, bit_xor, ◌∙◌, ap, ap₂,
}
use flashfloppy_testbed.Bits.Xor.{
  bit_xor-lt, bit_xor_parity, bit_xor_assoc, bit_xor_self, bit_xor-zero,
}
use flashfloppy_testbed.Bits.Fields.{bit_xor_double, bit_xor_split15, bit_xor_regroup}
use flashfloppy_testbed.Crc.Spec.{shift_bit, shift_bits}

scale_poly : (x y : ℕ) → x < 2 → y < 2 → bit_xor x y * 0x1021 ≡ bit_xor (x * 0x1021) (y * 0x1021)
scale_poly zero zero h k = refl
scale_poly zero (suc zero) h k = refl
scale_poly (suc zero) zero h k = refl
scale_poly (suc zero) (suc zero) h k = refl
scale_poly x (suc (suc y)) h k = absurd (omega arith)
scale_poly (suc (suc x)) y h k = absurd (omega arith)

shift_bit_fields : (c : ℕ) → c < 65536 → shift_bit c ≡ bit_xor (c % 32768 * 2) (c / 32768 * 0x1021)
unfolding shift_bit
shift_bit_fields c h = ap₂ bit_xor (omega arith) (omega arith)

pub shift_bit-lt : (c : ℕ) → shift_bit c < 65536
unfolding shift_bit
shift_bit-lt c = bit_xor-lt 16 _ _ (omega arith) (omega arith)

pub shift_bit-bit_xor :
    (a b : ℕ)
    → a < 65536
    → b < 65536
    → shift_bit (bit_xor a b) ≡ bit_xor (shift_bit a) (shift_bit b)
shift_bit-bit_xor a b h k = ground (
  arith,
  bit_xor-lt 16 a b,
  bit_xor-lt 15 (a % 32768) (b % 32768),
  shift_bit_fields a,
  shift_bit_fields b,
  shift_bit_fields (bit_xor a b),
  bit_xor_split15 a b,
  scale_poly (a / 32768) (b / 32768),
  bit_xor_double (a % 32768) (b % 32768),
  bit_xor_regroup (a % 32768 * 2) (a / 32768 * 0x1021) (b % 32768 * 2) (b / 32768 * 0x1021),
)

pub shift_bits-bit_xor :
    (n a b : ℕ)
    → a < 65536
    → b < 65536
    → shift_bits n (bit_xor a b) ≡ bit_xor (shift_bits n a) (shift_bits n b)
shift_bits-bit_xor zero a b h k = refl
shift_bits-bit_xor (suc n) a b h k =
    ap (shift_bits n) (shift_bit-bit_xor a b h k)
    ∙ shift_bits-bit_xor n (shift_bit a) (shift_bit b) (shift_bit-lt a) (shift_bit-lt b)

pub shift_bits-lt : (n c : ℕ) → c < 65536 → shift_bits n c < 65536
shift_bits-lt zero c h = h
shift_bits-lt (suc n) c h = shift_bits-lt n (shift_bit c) (shift_bit-lt c)

-- The polynomial is odd, so the lowest bit says whether it was subtracted: the step is undone.
unshift_bit : ℕ → ℕ
unshift_bit d = bit_xor d (d % 2 * 0x1021) / 2 + d % 2 * 32768

unshift_bit-shift_bit : (c : ℕ) → c < 65536 → unshift_bit (shift_bit c) ≡ c
unfolding unshift_bit
unshift_bit-shift_bit c h = ground (
  arith,
  shift_bit_fields c h,
  bit_xor_parity (c % 32768 * 2) (c / 32768 * 0x1021),
  bit_xor_assoc (c % 32768 * 2) (c / 32768 * 0x1021) (c / 32768 * 0x1021),
  bit_xor_self (c / 32768 * 0x1021),
  bit_xor-zero (c % 32768 * 2),
)

pub shift_bits_injective :
    (n a b : ℕ) → a < 65536 → b < 65536 → shift_bits n a ≡ shift_bits n b → a ≡ b
shift_bits_injective zero a b h k e = e
shift_bits_injective (suc n) a b h k e =
    let same =
      shift_bits_injective n (shift_bit a) (shift_bit b) (shift_bit-lt a) (shift_bit-lt b) e in
    ground (arith, same, unshift_bit-shift_bit a h, unshift_bit-shift_bit b k)
