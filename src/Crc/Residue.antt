-- ===== src/Crc/Residue.antt =====
-- A message that is followed by its CRC leaves the register at zero: what every reader tests.
use flashfloppy_testbed.Prelude.{ℕ, zero, suc, ◌+◌, ◌*◌, ◌<◌, ◌≡◌, ◌↔◌, refl, arith, bit_xor}
use flashfloppy_testbed.Prelude.{◌∙◌, ap, sym, List, [], ◌∷◌, ◌++◌}
use flashfloppy_testbed.Bits.Xor.{
  bit_xor-lt, bit_xor_cancel, bit_xor-zero, bit_xor_self, bit_xor_comm,
}
use flashfloppy_testbed.Bits.Fields.{bit_xor_sum}
use flashfloppy_testbed.Mem.{Mem, IsMem, bytes}
use flashfloppy_testbed.Mem.Bytes.{bytes-append}
use flashfloppy_testbed.Crc.{crc_byte, crc16_ccitt}
use flashfloppy_testbed.Crc.Spec.{shift_bit, shift_bits, divide_byte, divide}
use flashfloppy_testbed.Crc.Linear.{shift_bits_injective, shift_bits-lt}
use flashfloppy_testbed.Crc.Refine.{crc16_ccitt-divide, shift_bits_low, crc_byte-lt}

pub crc16_ccitt-lt : (m : Mem) (b len crc : ℕ) → crc < 65536 → crc16_ccitt m b len crc < 65536
unfolding crc16_ccitt
crc16_ccitt-lt m b zero crc h = h
crc16_ccitt-lt m b (suc len) crc h =
    crc16_ccitt-lt m (b + 1) len (crc_byte crc (m b)) (crc_byte-lt crc (m b))

pub divide-append : (xs ys : List ℕ) (c : ℕ) → divide (xs ++ ys) c ≡ divide ys (divide xs c)
divide-append [] ys c = refl
divide-append (x ∷ xs) ys c = divide-append xs ys (divide_byte c x)

pub divide_byte-lt : (c b : ℕ) → c < 65536 → b < 256 → divide_byte c b < 65536
unfolding divide_byte
divide_byte-lt c b h k =
    shift_bits-lt 8 (bit_xor c (b * 256)) (bit_xor-lt 16 c (b * 256) h (omega arith))

eq_of_bit_xor-zero : (a b : ℕ) → bit_xor a b ≡ 0 → a ≡ b
eq_of_bit_xor-zero a b e = ground (arith, bit_xor_cancel a b, bit_xor-zero a)

shift_bits-zero : shift_bits 8 0 ≡ 0
unfolding shift_bit
shift_bits-zero = refl

-- The register is cleared by the byte that equals its high half, and only when the low half is 0.
divide_byte-eq-zero : (c b : ℕ) → c < 65536 → b < 256 → divide_byte c b ≡ 0 → c ≡ b * 256
unfolding divide_byte
divide_byte-eq-zero c b h k e =
    let small : bit_xor c (b * 256) < 65536 = bit_xor-lt 16 c (b * 256) h (omega arith) in
    eq_of_bit_xor-zero c (b * 256)
      (shift_bits_injective 8 (bit_xor c (b * 256)) 0 small (omega arith) (e ∙ sym shift_bits-zero))

divide_byte-eq-high :
    (c b d : ℕ) → c < 65536 → b < 256 → d < 256 → divide_byte c b ≡ d * 256 → c ≡ b * 256 + d
unfolding divide_byte
divide_byte-eq-high c b d h k l e =
    let small : bit_xor c (b * 256) < 65536 = bit_xor-lt 16 c (b * 256) h (omega arith) in
    let low : bit_xor c (b * 256) ≡ d =
      shift_bits_injective 8 (bit_xor c (b * 256)) d small (omega arith)
        (e ∙ sym (shift_bits_low d l)) in
    ground (arith, low, bit_xor_comm c (b * 256), bit_xor_cancel (b * 256) c, bit_xor_sum b d)

divide_own : (c b d : ℕ) → b < 256 → d < 256 → c ≡ b * 256 + d → divide (b ∷ d ∷ []) c ≡ 0
unfolding divide_byte
divide_own c b d k l e =
    let low : bit_xor c (b * 256) ≡ d =
      ground (arith, bit_xor_sum b d, bit_xor_cancel (b * 256) d, bit_xor_comm c (b * 256)) in
    rw low (rw (shift_bits_low d l) (rw (bit_xor_self (d * 256)) shift_bits-zero))

-- Two bytes clear a register exactly when they are its high and its low byte.
pub divide_two_iff :
    (c b d : ℕ) → c < 65536 → b < 256 → d < 256 → (divide (b ∷ d ∷ []) c ≡ 0) ↔ (c ≡ b * 256 + d)
divide_two_iff c b d h k l = (
  λ e.
      divide_byte-eq-high c b d h k l
        (divide_byte-eq-zero (divide_byte c b) d (divide_byte-lt c b h k) l e),
  divide_own c b d k l,
)

divide-bytes_two :
    (m : Mem) (b len crc q : ℕ)
    → b + len ≡ q
    → divide (bytes m b (len + 2)) crc ≡ divide (m q ∷ m (q + 1) ∷ []) (divide (bytes m b len) crc)
divide-bytes_two m b len crc q e =
    ap (λ l. divide l crc) (sym (bytes-append m b len 2 q e))
    ∙ divide-append (bytes m b len) (bytes m q 2) crc

-- A reader's check of `len` bytes and two more gives zero exactly when those two hold, high byte
-- first, the CRC of the `len` bytes.
pub crc16_ccitt_residue_iff :
    (m : Mem) (b len crc : ℕ)
    → IsMem m
    → crc < 65536
    → (crc16_ccitt m b (len + 2) crc ≡ 0)
      ↔ (crc16_ccitt m b len crc ≡ m (b + len) * 256 + m (b + len + 1))
crc16_ccitt_residue_iff m b len crc h k =
    rw
      (
        crc16_ccitt-divide m b (len + 2) crc h k,
        divide-bytes_two m b len crc (b + len) refl,
        ← crc16_ccitt-divide m b len crc h k,
      )
      (divide_two_iff (crc16_ccitt m b len crc) (m (b + len)) (m (b + len + 1))
        (crc16_ccitt-lt m b len crc k) (h (b + len)) (h (b + len + 1)))
