-- ===== src/Crc/Detect.antt =====
-- Error detection: a single corrupted byte always changes the CRC.
use flashfloppy_testbed.Prelude.{ℕ, zero, suc, ◌+◌, ◌*◌, ◌≤◌, ◌<◌, ◌≡◌, ◌≢◌, arith, bit_xor}
use flashfloppy_testbed.Prelude.{◌∙◌, sym, ◌==◌, Bool-cases, inl, inr, ap}
use flashfloppy_testbed.Bits.Xor.{bit_xor-lt, bit_xor_injective, bit_xor_comm}
use flashfloppy_testbed.Mem.{Mem, IsMem}
use flashfloppy_testbed.Crc.{crc_byte, crc16_ccitt}
use flashfloppy_testbed.Crc.Spec.{divide_byte}
use flashfloppy_testbed.Crc.Linear.{shift_bits_injective}
use flashfloppy_testbed.Crc.Refine.{crc_byte-divide_byte, crc_byte-lt}

divided_same :
    (c b c' b' : ℕ)
    → c < 65536
    → b < 256
    → c' < 65536
    → b' < 256
    → crc_byte c b ≡ crc_byte c' b'
    → bit_xor c (b * 256) ≡ bit_xor c' (b' * 256)
unfolding divide_byte
divided_same c b c' b' h k h' k' e =
    shift_bits_injective 8 (bit_xor c (b * 256)) (bit_xor c' (b' * 256))
      (bit_xor-lt 16 c (b * 256) h (omega arith)) (bit_xor-lt 16 c' (b' * 256) h' (omega arith))
      (sym (crc_byte-divide_byte c b h k) ∙ e ∙ crc_byte-divide_byte c' b' h' k')

crc_byte_injective_register :
    (c c' b : ℕ) → c < 65536 → c' < 65536 → b < 256 → crc_byte c b ≡ crc_byte c' b → c ≡ c'
crc_byte_injective_register c c' b h h' k e = bit_xor_injective (b * 256) c c' (
    ground (
      arith,
      divided_same c b c' b h k h' k e,
      bit_xor_comm c (b * 256),
      bit_xor_comm c' (b * 256),
    ))

crc_byte_injective_byte :
    (c b b' : ℕ) → c < 65536 → b < 256 → b' < 256 → crc_byte c b ≡ crc_byte c b' → b ≡ b'
crc_byte_injective_byte c b b' h k k' e =
    omega (arith, bit_xor_injective c (b * 256) (b' * 256) (divided_same c b c b' h k h k' e))

-- Behind the corrupted byte the registers stay apart.
stay_apart :
    (m m' : Mem) (b len c c' : ℕ)
    → IsMem m
    → c < 65536
    → c' < 65536
    → ((a : ℕ) → b ≤ a → m a ≡ m' a)
    → crc16_ccitt m b len c ≡ crc16_ccitt m' b len c'
    → c ≡ c'
unfolding crc16_ccitt
stay_apart m m' b zero c c' h k k' same e = e
stay_apart m m' b (suc len) c c' h k k' same e = crc_byte_injective_register c c' (m b) k k' (h b) (
    stay_apart m m' (b + 1) len (crc_byte c (m b)) (crc_byte c' (m b)) h (crc_byte-lt c (m b))
      (crc_byte-lt c' (m b)) (λ a l. same a (omega arith))
      (e ∙ ap (λ t. crc16_ccitt m' (b + 1) len (crc_byte c' t)) (sym (same b (omega arith)))))

-- Two buffers that differ in exactly one byte have different CRCs, whatever the length and start.
pub crc16_ccitt_detects :
    (m m' : Mem) (b len crc i : ℕ)
    → IsMem m
    → IsMem m'
    → crc < 65536
    → b ≤ i
    → i < b + len
    → m i ≢ m' i
    → ((a : ℕ) → a ≢ i → m a ≡ m' a)
    → crc16_ccitt m b len crc ≢ crc16_ccitt m' b len crc
unfolding crc16_ccitt
crc16_ccitt_detects m m' b zero crc i h h' k lo hi ne same e = absurd (omega arith)
crc16_ccitt_detects m m' b (suc len) crc i h h' k lo hi ne same e = elim (Bool-cases (b == i)) [
  | inl hit ↦
      let at : b ≡ i = ground arith in
      ne (
        ap m (sym at)
        ∙ crc_byte_injective_byte crc (m b) (m' b) k (h b) (h' b) (
            stay_apart m m' (b + 1) len (crc_byte crc (m b)) (crc_byte crc (m' b)) h
              (crc_byte-lt crc (m b)) (crc_byte-lt crc (m' b)) (λ a l. same a (omega arith)) e)
        ∙ ap m' at)
  | inr miss ↦
      let away : b ≢ i = ground arith in
      crc16_ccitt_detects m m' (b + 1) len (crc_byte crc (m b)) i h h' (crc_byte-lt crc (m b))
        (omega arith) (omega arith) ne same
        (e ∙ ap (λ t. crc16_ccitt m' (b + 1) len (crc_byte crc t)) (sym (same b away)))
]
