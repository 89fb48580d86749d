-- ===== src/Amiga.antt =====
-- src/amiga.c: AmigaDOS tracks. The buffers are in memory, and a long word of a track is read and
-- written big-endian.
pub mod Write
pub mod Read
pub mod Cells
pub mod Long
pub mod Swap
pub mod Checksum
pub mod Block
pub mod Sector
pub mod Decode
pub mod Track
mod Tests
use flashfloppy_testbed.Prelude.{
  ℕ, zero, suc, ◌+◌, ◌-◌, ◌*◌, ◌/◌, ◌%◌, ◌^◌, List, [], ◌∷◌, bit_and, bit_or, bit_xor,
}
use flashfloppy_testbed.Mem.{Mem, u32}
use flashfloppy_testbed.Util.Memory.{load32}
use flashfloppy_testbed.Mfm.{rev32}

-- `be32toh(*p)`
unfoldable pub be32 : Mem → ℕ → ℕ
be32 m p = rev32 (load32 m p)

-- The data bits of a long word.
abbrev pub data_mask : ℕ
data_mask = 0x55555555

-- `_amigados_checksum`, `csum` being what the longs before gave
unfoldable pub checksum_loop : Mem → ℕ → ℕ → ℕ → ℕ
checksum_loop m p csum zero = csum
checksum_loop m p csum (suc longs) = checksum_loop m (p + 4) (bit_xor csum (be32 m p)) longs

unfoldable pub amigados_checksum : Mem → ℕ → ℕ → ℕ
unfolding checksum_loop
amigados_checksum m dat longs = checksum_loop m dat 0 longs

unfoldable pub amigados_mfm_checksum : Mem → ℕ → ℕ → ℕ
amigados_mfm_checksum m dat longs = bit_and (amigados_checksum m dat longs) data_mask

unfoldable pub amigados_dat_checksum : Mem → ℕ → ℕ → ℕ
amigados_dat_checksum m dat nr =
    let csum = amigados_checksum m dat (nr / 4) in bit_and (bit_xor csum (csum / 2)) data_mask

-- `even` and `odd`
unfoldable pub even : ℕ → ℕ
even x = x / 2

unfoldable pub odd : ℕ → ℕ
odd x = x

-- `((p & 0x55555555) << 1) | (q & 0x55555555)`
unfoldable pub join : ℕ → ℕ → ℕ
join p q = bit_or (u32 (bit_and p data_mask * 2)) (bit_and q data_mask)

unfoldable pub get_long : Mem → ℕ → ℕ
get_long m p = rev32 (join (load32 m p) (load32 m (p + 4)))
