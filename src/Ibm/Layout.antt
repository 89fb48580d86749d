-- ===== src/Ibm/Layout.antt =====
-- The IBM format on paper: the bytes of a header and of a data block, with their CRCs.
use flashfloppy_testbed.Prelude.{
  ℕ, zero, suc, ◌+◌, ◌/◌, ◌%◌, ◌^◌, List, [], ◌∷◌, ◌++◌, replicate, length,
}
use flashfloppy_testbed.Prelude.{◌<◌, ◌≡◌, All, All-append, length-append, length-replicate, arith}
use flashfloppy_testbed.Ibm.{sector_bytes}
use flashfloppy_testbed.Crc.Spec.{divide, divide_byte}
use flashfloppy_testbed.Mfm.Words.{encode, last_of}
use flashfloppy_testbed.Crc.Residue.{divide_byte-lt}

-- A block is followed by the CRC of its bytes, high byte first.
abbrev pub crc_bytes : List ℕ → List ℕ
crc_bytes xs = divide xs 0xffff / 256 ∷ divide xs 0xffff % 256 ∷ []

abbrev pub with_crc : List ℕ → List ℕ
with_crc xs = xs ++ crc_bytes xs

-- Sync bytes, address mark and contents.
abbrev pub marked : ℕ → List ℕ → List ℕ
marked mark xs = 0xa1 ∷ 0xa1 ∷ 0xa1 ∷ mark ∷ xs

abbrev pub data_block : List ℕ → List ℕ
data_block data_ = with_crc (marked 0xfb data_)

-- A block without its three sync bytes, which the drive writes with a missing clock.
abbrev pub behind_sync : ℕ → List ℕ → List ℕ
behind_sync mark xs = mark ∷ (xs ++ crc_bytes (marked mark xs))

abbrev pub header_block : List ℕ → List ℕ
header_block id = with_crc (marked 0xfe id)

-- What `ibm_mfm_write_sector` lays down.
abbrev pub sector_layout : List ℕ → ℕ → List ℕ
sector_layout data_ gap3 = replicate 12 0x00 ++ (data_block data_ ++ replicate gap3 0x4e)

-- A block as the drive delivers it: sync words with their missing clock, and the rest in MFM.
abbrev pub block_cells : List ℕ → List ℕ
block_cells xs = 0x4489 ∷ 0x4489 ∷ 0x4489 ∷ encode 0xa1 xs

-- A whole sector behind the byte `prev`, as bitcells: gap, data block, gap.
abbrev pub sector_cells : ℕ → List ℕ → ℕ → List ℕ
sector_cells prev data_ gap3 =
    encode prev (replicate 12 0x00)
    ++ (block_cells (behind_sync 0xfb data_)
        ++ encode (last_of 0xa1 (behind_sync 0xfb data_)) (replicate gap3 0x4e))

pub divide-lt : (xs : List ℕ) (c : ℕ) → All (λ x. x < 256) xs → c < 65536 → divide xs c < 65536
divide-lt [] c h k = k
divide-lt (x ∷ xs) c h k = divide-lt xs (divide_byte c x) h.1 (divide_byte-lt c x k h.0)

pub marked-IsByte :
    (mark : ℕ) (xs : List ℕ)
    → mark < 256
    → All (λ x. x < 256) xs
    → All (λ x. x < 256) (marked mark xs)
marked-IsByte mark xs h k = (omega arith, (omega arith, (omega arith, (h, k))))

pub with_crc-IsByte : (xs : List ℕ) → All (λ x. x < 256) xs → All (λ x. x < 256) (with_crc xs)
with_crc-IsByte xs h =
    let small : divide xs 0xffff < 65536 = divide-lt xs 0xffff h (omega arith) in
    All-append (λ x. x < 256) xs (crc_bytes xs) h (omega arith, (omega arith, tt))

pub length-data_block : (xs : List ℕ) → length (data_block xs) ≡ 4 + length xs + 2
length-data_block xs =
    omega (arith, length-append {0} (marked 0xfb xs) (crc_bytes (marked 0xfb xs)))

pub replicate-IsByte : (n x : ℕ) → x < 256 → All (λ x. x < 256) (replicate n x)
replicate-IsByte zero x h = tt
replicate-IsByte (suc n) x h = (h, replicate-IsByte n x h)

pub length-sector_layout :
    (xs : List ℕ) (gap3 : ℕ) → length (sector_layout xs gap3) ≡ 18 + length xs + gap3
length-sector_layout xs gap3 = omega (
  arith,
  length-append {0} (xs ++ crc_bytes (marked 0xfb xs)) (replicate gap3 0x4e),
  length-append {0} xs (crc_bytes (marked 0xfb xs)),
  length-replicate {A = ℕ} gap3 0x4e,
)

pub sector_layout-IsByte :
    (xs : List ℕ) (gap3 : ℕ) → All (λ x. x < 256) xs → All (λ x. x < 256) (sector_layout xs gap3)
sector_layout-IsByte xs gap3 h =
    All-append (λ x. x < 256) (replicate 12 0x00) (data_block xs ++ replicate gap3 0x4e)
      (replicate-IsByte 12 0x00 (omega arith))
      (All-append (λ x. x < 256) (data_block xs) (replicate gap3 0x4e)
        (with_crc-IsByte (marked 0xfb xs) (marked-IsByte 0xfb xs (omega arith) h))
        (replicate-IsByte gap3 0x4e (omega arith)))

pub sector_bytes-lt : (n : ℕ) → sector_bytes n < 2 ^ 32
unfolding sector_bytes
sector_bytes-lt n = omega arith
