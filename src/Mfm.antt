-- ===== src/Mfm.antt =====
-- src/mfm.c: conversion between bytes and MFM bitcells, in place.
pub mod Spec
pub mod Asm
pub mod Decode
pub mod Encode
pub mod Check
pub mod Words
pub mod Silent
mod Tests
use flashfloppy_testbed.Prelude.{ℕ, zero, suc, ◌+◌, ◌-◌, ◌*◌, ◌/◌, ◌%◌, ◌^◌, List, [], ◌∷◌, ◌++◌}
use flashfloppy_testbed.Prelude.{bit_and, get_or, ◌==◌, if◌then◌else◌}
use flashfloppy_testbed.Mem.{Mem, u8, u16, u32, load16, store8, store16, rev16}

-- `mfmtab`
abbrev pub mfmtab : List ℕ
mfmtab =
    0xaaaa ∷ 0xaaa9 ∷ 0xaaa4 ∷ 0xaaa5 ∷ 0xaa92 ∷ 0xaa91 ∷ 0xaa94 ∷ 0xaa95 ∷ 0xaa4a ∷ 0xaa49 ∷ 0xaa44
    ∷ 0xaa45 ∷ 0xaa52 ∷ 0xaa51 ∷ 0xaa54 ∷ 0xaa55 ∷ 0xa92a ∷ 0xa929 ∷ 0xa924 ∷ 0xa925 ∷ 0xa912
    ∷ 0xa911 ∷ 0xa914 ∷ 0xa915 ∷ 0xa94a ∷ 0xa949 ∷ 0xa944 ∷ 0xa945 ∷ 0xa952 ∷ 0xa951 ∷ 0xa954
    ∷ 0xa955 ∷ 0xa4aa ∷ 0xa4a9 ∷ 0xa4a4 ∷ 0xa4a5 ∷ 0xa492 ∷ 0xa491 ∷ 0xa494 ∷ 0xa495 ∷ 0xa44a
    ∷ 0xa449 ∷ 0xa444 ∷ 0xa445 ∷ 0xa452 ∷ 0xa451 ∷ 0xa454 ∷ 0xa455 ∷ 0xa52a ∷ 0xa529 ∷ 0xa524
    ∷ 0xa525 ∷ 0xa512 ∷ 0xa511 ∷ 0xa514 ∷ 0xa515 ∷ 0xa54a ∷ 0xa549 ∷ 0xa544 ∷ 0xa545 ∷ 0xa552
    ∷ 0xa551 ∷ 0xa554 ∷ 0xa555 ∷ 0x92aa ∷ 0x92a9 ∷ 0x92a4 ∷ 0x92a5 ∷ 0x9292 ∷ 0x9291 ∷ 0x9294
    ∷ 0x9295 ∷ 0x924a ∷ 0x9249 ∷ 0x9244 ∷ 0x9245 ∷ 0x9252 ∷ 0x9251 ∷ 0x9254 ∷ 0x9255 ∷ 0x912a
    ∷ 0x9129 ∷ 0x9124 ∷ 0x9125 ∷ 0x9112 ∷ 0x9111 ∷ 0x9114 ∷ 0x9115 ∷ 0x914a ∷ 0x9149 ∷ 0x9144
    ∷ 0x9145 ∷ 0x9152 ∷ 0x9151 ∷ 0x9154 ∷ 0x9155 ∷ 0x94aa ∷ 0x94a9 ∷ 0x94a4 ∷ 0x94a5 ∷ 0x9492
    ∷ 0x9491 ∷ 0x9494 ∷ 0x9495 ∷ 0x944a ∷ 0x9449 ∷ 0x9444 ∷ 0x9445 ∷ 0x9452 ∷ 0x9451 ∷ 0x9454
    ∷ 0x9455 ∷ 0x952a ∷ 0x9529 ∷ 0x9524 ∷ 0x9525 ∷ 0x9512 ∷ 0x9511 ∷ 0x9514 ∷ 0x9515 ∷ 0x954a
    ∷ 0x9549 ∷ 0x9544 ∷ 0x9545 ∷ 0x9552 ∷ 0x9551 ∷ 0x9554 ∷ 0x9555 ∷ 0x4aaa ∷ 0x4aa9 ∷ 0x4aa4
    ∷ 0x4aa5 ∷ 0x4a92 ∷ 0x4a91 ∷ 0x4a94 ∷ 0x4a95 ∷ 0x4a4a ∷ 0x4a49 ∷ 0x4a44 ∷ 0x4a45 ∷ 0x4a52
    ∷ 0x4a51 ∷ 0x4a54 ∷ 0x4a55 ∷ 0x492a ∷ 0x4929 ∷ 0x4924 ∷ 0x4925 ∷ 0x4912 ∷ 0x4911 ∷ 0x4914
    ∷ 0x4915 ∷ 0x494a ∷ 0x4949 ∷ 0x4944 ∷ 0x4945 ∷ 0x4952 ∷ 0x4951 ∷ 0x4954 ∷ 0x4955 ∷ 0x44aa
    ∷ 0x44a9 ∷ 0x44a4 ∷ 0x44a5 ∷ 0x4492 ∷ 0x4491 ∷ 0x4494 ∷ 0x4495 ∷ 0x444a ∷ 0x4449 ∷ 0x4444
    ∷ 0x4445 ∷ 0x4452 ∷ 0x4451 ∷ 0x4454 ∷ 0x4455 ∷ 0x452a ∷ 0x4529 ∷ 0x4524 ∷ 0x4525 ∷ 0x4512
    ∷ 0x4511 ∷ 0x4514 ∷ 0x4515 ∷ 0x454a ∷ 0x4549 ∷ 0x4544 ∷ 0x4545 ∷ 0x4552 ∷ 0x4551 ∷ 0x4554
    ∷ 0x4555 ∷ 0x52aa ∷ 0x52a9 ∷ 0x52a4 ∷ 0x52a5 ∷ 0x5292 ∷ 0x5291 ∷ 0x5294 ∷ 0x5295 ∷ 0x524a
    ∷ 0x5249 ∷ 0x5244 ∷ 0x5245 ∷ 0x5252 ∷ 0x5251 ∷ 0x5254 ∷ 0x5255 ∷ 0x512a ∷ 0x5129 ∷ 0x5124
    ∷ 0x5125 ∷ 0x5112 ∷ 0x5111 ∷ 0x5114 ∷ 0x5115 ∷ 0x514a ∷ 0x5149 ∷ 0x5144 ∷ 0x5145 ∷ 0x5152
    ∷ 0x5151 ∷ 0x5154 ∷ 0x5155 ∷ 0x54aa ∷ 0x54a9 ∷ 0x54a4 ∷ 0x54a5 ∷ 0x5492 ∷ 0x5491 ∷ 0x5494
    ∷ 0x5495 ∷ 0x544a ∷ 0x5449 ∷ 0x5444 ∷ 0x5445 ∷ 0x5452 ∷ 0x5451 ∷ 0x5454 ∷ 0x5455 ∷ 0x552a
    ∷ 0x5529 ∷ 0x5524 ∷ 0x5525 ∷ 0x5512 ∷ 0x5511 ∷ 0x5514 ∷ 0x5515 ∷ 0x554a ∷ 0x5549 ∷ 0x5544
    ∷ 0x5545 ∷ 0x5552 ∷ 0x5551 ∷ 0x5554 ∷ 0x5555 ∷ []

-- `mfmtab[x]`, which `bintomfm` is
unfoldable pub bintomfm : ℕ → ℕ
bintomfm x = get_or mfmtab x 0

-- One line of the assembly of `mfmtobin`: `lsrs x,x,#2` moves bit 1 to the carry, `rrx y,y`
-- shifts it in at the top of `y`. The count is the number of lines.
unfoldable pub shift_pairs : ℕ → ℕ → ℕ → ℕ
shift_pairs zero y x = y
shift_pairs (suc n) y x = shift_pairs n (x / 2 % 2 * 2 ^ 31 + y / 2) (x / 4)

-- `rev`
unfoldable pub rev32 : ℕ → ℕ
rev32 y = y % 256 * 2 ^ 24 + y / 256 % 256 * 2 ^ 16 + y / 2 ^ 16 % 256 * 256 + y / 2 ^ 24

-- The assembly with `garbage` in the register of `y`, which it does not initialise.
unfoldable pub mfmtobin_from : ℕ → ℕ → ℕ
unfolding shift_pairs rev32
mfmtobin_from garbage x = u8 (rev32 (shift_pairs 8 garbage (u16 (x * 2))))

unfoldable pub mfmtobin : ℕ → ℕ
unfolding mfmtobin_from
mfmtobin x = mfmtobin_from 0 x

-- `while (nr--) *out++ = mfmtobin(be16toh(*in++));`
unfoldable pub mfm_to_bin_loop : Mem → ℕ → ℕ → ℕ → Mem
mfm_to_bin_loop m in_ out zero = m
mfm_to_bin_loop m in_ out (suc nr) =
    mfm_to_bin_loop (store8 m out (mfmtobin (rev16 (load16 m in_)))) (in_ + 2) (out + 1) nr

unfoldable pub mfm_to_bin : Mem → ℕ → ℕ → Mem
mfm_to_bin m p nr = mfm_to_bin_loop m p p nr

-- `w & ~(y << 15)`, in 32 bits
unfoldable pub clear_clock : ℕ → ℕ → ℕ
clear_clock w y = bit_and w (2 ^ 32 - 1 - u32 (y * 2 ^ 15))

-- The loop of `bin_to_mfm`, with `x` loaded from `in_`.
unfoldable pub bin_to_mfm_loop : Mem → ℕ → ℕ → ℕ → ℕ → Mem
bin_to_mfm_loop m in_ out x zero = m
bin_to_mfm_loop m in_ out x (suc nr) =
    let y = m (in_ - 1) in
    bin_to_mfm_loop (store16 m (out - 2) (rev16 (clear_clock (bintomfm x) y))) (in_ - 1) (out - 2) y
      nr

unfoldable pub bin_to_mfm : Mem → ℕ → ℕ → Mem
bin_to_mfm m p nr = bin_to_mfm_loop m (p + nr - 1) (p + nr * 2) (m (p + nr - 1)) nr

-- `mfm_check` from word `i` on, `a` being the word before it. Returns the words it warns of.
unfoldable pub mfm_check_loop : Mem → ℕ → ℕ → ℕ → ℕ → List ℕ
mfm_check_loop m in_ a i zero = []
mfm_check_loop m in_ a i (suc nr) =
    let b = rev16 (load16 m in_) in
    let c = clear_clock (bintomfm (mfmtobin b)) a in
    let rest = mfm_check_loop m (in_ + 2) b (i + 1) nr in if b == c then rest else i ∷ rest

-- `a` starts as `in[-1]`, with no `be16toh`.
unfoldable pub mfm_check : Mem → ℕ → ℕ → List ℕ
mfm_check m p nr = mfm_check_loop m p (load16 m (p - 2)) 0 nr
