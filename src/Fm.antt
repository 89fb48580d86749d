-- ===== src/Fm.antt =====
-- src/fm.c: conversion between bytes and FM bitcells, in place, over the table of src/mfm.c.
pub mod Spec
pub mod Table
pub mod Encode
pub mod Check
pub mod Sync
mod Tests
use flashfloppy_testbed.Prelude.{
  ℕ, zero, suc, ◌+◌, ◌-◌, ◌*◌, List, [], ◌∷◌, bit_and, bit_or, ◌==◌, if◌then◌else◌,
}
use flashfloppy_testbed.Mem.{Mem, u16, load16, store16, rev16}
use flashfloppy_testbed.Mfm.{bintomfm, mfmtobin, mfm_to_bin}

-- `fm_sync`
unfoldable pub fm_sync : ℕ → ℕ → ℕ
fm_sync dat clk =
    let dat_cells = bit_and (bintomfm dat) 0x5555 in
    let clk_cells = u16 (bit_and (bintomfm clk) 0x5555 * 2) in bit_or clk_cells dat_cells

-- The loop of `bin_to_fm`, with `x` loaded from `in_`.
unfoldable pub bin_to_fm_loop : Mem → ℕ → ℕ → ℕ → ℕ → Mem
bin_to_fm_loop m in_ out x zero = m
bin_to_fm_loop m in_ out x (suc nr) =
    let y = m (in_ - 1) in
    bin_to_fm_loop (store16 m (out - 2) (rev16 (bit_or (bintomfm x) 0xaaaa))) (in_ - 1) (out - 2) y
      nr

unfoldable pub bin_to_fm : Mem → ℕ → ℕ → Mem
bin_to_fm m p nr = bin_to_fm_loop m (p + nr - 1) (p + nr * 2) (m (p + nr - 1)) nr

-- `fm_to_bin`
unfoldable pub fm_to_bin : Mem → ℕ → ℕ → Mem
fm_to_bin m p nr = mfm_to_bin m p nr

-- `fm_check` from word `i` on. Returns the words it warns of.
unfoldable pub fm_check_loop : Mem → ℕ → ℕ → ℕ → List ℕ
fm_check_loop m in_ i zero = []
fm_check_loop m in_ i (suc nr) =
    let b = rev16 (load16 m in_) in
    let c = bit_or (bintomfm (mfmtobin b)) 0xaaaa in
    let rest = fm_check_loop m (in_ + 2) (i + 1) nr in if b == c then rest else i ∷ rest

unfoldable pub fm_check : Mem → ℕ → ℕ → List ℕ
fm_check m p nr = fm_check_loop m p 0 nr
