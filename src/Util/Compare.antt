-- ===== src/Util/Compare.antt =====
-- src/util.c: `memcmp`, `strncmp` and `strcmp`. `char` is unsigned on this target, and each operand
-- comes with the memory that it lies in, so that constants need no address in the other's.
pub mod Memcmp
use flashfloppy_testbed.Prelude.{
  ℕ, zero, suc, ◌+◌, ◌-◌, ◌^◌, ◌==◌, ◌||◌, not, if◌then◌else◌, List, get_or, Bool, true, false,
}
use flashfloppy_testbed.Prelude.Int.{ℤ, pos, sub_ℕ, is_zero}
use flashfloppy_testbed.Mem.{Mem}

-- A constant array as a memory of its own.
abbrev pub rom : List ℕ → Mem
rom xs a = get_or xs a 0

unfoldable pub memcmp : Mem → ℕ → Mem → ℕ → ℕ → ℤ
memcmp m1 s1 m2 s2 zero = pos 0
memcmp m1 s1 m2 s2 (suc n) =
    let diff = sub_ℕ (m1 s1) (m2 s2) in
    let rest = memcmp m1 (s1 + 1) m2 (s2 + 1) n in if is_zero diff then rest else diff

unfoldable pub strncmp : Mem → ℕ → Mem → ℕ → ℕ → ℤ
strncmp m1 s1 m2 s2 zero = pos 0
strncmp m1 s1 m2 s2 (suc n) =
    let diff = sub_ℕ (m1 s1) (m2 s2) in
    elim (not (is_zero diff) || m1 s1 == 0) [
      | true ↦ diff
      | false ↦ strncmp m1 (s1 + 1) m2 (s2 + 1) n
    ]

-- The bound is `~0` as a 32-bit `size_t`.
unfoldable pub strcmp : Mem → ℕ → Mem → ℕ → ℤ
strcmp m1 s1 m2 s2 = strncmp m1 s1 m2 s2 (2 ^ 32 - 1)
