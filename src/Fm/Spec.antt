-- ===== src/Fm/Spec.antt =====
-- FM by its rule: each data bit follows a clock bit that is set.
use flashfloppy_testbed.Prelude.{ℕ, zero, suc, ◌+◌, ◌*◌, ◌/◌, ◌%◌}

-- The `n` low bits of `x` at every second place.
abbrev pub spread : ℕ → ℕ → ℕ
spread zero x = 0
spread (suc n) x = x % 2 + 4 * spread n (x / 2)

unfoldable pub fm_word : ℕ → ℕ
fm_word x = 2 * spread 8 0xff + spread 8 x
