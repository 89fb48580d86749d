-- ===== src/Ibm/Scan/Gap.antt =====
-- The gap that a scan computes is the gap that the track was written with.
use flashfloppy_testbed.Prelude.{ℕ, ◌+◌, ◌-◌, ◌*◌, ◌/◌, ◌^◌, ◌<◌, ◌≤◌, ◌≡◌, ◌∙◌, ap, arith}
use flashfloppy_testbed.Prelude.{List, [], ◌∷◌, true, leb}
use flashfloppy_testbed.Prelude.Int.{pos, sub_ℕ}
use native.Mathlib.Nat.{div-eq_of_lt-le}
use flashfloppy_testbed.Mem.{u32}
use flashfloppy_testbed.Ibm.{sector_bytes}
use flashfloppy_testbed.Ibm.Write.{time_sysclk}
use flashfloppy_testbed.Ibm.Scan.{ScanInfo, round_div, gap3_between, scan_gap3}

round_lem : (n b x : ℕ) → n * b ≤ x + b / 2 → x + b / 2 < (n + 1) * b → round_div x b ≡ n
round_lem n b x low high = div-eq_of_lt-le b low high

-- What a sector takes on a track that was written with that gap, in bytes.
abbrev pub sector_span : ℕ → ℕ → ℕ
sector_span size gap3 = 62 + size + gap3

minus_fixed :
    (size gap3 : ℕ) → sub_ℕ (62 + size + gap3) (12 + 8 + 2 + 22 + (12 + 4 + size + 2)) ≡ pos gap3
minus_fixed size gap3 = ground arith

between :
    (ticks_per_cell gap3 : ℕ) (first second : ScanInfo)
    → sector_span (sector_bytes first.idam.n) gap3 * time_sysclk (16 * ticks_per_cell)
      ≤ u32 (second.ticks_past_index + 2 ^ 32 - first.ticks_past_index)
        + time_sysclk (16 * ticks_per_cell) / 2
    → u32 (second.ticks_past_index + 2 ^ 32 - first.ticks_past_index)
        + time_sysclk (16 * ticks_per_cell) / 2
      < (sector_span (sector_bytes first.idam.n) gap3 + 1) * time_sysclk (16 * ticks_per_cell)
    → gap3_between ticks_per_cell first second ≡ pos gap3
unfolding gap3_between
between ticks_per_cell gap3 first second low high =
    ap (λ n. sub_ℕ n (12 + 8 + 2 + 22 + (12 + 4 + sector_bytes first.idam.n + 2)))
      (round_lem (sector_span (sector_bytes first.idam.n) gap3) (time_sysclk (16 * ticks_per_cell))
        _ low high)
    ∙ minus_fixed (sector_bytes first.idam.n) gap3

-- Where the first two headers of a scan are as far apart as a sector written with a gap of `gap3`
-- bytes, to within half a byte's time, `ibm_mfm_scan` gives that gap, with no warning.
pub scan_gap3_lem :
    (ticks_per_cell max gap3 : ℕ) (first second : ScanInfo) (rest : List ScanInfo)
    → 2 ≤ max
    → gap3 < 2 ^ 32
    → (let byte = time_sysclk (16 * ticks_per_cell) in
        let apart = u32 (second.ticks_past_index + 2 ^ 32 - first.ticks_past_index) in
        (sector_span (sector_bytes first.idam.n) gap3 * byte ≤ apart + byte / 2)
        × (apart + byte / 2 < (sector_span (sector_bytes first.idam.n) gap3 + 1) * byte))
    → scan_gap3 ticks_per_cell max (first ∷ second ∷ rest) ≡ (gap3, [])
unfolding scan_gap3
scan_gap3_lem ticks_per_cell max gap3 first second rest two small near =
    let gap : gap3_between ticks_per_cell first second ≡ pos gap3 =
      between ticks_per_cell gap3 first second near.0 near.1 in
    let enough : leb 2 max ≡ true = ground (arith, two) in
    rw (enough, gap) (ap (λ g. (g, [])) (wide gap3 small))
  where
    wide : (g : ℕ) → g < 2 ^ 32 → u32 g ≡ g
    wide g h = omega arith
