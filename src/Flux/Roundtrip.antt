-- ===== src/Flux/Roundtrip.antt =====
-- The read path makes the same bits of the timings that the write path gives.
use flashfloppy_testbed.Prelude.{ℕ, suc, ◌+◌, ◌-◌, ◌*◌}
use flashfloppy_testbed.Prelude.{List, [], ◌∷◌, ◌++◌, ◌==◌, if◌then◌else◌}
use flashfloppy_testbed.Mem.{u16}

-- The numbers of zeros before each one, behind `k` zeros.
abbrev pub gaps : ℕ → List ℕ → List ℕ
gaps k [] = []
gaps k (b ∷ bs) = if b == 1 then k ∷ gaps 0 bs else gaps (suc k) bs

-- What a free-running 16-bit timer samples at the pulses of a timer with those reload values, last
-- first, and its last sample. A timer with reload value `arr` runs for `arr + 1` ticks.
abbrev pub sampled : ℕ → List ℕ → List ℕ × ℕ
sampled prev [] = ([], prev)
sampled prev (arr ∷ arrs) =
    let before = sampled prev arrs in
    (before.0 ++ (u16 (before.1 + arr + 1) ∷ []), u16 (before.1 + arr + 1))

-- The samples in order.
abbrev edges : ℕ → ℕ → List ℕ → List ℕ
edges cell prev [] = []
edges cell prev (k ∷ ks) =
    u16 (prev + (suc k * cell - 1) + 1) ∷ edges cell (u16 (prev + (suc k * cell - 1) + 1)) ks
