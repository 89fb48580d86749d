-- ===== src/Timer/Program.antt =====
-- What `reprogram_timer` leaves in the hardware timer, against the delay asked for.
use flashfloppy_testbed.Prelude.{ℕ, ◌+◌, ◌*◌, ◌^◌, ◌<◌, ◌≤◌, arith}
use flashfloppy_testbed.Prelude.Int.{pos}
use flashfloppy_testbed.Timer.{Timers, reprogram_timer, fine_arr, coarse_arr}

-- For a delay of `d` ticks beyond the slack, `reprogram_timer` loads a nonzero value of 16 bits, and
-- the counter overflows, after `arr + 1` periods of `psc + 1` SYSCLKs, no later than the delay (a
-- tick is eight SYSCLKs).
pub reprogram_timer-fires_in_time :
    (s : Timers) (d : ℕ)
    → 12 < d
    → d < 2 ^ 31
    → let r = reprogram_timer s (pos d) in
      (0 < r.arr) × (r.arr < 2 ^ 16) × (r.psc < 2 ^ 16) × ((r.arr + 1) * (r.psc + 1) ≤ 8 * d)
unfolding reprogram_timer fine_arr coarse_arr
reprogram_timer-fires_in_time s d h k = ground arith
