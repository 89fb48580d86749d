-- ===== src/Time.antt =====
-- src/time.c: a system time of 32 bits over a counter of 24 bits that counts down. `stk` is what the
-- counter shows.
pub mod Now
mod Tests
use flashfloppy_testbed.Prelude.{ℕ, ◌+◌, ◌-◌, ◌*◌, ◌^◌, bit_and, bit_or, ltb, if◌then◌else◌}
use flashfloppy_testbed.Mem.{u32}

-- `time_now`, `s` being `time_stamp`
unfoldable pub time_now : ℕ → ℕ → ℕ
time_now s stk =
    let t = bit_or stk (bit_and s 0xff000000) in
    if ltb s t then 2 ^ 32 - 1 - u32 (t + 2 ^ 32 - 2 ^ 24) else 2 ^ 32 - 1 - t

-- `time_ms`
abbrev pub time_ms : ℕ → ℕ
time_ms x = u32 (x * 1000 * 9)

-- `time_stamp_update`: the new `time_stamp`, and the deadline for the next one.
unfoldable pub time_stamp_update : ℕ → ℕ → ℕ × ℕ
unfolding time_now
time_stamp_update s stk = let now = time_now s stk in (2 ^ 32 - 1 - now, u32 (now + time_ms 500))
