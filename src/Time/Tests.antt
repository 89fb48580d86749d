-- ===== src/Time/Tests.antt =====
-- The theorem at a concrete input: two updates, half a second apart, and a time behind the wrap of
-- the counter.
use flashfloppy_testbed.Prelude.{◌^◌, ◌%◌, ◌≡◌, arith, [], ◌∷◌}
use flashfloppy_testbed.Time.{time_now}
use flashfloppy_testbed.Time.Now.{counter, stamp, updated, time_now-updated}

time_now-updated_example :
    time_now (updated (stamp 16000000) (20500000 ∷ 25000000 ∷ [])) (counter 34000000)
    ≡ 34000000 % 2 ^ 32
time_now-updated_example =
    time_now-updated (20500000 ∷ 25000000 ∷ []) 16000000 34000000
      (omega arith, omega arith, (omega arith, omega arith, (omega arith, omega arith)))
