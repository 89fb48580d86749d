-- ===== src/Timer/Tests.antt =====
-- Concrete runs, and the theorems at concrete inputs.
use flashfloppy_testbed.Prelude.{ℕ, ◌+◌, ◌-◌, ◌*◌, ◌^◌, ◌<◌, ◌≤◌, ◌≡◌, refl, arith}
use flashfloppy_testbed.Prelude.{[], ◌∷◌, ◌==◌, if◌then◌else◌}
use flashfloppy_testbed.Prelude.Int.{pos}
use flashfloppy_testbed.Timer.{Timers, timer_set, timer_cancel, reprogram_timer}
use flashfloppy_testbed.Timer.Queue.{IsOrdered, IsDistinct, IsTimerSet, timer_set-IsTimerSet}
use flashfloppy_testbed.Timer.Program.{reprogram_timer-fires_in_time}

-- timers 1 and 2, the time having just wrapped around
abbrev deadlines : ℕ → ℕ
deadlines t = if t == 1 then 2 ^ 32 - 5 else 20

abbrev two_timers : Timers
two_timers = record { queue = 1 ∷ 2 ∷ []; deadline = deadlines; psc = 7; arr = 1 }

two_timers-IsOrdered : IsOrdered 3 deadlines (1 ∷ 2 ∷ [])
two_timers-IsOrdered = ((omega arith, tt), (tt, tt))

two_timers-IsDistinct : IsDistinct (1 ∷ 2 ∷ [])
two_timers-IsDistinct = ((omega arith, tt), (tt, tt))

third_between : (timer_set two_timers 3 10 3).queue ≡ 1 ∷ 3 ∷ 2 ∷ []
unfolding timer_set timer_cancel flashfloppy_testbed.Timer.link_in
    flashfloppy_testbed.Timer.timer_is_active
third_between = refl

timer_set-IsTimerSet_example : IsTimerSet two_timers (timer_set two_timers 1 900 3) 1 900 3
timer_set-IsTimerSet_example =
    timer_set-IsTimerSet two_timers 1 900 3 two_timers-IsOrdered two_timers-IsDistinct

reprogram_timer-fires_in_time_example :
    let r = reprogram_timer two_timers (pos 70000) in
    (0 < r.arr) × (r.arr < 2 ^ 16) × (r.psc < 2 ^ 16) × ((r.arr + 1) * (r.psc + 1) ≤ 8 * 70000)
reprogram_timer-fires_in_time_example =
    reprogram_timer-fires_in_time two_timers 70000 (omega arith) (omega arith)
