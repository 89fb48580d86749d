-- ===== src/Timer.antt =====
-- src/timer.c: deadline timers on one hardware timer. A timer is a number; the list from `head`
-- through the `next` pointers is `queue`, and a timer that is not on it is `TIMER_INACTIVE`.
pub mod Queue
pub mod Program
pub mod Irq
mod Tests
use flashfloppy_testbed.Prelude.{ℕ, zero, suc, ◌+◌, ◌-◌, ◌*◌, ◌/◌, ◌%◌, ◌^◌, List, [], ◌∷◌}
use flashfloppy_testbed.Prelude.{
  Bool, true, false, not, ◌==◌, leb, if◌then◌else◌, Option, none, some,
}
use flashfloppy_testbed.Prelude.Int.{ℤ, pos, negsuc, signed32, lez}
use flashfloppy_testbed.Mem.{u32}

-- The list, `deadline` of each timer, and the prescaler and reload value of the hardware timer.
pub record Timers : Type 0 where
  pub queue : List ℕ
  pub deadline : ℕ → ℕ
  pub psc : ℕ
  pub arr : ℕ

abbrev pub slack_ticks : ℕ
slack_ticks = 12

-- `time_diff(x, y)`
abbrev pub time_diff : ℕ → ℕ → ℤ
time_diff x y = signed32 (u32 (y + 2 ^ 32 - x))

-- The reload value for a delay: fine below 0x10000 ticks, else in units of 100us.
unfoldable pub fine_arr : ℤ → ℕ
fine_arr (pos d) = if leb d slack_ticks then 1 else d - slack_ticks
fine_arr (negsuc d) = 1

unfoldable pub coarse_arr : ℕ → ℕ
coarse_arr d = if leb 0xffff (d / 900 - 50) then 0xffff else d / 900 - 50

-- `reprogram_timer`
unfoldable pub reprogram_timer : Timers → ℤ → Timers
unfolding fine_arr coarse_arr
reprogram_timer s (pos d) =
    if leb 0x10000 d
    then record { queue = s.queue; deadline = s.deadline; psc = 7200 - 1; arr = coarse_arr d }
    else record { queue = s.queue; deadline = s.deadline; psc = 72 / 9 - 1; arr = fine_arr (pos d) }
reprogram_timer s (negsuc d) = record {
  queue = s.queue;
  deadline = s.deadline;
  psc = 72 / 9 - 1;
  arr = fine_arr (negsuc d);
}

-- `timer_is_active`
unfoldable pub timer_is_active : ℕ → List ℕ → Bool
timer_is_active timer [] = false
timer_is_active timer (t ∷ ts) = if t == timer then true else timer_is_active timer ts

-- The walk of `_timer_cancel`, which unlinks the timer where it finds it.
unfoldable pub unlink : ℕ → List ℕ → List ℕ
unlink timer [] = []
unlink timer (t ∷ ts) = let rest = unlink timer ts in if t == timer then ts else t ∷ rest

-- `_timer_cancel`, which `timer_cancel` calls with the timer interrupt masked
unfoldable pub timer_cancel : Timers → ℕ → Timers
timer_cancel s timer =
    if timer_is_active timer s.queue
    then record { queue = unlink timer s.queue; deadline = s.deadline; psc = s.psc; arr = s.arr }
    else s

-- The walk of `timer_set`, which links the timer before the first that is not due sooner.
unfoldable pub link_in : (ℕ → ℕ) → ℕ → ℤ → ℕ → List ℕ → List ℕ
link_in deadline now delta timer [] = timer ∷ []
link_in deadline now delta timer (t ∷ ts) =
    let rest = link_in deadline now delta timer ts in
    if lez delta (time_diff now (deadline t)) then timer ∷ t ∷ ts else t ∷ rest

abbrev pub set_deadline : (ℕ → ℕ) → ℕ → ℕ → ℕ → ℕ
set_deadline deadline timer d t = if t == timer then d else deadline t

abbrev pub is_head : ℕ → List ℕ → Bool
is_head timer [] = false
is_head timer (t ∷ ts) = t == timer

-- `timer_set`, where `now` is what `time_now` returns in it
unfoldable pub timer_set : Timers → ℕ → ℕ → ℕ → Timers
timer_set s timer deadline now =
    let cancelled = timer_cancel s timer in
    let deadlines = set_deadline cancelled.deadline timer deadline in
    let delta = time_diff now deadline in
    let queue = link_in deadlines now delta timer cancelled.queue in
    let linked : Timers = record {
      queue = queue;
      deadline = deadlines;
      psc = cancelled.psc;
      arr = cancelled.arr;
    } in
    if is_head timer queue then reprogram_timer linked delta else linked

-- The loop of `IRQ_timer`: `cb` is what the callback of a timer does, `clock` what `time_now` returns
-- in turn. Gives the timers whose callback has run, too; `none` is a loop still running when the
-- readings end.
unfoldable pub irq_timer : (ℕ → Timers → Timers) → List ℕ → Timers → Option (Timers × List ℕ)
irq_timer cb [] s = elim s.queue [ [] ↦ some (s, []) | t ∷ rest ↦ none ]
irq_timer cb (now ∷ clock) s = elim s.queue [
  | [] ↦ some (s, [])
  | t ∷ rest ↦
      let delta = time_diff now (s.deadline t) in
      elim (lez delta (pos slack_ticks)) [
        | false ↦ some (reprogram_timer s delta, [])
        | true ↦
            let popped : Timers = record {
              queue = rest;
              deadline = s.deadline;
              psc = s.psc;
              arr = s.arr;
            } in
            elim (irq_timer cb clock (cb t popped)) [ none ↦ none | some r ↦ some (r.0, t ∷ r.1) ]
      ]
]
