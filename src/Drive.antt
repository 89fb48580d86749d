-- ===== src/Drive.antt =====
-- src/floppy.c: selecting a drive, stepping its heads, changing its disk. What hangs on the pins, the
-- clock and the interrupts' counters are a bus, which the functions are given.
pub mod Seek
pub mod Change
mod Tests
use flashfloppy_testbed.Prelude.{
  ℕ, zero, suc, ◌+◌, ◌-◌, ◌*◌, ◌^◌, Bool, true, false, not, ◌&&◌, ◌==◌,
}
use flashfloppy_testbed.Prelude.{ltb, leb, if◌then◌else◌}
use flashfloppy_testbed.Prelude.Int.{ℤ, pos, lez}
use flashfloppy_testbed.Mem.{u8, u32}
use flashfloppy_testbed.Timer.{time_diff}
use flashfloppy_testbed.Time.{time_ms}

-- The pins of src/gotek/floppy.c; `true` is O_TRUE.
pub data OutputPin : Type 0 where
  dir step sel0 sel1 side motor : OutputPin

pub data InputPin : Type 0 where
  dskchg_pin trk0_pin ready_pin : InputPin

-- What the functions use of the hardware, whose state is in `W`: it sees the pins that are written
-- and the time that passes (in nanoseconds), and answers with its pins, with `time_now` and with
-- `dskchg.count`, which `reset_dskchg` clears. `poll` is what happens between two looks at it.
pub record Bus (W : Type 0) : Type 0 where
  pub write : OutputPin → Bool → W → W
  pub delay_ns : ℕ → W → W
  pub read : InputPin → W → Bool
  pub time_now : W → ℕ
  pub dskchg_count : W → ℕ
  pub reset_dskchg : W → W
  pub poll : W → W

-- `struct drive`
pub record Drive : Type 0 where
  pub cyl : ℕ
  pub ticks_per_cell : ℕ

-- `drive[2]` and `cur_unit`, which says what `cur_drive` points to.
pub record Drives : Type 0 where
  pub drive0 : Drive
  pub drive1 : Drive
  pub cur_unit : ℕ

abbrev pub cur_drive : Drives → Drive
cur_drive s = if s.cur_unit == 0 then s.drive0 else s.drive1

abbrev pub set_cyl : Drives → ℕ → Drives
set_cyl s cyl =
    if s.cur_unit == 0
    then record {
      drive0 = record { cyl = cyl; ticks_per_cell = s.drive0.ticks_per_cell };
      drive1 = s.drive1;
      cur_unit = s.cur_unit;
    }
    else record {
      drive0 = s.drive0;
      drive1 = record { cyl = cyl; ticks_per_cell = s.drive1.ticks_per_cell };
      cur_unit = s.cur_unit;
    }

-- How a function ends: it returns, it stops at an ASSERT or a BUG_ON, or a loop of it goes on after
-- so many rounds.
pub data Outcome (A : Type 0) : Type 0 where
  done : A → Outcome A
  bug : Outcome A
  spinning : Outcome A

infixl 5 ◌>>=◌
abbrev pub ◌>>=◌ : {A B : Type 0} → Outcome A → (A → Outcome B) → Outcome B
done a >>= f = f a
bug >>= f = bug
spinning >>= f = spinning

module _ {W : Type 0} (b : Bus W) where
  abbrev pub delay_us : ℕ → W → W
  delay_us n w = b.delay_ns (n * 1000) w

  abbrev pub delay_ms : ℕ → W → W
  delay_ms n w = b.delay_ns (n * 1000000) w

  unfoldable pub step_one_out : W → W
  step_one_out w =
      let pulsed = b.write step true (b.write dir false w) in
      delay_ms 2 (b.write step false (b.delay_ns 400 pulsed))

  unfoldable pub step_one_in : W → W
  step_one_in w =
      let pulsed = b.write step true (b.write dir true w) in
      delay_ms 2 (b.write step false (b.delay_ns 400 pulsed))

  -- `while (get_trk0() != O_TRUE) step_one_out();`
  unfoldable pub find_trk0 : ℕ → W → Outcome W
  find_trk0 zero w = spinning
  find_trk0 (suc fuel) w =
      let rest = find_trk0 fuel (step_one_out w) in if b.read trk0_pin w then done w else rest

  -- The part of `floppy_init` that finds cylinder 0 on unit 0.
  unfoldable pub init_heads : ℕ → Drives → W → Outcome (Drives × W)
  unfolding find_trk0
  init_heads fuel s w = do
    found ← find_trk0 fuel (delay_us 10 (b.write sel0 true w))
    done (
      record {
        drive0 = record { cyl = 0; ticks_per_cell = s.drive0.ticks_per_cell };
        drive1 = s.drive1;
        cur_unit = s.cur_unit;
      },
      b.write sel0 false found,
    )

  -- `cur_drive` is set before the unit is checked.
  unfoldable pub floppy_select : ℕ → Drives → W → Outcome (Drives × W)
  floppy_select unit s w =
      let selected : Drives = record { drive0 = s.drive0; drive1 = s.drive1; cur_unit = unit } in
      let lines =
        if unit == 0
        then b.write sel0 true (b.write sel1 false w)
        else b.write sel1 true (b.write sel0 false w) in
      if leb unit 1 then done (selected, b.write motor true (delay_us 10 lines)) else bug

  -- `while (drv->cyl < cyl) { step_one_in(); drv->cyl++; }` on the drive's `cyl`
  unfoldable pub seek_in : ℕ → ℕ → ℕ → W → Outcome (ℕ × W)
  seek_in zero cyl at w = spinning
  seek_in (suc fuel) cyl at w =
      let rest = seek_in fuel cyl (u8 (at + 1)) (step_one_in w) in
      if ltb at cyl then rest else done (at, w)

  -- `while (drv->cyl > cyl) { step_one_out(); drv->cyl--; }`
  unfoldable pub seek_out : ℕ → ℕ → ℕ → W → Outcome (ℕ × W)
  seek_out zero cyl at w = spinning
  seek_out (suc fuel) cyl at w =
      let rest = seek_out fuel cyl (at - 1) (step_one_out w) in
      if ltb cyl at then rest else done (at, w)

  -- The special handling of cylinder 0.
  unfoldable pub recalibrate : ℕ → ℕ → ℕ → W → Outcome (ℕ × W)
  recalibrate fuel cyl at w =
      if cyl == 0 then (find_trk0 fuel w >>= λ found. done (0, found)) else done (at, w)

  unfoldable pub floppy_seek : ℕ → ℕ → Bool → Drives → W → Outcome (Drives × W)
  floppy_seek fuel cyl side' s w = do
    (start, w0) ← recalibrate fuel cyl (cur_drive s).cyl (b.write side side' w)
    (inner, w1) ← seek_in fuel cyl start w0
    (at, w2) ← seek_out fuel cyl inner w1
    done (set_cyl s at, delay_ms 10 w2)

  -- `time_diff(t, time_now()) > time_ms(ms)`
  unfoldable pub expired : ℕ → ℕ → W → Bool
  expired ms t w = not (lez (time_diff t (b.time_now w)) (pos (time_ms ms)))

  -- `while (dskchg.count == 0) BUG_ON(...);`
  unfoldable pub wait_toggle : ℕ → ℕ → W → Outcome W
  wait_toggle zero t w = spinning
  wait_toggle (suc fuel) t w =
      let rest = wait_toggle fuel t (b.poll w) in
      if b.dskchg_count w == 0 then (if expired 1000 t w then bug else rest) else done w

  -- `while (get_dskchg() == O_TRUE) { BUG_ON(...); step_one_out(); if (drv->cyl) drv->cyl--; }`
  unfoldable pub wait_mount : ℕ → ℕ → ℕ → W → Outcome (ℕ × W)
  wait_mount zero t at w = spinning
  wait_mount (suc fuel) t at w =
      let rest = wait_mount fuel t (at - 1) (step_one_out w) in
      if b.read dskchg_pin w then (if expired 5000 t w then bug else rest) else done (at, w)

  -- `while (get_ready() == O_FALSE) BUG_ON(...);`
  unfoldable pub wait_ready : ℕ → ℕ → W → Outcome W
  wait_ready zero t w = spinning
  wait_ready (suc fuel) t w =
      let rest = wait_ready fuel t (b.poll w) in
      if b.read ready_pin w then done w else if expired 1000 t w then bug else rest

  -- The message on a long disk change is not modelled.
  unfoldable pub floppy_disk_change : ℕ → Drives → W → Outcome (Drives × W)
  floppy_disk_change fuel s w =
      let cleared = b.reset_dskchg w in
      if b.read trk0_pin cleared then bug else do
        (home, w0) ← floppy_seek fuel 0 false s cleared
        toggled ← wait_toggle fuel (b.time_now w0) w0
        (at, mounted) ← wait_mount fuel (b.time_now toggled) (cur_drive home).cyl toggled
        let spun = b.write motor true mounted
        ready ← wait_ready fuel (b.time_now spun) spun
        done (set_cyl home at, ready)

  -- `while ((get_ready() == O_TRUE) && time_diff(t, time_now()) < time_ms(500)) continue;`
  unfoldable pub wait_spin_down : ℕ → ℕ → W → Outcome W
  wait_spin_down zero t w = spinning
  wait_spin_down (suc fuel) t w =
      let rest = wait_spin_down fuel t (b.poll w) in
      let early = not (lez (pos (time_ms 500)) (time_diff t (b.time_now w))) in
      if b.read ready_pin w && early then rest else done w

  -- `while (get_ready() == O_FALSE) continue;`
  unfoldable pub wait_spin_up : ℕ → W → Outcome W
  wait_spin_up zero w = spinning
  wait_spin_up (suc fuel) w =
      let rest = wait_spin_up fuel (b.poll w) in if b.read ready_pin w then done w else rest

  -- Whether the motor line was obeyed.
  unfoldable pub test_ready : ℕ → W → Outcome (Bool × W)
  test_ready fuel w = do
    let off = b.write motor false w
    down ← wait_spin_down fuel (b.time_now off) off
    let on = b.write motor true down
    let obeyed = wait_spin_up fuel on >>= λ up. done (true, up)
    (if b.read ready_pin down then done (false, on) else obeyed)

-- `index` and what its interrupt does to it; that of DSKCHG only counts.
pub record Index : Type 0 where
  pub count : ℕ
  pub timestamp : ℕ

unfoldable pub irq_index_changed : Index → ℕ → Index
irq_index_changed index now = record { count = u32 (index.count + 1); timestamp = now }

unfoldable pub irq_dskchg_changed : ℕ → ℕ
irq_dskchg_changed count = u32 (count + 1)
