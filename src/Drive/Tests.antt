-- ===== src/Drive/Tests.antt =====
-- The theorems at a concrete drive: its heads follow the step line, it toggles and mounts at once, and
-- its motor is ready at the second look.
use flashfloppy_testbed.Prelude.{
  ℕ, ◌+◌, ◌-◌, ◌/◌, ◌≡◌, refl, arith, Bool, true, false, not, ◌==◌, if◌then◌else◌,
}
use flashfloppy_testbed.Mem.{u32}
use flashfloppy_testbed.Drive.{
  OutputPin, InputPin, dir, step, sel0, sel1, side, motor, dskchg_pin, trk0_pin, ready_pin, Bus,
  Drives, set_cyl, done, step_one_in, step_one_out, floppy_seek,
}
use flashfloppy_testbed.Drive.Seek.{IsDrive, floppy_seek-done}

record World : Type 0 where
  heads : ℕ
  inwards : Bool
  clock : ℕ
  looks : ℕ

abbrev move_heads : World → World
move_heads w = record {
  heads = if w.inwards then w.heads + 1 else w.heads - 1;
  inwards = w.inwards;
  clock = w.clock;
  looks = w.looks;
}

abbrev drive_write : OutputPin → Bool → World → World
drive_write dir x w = record { heads = w.heads; inwards = x; clock = w.clock; looks = w.looks }
drive_write step true w = move_heads w
drive_write step false w = w
drive_write sel0 x w = w
drive_write sel1 x w = w
drive_write side x w = w
drive_write motor x w = record { heads = w.heads; inwards = w.inwards; clock = w.clock; looks = 0 }

abbrev drive_read : InputPin → World → Bool
drive_read dskchg_pin w = false
drive_read trk0_pin w = w.heads == 0
drive_read ready_pin w = not (w.looks == 0)

abbrev later : ℕ → World → World
later n w = record {
  heads = w.heads;
  inwards = w.inwards;
  clock = u32 (w.clock + n / 111);
  looks = w.looks;
}

-- it toggles at once
abbrev bus : Bus World
bus = record {
  write = drive_write;
  delay_ns = later;
  read = drive_read;
  time_now = λ w. w.clock;
  dskchg_count = λ w. 1;
  reset_dskchg = λ w. w;
  poll = λ w. record { heads = w.heads; inwards = w.inwards; clock = w.clock; looks = w.looks + 1 };
}

-- the same drive, deaf, and with a clock that a look moves on by two seconds
abbrev deaf : Bus World
deaf = record {
  write = drive_write;
  delay_ns = later;
  read = drive_read;
  time_now = λ w. u32 w.clock;
  dskchg_count = λ w. 0;
  reset_dskchg = λ w. w;
  poll = λ w. record {
    heads = w.heads;
    inwards = w.inwards;
    clock = w.clock + 18000000;
    looks = w.looks + 1;
  };
}

bus-IsDrive : IsDrive bus (λ w. w.heads)
unfolding step_one_in step_one_out
bus-IsDrive = record {
  inward = λ w. refl;
  outward = λ w. refl;
  sensor = λ w. refl;
  side_still = λ x w. refl;
  delay_still = λ n w. refl;
}

abbrev drives : Drives
drives = record {
  drive0 = record { cyl = 7; ticks_per_cell = 144 };
  drive1 = record { cyl = 0; ticks_per_cell = 144 };
  cur_unit = 0;
}

abbrev world : World
world = record { heads = 7; inwards = false; clock = 5; looks = 0 }

floppy_seek-done_example :
    (w' : World) × (floppy_seek bus 20 12 true drives world ≡ done (set_cyl drives 12, w'))
    × (w'.heads ≡ 12)
floppy_seek-done_example =
    floppy_seek-done bus (λ w. w.heads) bus-IsDrive 20 12 true drives world (omega arith)
      (λ ne. refl) (omega arith) (omega arith)
