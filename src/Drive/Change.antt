-- ===== src/Drive/Change.antt =====
-- Changing a disk: `floppy_disk_change` when the drive answers in time, and when it does not.
use flashfloppy_testbed.Prelude.{ℕ, zero, suc, ◌<◌, ◌≡◌}
use flashfloppy_testbed.Prelude.{Bool, true, false, ◌==◌, not}
use flashfloppy_testbed.Drive.{dskchg_pin, ready_pin, Bus, step_one_out, expired}

-- The test fails `n` times, each time before the time is up, and then holds.
abbrev pub InTime : {W : Type 0} → Bus W → ℕ → ℕ → (W → Bool) → (W → W) → ℕ → W → Type 0
InTime b ms t test next zero w = test w ≡ true
InTime b ms t test next (suc n) w =
    (test w ≡ false) × (expired b ms t w ≡ false) × InTime b ms t test next n (next w)

-- A drive that answers to a disk change within `fuel` looks: DSKCHG toggles, the new disk is
-- mounted while the heads step, and the motor gets ready, each in the time that is given.
pub record IsPrompt {W : Type 0} (b : Bus W) (fuel : ℕ) : Type 0 where
  pub toggles :
      (w : W)
      → (n : ℕ) × (n < fuel)
        × InTime b 1000 (b.time_now w) (λ w. not (b.dskchg_count w == 0)) b.poll n w
  pub mounts :
      (w : W)
      → (n : ℕ) × (n < fuel)
        × InTime b 5000 (b.time_now w) (λ w. not (b.read dskchg_pin w)) (step_one_out b) n w
  pub spins :
      (w : W) → (n : ℕ) × (n < fuel) × InTime b 1000 (b.time_now w) (b.read ready_pin) b.poll n w

-- DSKCHG does not toggle in `n` looks, the last of which is behind the time that is given.
abbrev pub TooLate : {W : Type 0} → Bus W → ℕ → ℕ → W → Type 0
TooLate b t zero w = (b.dskchg_count w ≡ 0) × (expired b 1000 t w ≡ true)
TooLate b t (suc n) w =
    (b.dskchg_count w ≡ 0) × (expired b 1000 t w ≡ false) × TooLate b t n (b.poll w)
