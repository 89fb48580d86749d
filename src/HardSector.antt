-- ===== src/HardSector.antt =====
-- src/main.c: the helpers of the hard-sector tests, on the times at which the index changes.
pub mod Track
mod Tests
use flashfloppy_testbed.Prelude.{
  ℕ, zero, suc, ◌+◌, ◌-◌, ◌*◌, ◌/◌, ◌^◌, List, [], ◌∷◌, ◌++◌, Bool, true, false, not, ◌&&◌, ◌||◌,
  ◌==◌, if◌then◌else◌, Option, none, some,
}
use flashfloppy_testbed.Prelude.Int.{ℤ, pos, negsuc, sub_ℕ, lez}
use flashfloppy_testbed.Timer.{time_diff}

-- `index.timestamp`, and its values to come.
pub record Watch : Type 0 where
  pub timestamp : ℕ
  pub later : List ℕ

abbrev pub watch : ℕ → List ℕ → Watch
watch s ts = record { timestamp = s; later = ts }

-- `while (index.timestamp == s) continue;`: `none` still waits.
unfoldable pub next_index : ℕ → List ℕ → Option (ℤ × Watch)
next_index s [] = none
next_index s (t ∷ ts) =
    let rest = next_index s ts in if t == s then rest else some (time_diff s t, watch t ts)

unfoldable pub get_index_period : Watch → Option (ℤ × Watch)
get_index_period w = next_index w.timestamp w.later

-- `time_us(200)`
abbrev pub tolerance : ℕ
tolerance = 200 * 9

-- `d - time_us(200) < j && j < d + time_us(200)`
unfoldable pub near : ℕ → ℤ → Bool
near d j = not (lez j (sub_ℕ d tolerance)) && not (lez (pos (d + tolerance)) j)

-- `d - time_us(200) > j || j > d + time_us(200)`
unfoldable pub astray : ℕ → ℤ → Bool
astray d j = not (lez (sub_ℕ d tolerance) j) || not (lez j (pos (d + tolerance)))

abbrev pub then_period {ℓ} : {A : Type ℓ} → Option (ℤ × Watch) → (ℤ → Watch → Option A) → Option A
then_period none f = none
then_period (some (j, w)) f = f j w

-- `for (i = ..; i < ..; i++) { j = get_index_period(); if (near) break; }`: `i`, and where it stands.
unfoldable pub find_period : ℕ → ℕ → ℕ → Watch → Option (ℕ × Watch)
find_period d i zero w = some (i, w)
find_period d i (suc n) w =
    then_period (get_index_period w)
      (λ j v. let rest = find_period d (i + 1) n v in if near d j then some (i, v) else rest)

abbrev pub then_found {ℓ} : {A : Type ℓ} → Option (ℕ × Watch) → (ℕ → Watch → Option A) → Option A
then_found none f = none
then_found (some (i, w)) f = f i w

-- `wait_for_hard_sector_trkstart`: what it returns, whether it warns, and where it stands.
unfoldable pub wait_for_hard_sector_trkstart : ℕ → ℕ → Watch → Option (Bool × Bool × Watch)
unfolding find_period
wait_for_hard_sector_trkstart sector_duration sectors w =
    then_found (find_period sector_duration 0 3 w) (λ _ w1.
      then_found (find_period (sector_duration / 2) 0 (sectors + 1) w1) (λ i w2.
        then_period (get_index_period w2)
          (λ j w3. some (i == sectors, astray (sector_duration / 2) j, w3))))

abbrev pub warned_too : Bool → Option (Bool × Watch) → Option (Bool × Watch)
warned_too b none = none
warned_too b (some (c, v)) = some (b || c, v)

-- Periods that each should be `d`: whether any is not.
unfoldable pub check_periods : ℕ → ℕ → Watch → Option (Bool × Watch)
check_periods d zero w = some (false, w)
check_periods d (suc n) w =
    then_period (get_index_period w) (λ j v. warned_too (astray d j) (check_periods d n v))

abbrev pub then_checked :
    Option (Bool × Watch) → (Bool → Watch → Option (Bool × Watch)) → Option (Bool × Watch)
then_checked none f = none
then_checked (some (b, w)) f = f b w

-- `check_hard_sector_indexes`: whether it warns, and where it stands.
unfoldable pub check_hard_sector_indexes : ℕ → ℕ → Watch → Option (Bool × Watch)
check_hard_sector_indexes sector_duration sectors w =
    then_checked (check_periods sector_duration (sectors - 1) w)
      (λ b v. warned_too b (check_periods (sector_duration / 2) 2 v))
