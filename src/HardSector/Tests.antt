-- ===== src/HardSector/Tests.antt =====
-- Concrete runs, and the theorems at concrete inputs: a disk of ten sectors of 20 ms.
use flashfloppy_testbed.Prelude.{
  ◌/◌, ◌≡◌, refl, arith, [], ◌∷◌, ◌++◌, replicate, Bool, true, false, Option, none, some,
}
use flashfloppy_testbed.HardSector.{Watch, watch, wait_for_hard_sector_trkstart}
use flashfloppy_testbed.HardSector.Track.{stamps, found_at, wait_for_hard_sector_trkstart-found_at}

wait_for_hard_sector_trkstart-found_at_example :
    wait_for_hard_sector_trkstart 180000 10 (
      watch 1000 (
        stamps 1000 (
          replicate 1 (180000 / 2)
          ++ (replicate 9 180000 ++ (180000 / 2 ∷ 180000 / 2 ∷ 180000 ∷ [])))))
    ≡ some (
      false,
      false,
      watch
          (found_at 180000 10 (omega arith) (omega arith) 1000 1 9)
          (stamps (found_at 180000 10 (omega arith) (omega arith) 1000 1 9) (180000 ∷ [])),
    )
wait_for_hard_sector_trkstart-found_at_example =
    wait_for_hard_sector_trkstart-found_at 180000 10 (omega arith) (omega arith) 1000 1 9
      (180000 ∷ []) (omega arith) (omega arith) (omega arith) (omega arith)

-- A disk without hard sectors, one index each 200 ms: the start of a track is not found, and what is
-- returned is FALSE all the same; there is a warning.
returned : Option (Bool × Bool × Watch) → Option (Bool × Bool)
returned none = none
returned (some (b, c, w)) = some (b, c)

soft_sectored :
    returned (wait_for_hard_sector_trkstart 180000 10 (watch 0 (stamps 0 (replicate 20 1800000))))
    ≡ some (false, true)
unfolding returned wait_for_hard_sector_trkstart flashfloppy_testbed.HardSector.get_index_period
    flashfloppy_testbed.HardSector.next_index flashfloppy_testbed.HardSector.near
    flashfloppy_testbed.HardSector.astray
soft_sectored = refl
