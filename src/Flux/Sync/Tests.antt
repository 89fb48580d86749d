-- ===== src/Flux/Sync/Tests.antt =====
-- The theorems on whole reads at a concrete input: two sync words twice, cells of 144 ticks.
use flashfloppy_testbed.Prelude.{ℕ, ◌-◌, ◌^◌, ◌≡◌, refl, List, [], ◌∷◌, some}
use flashfloppy_testbed.Flux.Read.{gap_bits}
use flashfloppy_testbed.Flux.Sync.{Sync, sync_none, sync_mfm}
use flashfloppy_testbed.Flux.Sync.Mark.{find_mark}

abbrev chunks : List (List ℕ)
chunks =
    (288 ∷ 864 ∷ 1296 ∷ 1872 ∷ [])
    ∷ (2304 ∷ 2592 ∷ 3168 ∷ 3600 ∷ 4176 ∷ 4608 ∷ 4896 ∷ 5472 ∷ 5904 ∷ 6480 ∷ 6912 ∷ 7200 ∷ 7776
        ∷ 8208 ∷ 8784 ∷ 9216 ∷ [])
    ∷ []

abbrev zeros : List ℕ
zeros = 1 ∷ 3 ∷ 2 ∷ 3 ∷ 2 ∷ 1 ∷ 3 ∷ 2 ∷ 3 ∷ 2 ∷ 1 ∷ 3 ∷ 2 ∷ 3 ∷ 2 ∷ 1 ∷ 3 ∷ 2 ∷ 3 ∷ 2 ∷ []

abbrev buf : ℕ → ℕ
buf i = 0

-- the mark is at the first cells
mark_found :
    find_mark sync_mfm (2 ^ 32 - 1) (gap_bits zeros)
    ≡ some (0x44894489, 32, gap_bits (1 ∷ 3 ∷ 2 ∷ 3 ∷ 2 ∷ 1 ∷ 3 ∷ 2 ∷ 3 ∷ 2 ∷ []))
unfolding flashfloppy_testbed.Flux.Sync.sync_found
mark_found = refl
