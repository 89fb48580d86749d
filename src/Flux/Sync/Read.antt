-- ===== src/Flux/Sync/Read.antt =====
-- A whole read: what the buffer holds of the cells that come from the drive.
use flashfloppy_testbed.Prelude.{ℕ, ◌*◌, ◌<◌}
use flashfloppy_testbed.Prelude.{List, [], ◌∷◌, ◌==◌, if◌then◌else◌, Option, none, some}
use flashfloppy_testbed.Mem.{u32}
use flashfloppy_testbed.Flux.{Reader}
use flashfloppy_testbed.Flux.Read.{push_bits}
use flashfloppy_testbed.Flux.Sync.{Sync, Window, ReadDone, from_mark}
use flashfloppy_testbed.Flux.Sync.Chunks.{if_full, marked_reader}

-- The words of a read that is done.
abbrev pub words_read : Option ReadDone → Option (ℕ → ℕ)
words_read none = none
words_read (some r) = some r.bc_buf

abbrev pub words_of : Option Reader → Option (ℕ → ℕ)
words_of none = none
words_of (some r) = some r.bc_buf

-- What a run of cells leaves in a buffer from its mark on, `none` where they do not fill it.
abbrev pub words_behind : ℕ → (ℕ → ℕ) → Option (ℕ × ℕ × List ℕ) → Option (ℕ → ℕ)
words_behind bc_max buf none = none
words_behind bc_max buf (some (d, n, bits)) =
    words_of (if_full (push_bits bc_max (marked_reader d buf n) bits))

module _ (nr_words cell : ℕ) (buf : ℕ → ℕ) (cnt start now : ℕ) (pos : 0 < cell) where
  abbrev bc_max : ℕ
  bc_max = u32 (nr_words * 16)

  -- The rest of a read when the loop has stopped with a window, samples and a mark.
  abbrev go_on : Window × List ℕ × ℕ → Option ReadDone
  go_on (w, left, found) =
      if found == 0 then none else from_mark bc_max cell buf start now (w, found, left ∷ [])
