-- ===== src/Flux/Sync.antt =====
-- src/floppy_generic.c: `rdata_wait_sync` and `floppy_read`. What the DMA engine has delivered when
-- one of its two loops looks is a chunk of samples.
pub mod Chunks
pub mod Mark
pub mod Read
mod Tests
use flashfloppy_testbed.Prelude.{ℕ, zero, suc, ◌+◌, ◌-◌, ◌*◌, ◌/◌, ◌%◌, ◌^◌, List, [], ◌∷◌, ◌++◌}
use flashfloppy_testbed.Prelude.{
  Bool, true, false, not, ◌==◌, ltb, if◌then◌else◌, bit_and, Option, none, some,
}
use flashfloppy_testbed.Mem.{u16, u32}
use flashfloppy_testbed.Flux.{Reader, flux_loop}

-- `SYNC_none`, `SYNC_fm` and `SYNC_mfm`
pub data Sync : Type 0 where
  sync_none sync_fm sync_mfm : Sync

-- `bc_dat`, `bc_prod` and `prev`, and how many fluxes were too long.
pub record Window : Type 0 where
  pub bc_dat : ℕ
  pub bc_prod : ℕ
  pub prev : ℕ
  pub long : ℕ

-- `sync_found`: how many cells of the window are the mark, or zero. Any `sync` that is not
-- `SYNC_fm` is taken for MFM.
unfoldable pub sync_found : Sync → ℕ → ℕ
sync_found sync_fm bc_dat = if bit_and bc_dat 0xffffd555 == 0x55555015 then 31 else 0
sync_found sync_mfm bc_dat = if bc_dat == 0x44894489 then 32 else 0
sync_found sync_none bc_dat = if bc_dat == 0x44894489 then 32 else 0

-- `nr = (curr - (cell>>1)) / cell + 1`, where a negative quotient is cut to zero
unfoldable pub flux_cells : ℕ → ℕ → ℕ
flux_cells cell curr = (curr - cell / 2) / cell + 1

-- One round, without the search.
unfoldable pub shift_flux : ℕ → Window → ℕ → Window
unfolding flux_cells
shift_flux cell s next =
    let curr = u16 (next + 2 ^ 16 - s.prev) in
    let nr = flux_cells cell curr in
    record {
      bc_dat = u32 (u32 (s.bc_dat * 2 ^ nr) + 1);
      bc_prod = u32 (s.bc_prod + nr);
      prev = next;
      long = if ltb (6 * cell) curr then s.long + 1 else s.long;
    }

-- The `while` loop: the window, the samples that are left, and `sync_found`.
unfoldable pub sync_loop : Sync → ℕ → Window → List ℕ → Window × List ℕ × ℕ
sync_loop sync cell s [] = (s, [], 0)
sync_loop sync cell s (next ∷ samples) =
    let shifted = shift_flux cell s next in
    let found = sync_found sync shifted.bc_dat in
    let rest = sync_loop sync cell shifted samples in
    if found == 0 then rest else (shifted, samples, found)

-- `while (!rdata_wait_sync(rd)) continue;`: the window at the mark, `sync_found`, and what is left.
-- `none` still waits.
unfoldable pub wait_sync : Sync → ℕ → Window → List (List ℕ) → Option (Window × ℕ × List (List ℕ))
unfolding sync_loop
wait_sync sync cell s [] = none
wait_sync sync cell s (chunk ∷ chunks) =
    let (w, left, found) = sync_loop sync cell s chunk in
    let rest = wait_sync sync cell w chunks in
    if found == 0 then rest else some (w, found, left ∷ chunks)

-- `rd->start` when the mark has been found at `now`; `cell` is a `uint16_t`.
unfoldable pub sync_start : ℕ → ℕ → ℕ → ℕ → ℕ
sync_start start now bc_prod found =
    let cell = u16 (u32 (u32 (now + 2 ^ 32 - start) * 16) / bc_prod) in
    u32 (now + 2 ^ 32 - u32 (found * cell) / 16)

-- `while (!rdata_flux_to_bc(rd)) continue;`
unfoldable pub fill : ℕ → ℕ → Reader → ℕ → List (List ℕ) → Option Reader
fill bc_max cell s prev [] = none
fill bc_max cell s prev (chunk ∷ chunks) =
    let (r, p) = flux_loop bc_max cell s prev chunk in
    let rest = fill bc_max cell r p chunks in if r.full then some r else rest

-- What `floppy_read_prep` sets up, `cnt` being the timer's counter.
unfoldable pub read_prep : ℕ → Window
read_prep cnt = record { bc_dat = 2 ^ 32 - 1; bc_prod = 0; prev = cnt; long = 0 }

-- `*rd` behind a read: the buffer as 32-bit words, and `start`.
pub record ReadDone : Type 0 where
  pub bc_buf : ℕ → ℕ
  pub start : ℕ

abbrev pub read_at : ℕ → Option Reader → Option ReadDone
read_at start none = none
read_at start (some r) = some (record { bc_buf = r.bc_buf; start = start })

unfoldable pub from_mark : ℕ → ℕ → (ℕ → ℕ) → ℕ → ℕ → Window × ℕ × List (List ℕ) → Option ReadDone
from_mark bc_max cell buf start now (w, found, chunks) =
    let reader : Reader = record {
      bc_dat = w.bc_dat;
      bc_prod = found;
      bc_buf = λ i. if i == 0 then w.bc_dat else buf i;
      full = false;
    } in
    read_at (sync_start start now w.bc_prod found) (fill bc_max cell reader w.prev chunks)

-- `floppy_read` behind `floppy_read_prep`, into a buffer that holds `buf`: `start` and `now` are
-- what `time_now` gives when the timer starts and when the mark has been found.
abbrev pub from_wait :
    ℕ → ℕ → (ℕ → ℕ) → ℕ → ℕ → Option (Window × ℕ × List (List ℕ)) → Option ReadDone
from_wait bc_max cell buf start now none = none
from_wait bc_max cell buf start now (some mark) = from_mark bc_max cell buf start now mark

unfoldable pub floppy_read : Sync → ℕ → ℕ → (ℕ → ℕ) → ℕ → ℕ → ℕ → List (List ℕ) → Option ReadDone
unfolding wait_sync from_mark
floppy_read sync_none nr_words cell buf cnt start now chunks =
    let s = read_prep cnt in
    let reader : Reader = record {
      bc_dat = s.bc_dat;
      bc_prod = s.bc_prod;
      bc_buf = buf;
      full = false;
    } in
    read_at start (fill (u32 (nr_words * 16)) cell reader s.prev chunks)
floppy_read sync nr_words cell buf cnt start now chunks =
    from_wait (u32 (nr_words * 16)) cell buf start now (wait_sync sync cell (read_prep cnt) chunks)
