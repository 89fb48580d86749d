-- ===== src/Flux.antt =====
-- src/floppy_generic.c: bitcells to flux timings and back. A bitcell buffer is a function from the
-- index of a 32-bit word, big-endian in memory, to its value. The DMA engine's samples and its own
-- index are what the hardware gives.
pub mod Read
pub mod Write
pub mod Buffer
pub mod Ring
pub mod Roundtrip
pub mod Sync
pub mod Output
mod Tests
use flashfloppy_testbed.Prelude.{ℕ, zero, suc, ◌+◌, ◌-◌, ◌*◌, ◌/◌, ◌%◌, ◌^◌, List, [], ◌∷◌, ◌++◌}
use flashfloppy_testbed.Prelude.{
  Bool, true, false, not, ◌&&◌, ◌==◌, leb, ltb, if◌then◌else◌, bit_and,
}
use flashfloppy_testbed.Mem.{u16, u32}

-- `bc_dat`, `bc_prod` and `bc_buf` in `rdata_flux_to_bc`, and whether it has returned TRUE.
pub record Reader : Type 0 where
  pub bc_dat : ℕ
  pub bc_prod : ℕ
  pub bc_buf : ℕ → ℕ
  pub full : Bool

-- `bc_dat = (bc_dat << 1) | bit; if (!(++bc_prod&31)) { bc_buf[..] = ..; if (bc_prod == bc_max) .. }`
unfoldable pub push_bit : ℕ → Reader → ℕ → Reader
push_bit bc_max s bit =
    let dat = u32 (s.bc_dat * 2 + bit) in
    let prod = u32 (s.bc_prod + 1) in
    if bit_and prod 31 == 0
    then record {
      bc_dat = dat;
      bc_prod = prod;
      bc_buf = λ i. if i == (prod - 1) / 32 then dat else s.bc_buf i;
      full = prod == bc_max;
    }
    else record { bc_dat = dat; bc_prod = prod; bc_buf = s.bc_buf; full = false }

-- `while (curr > window)`, for at most the given number of rounds: where the reader stands, and what
-- is left of `curr`.
unfoldable pub zero_cells : ℕ → ℕ → Reader → ℕ → ℕ → Reader × ℕ
zero_cells bc_max cell s curr zero = (s, curr)
zero_cells bc_max cell s curr (suc n) =
    let pushed = push_bit bc_max s 0 in
    let rest = zero_cells bc_max cell pushed (curr - cell) n in
    if ltb (cell + cell / 2) curr
    then (if pushed.full then (pushed, curr - cell) else rest)
    else (s, curr)

-- One round of the `for` loop: a flux reversal `curr` ticks behind the one before. The message and
-- the warning of a flux longer than six cells, which change nothing else, are not modelled.
unfoldable pub one_flux : ℕ → ℕ → Reader → ℕ → Reader
unfolding zero_cells
one_flux bc_max cell s curr =
    let zeros = (zero_cells bc_max cell s curr curr).0 in
    if zeros.full then zeros else push_bit bc_max zeros 1

-- The `for` loop over the samples from `cons` up to `prod`. Gives `prev_sample`, too.
unfoldable pub flux_loop : ℕ → ℕ → Reader → ℕ → List ℕ → Reader × ℕ
unfolding one_flux
flux_loop bc_max cell s prev [] = (s, prev)
flux_loop bc_max cell s prev (next ∷ samples) =
    let read = one_flux bc_max cell s (u16 (next + 2 ^ 16 - prev)) in
    let rest = flux_loop bc_max cell read next samples in if read.full then (read, prev) else rest

-- `buf[cons]` and on, up to `prod`.
abbrev pub samples_from : (ℕ → ℕ) → ℕ → ℕ → List ℕ
samples_from buf cons zero = []
samples_from buf cons (suc n) = buf cons ∷ samples_from buf (bit_and (cons + 1) 1023) n

-- `rdata_flux_to_bc` on a ring from which it takes what lies between `cons` and `prod`.
unfoldable pub rdata_flux_to_bc : ℕ → ℕ → Reader → ℕ → (ℕ → ℕ) → ℕ → ℕ → Reader × ℕ
unfolding flux_loop
rdata_flux_to_bc nr_words cell s prev buf cons prod =
    flux_loop (u32 (nr_words * 16)) cell s prev
      (samples_from buf cons (bit_and (u16 (prod + 2 ^ 16 - cons)) 1023))

-- Where `_wdata_bc_to_flux` stands: the timings so far, last first, `ticks`, `todo`, and the
-- bitcells consumed.
pub record Writer : Type 0 where
  pub tbuf : List ℕ
  pub ticks : ℕ
  pub todo : ℕ
  pub bc_cons : ℕ

-- `y++; ticks += ticks_per_cell; if ((int32_t)x < 0) { *tbuf++ = (ticks >> 4) - 1; .. --todo .. }`
unfoldable pub one_cell : ℕ → Writer → ℕ → Writer
one_cell ticks_per_cell w x =
    let ticks = u32 (w.ticks + ticks_per_cell) in
    if leb (2 ^ 31) x
    then record {
      tbuf = u16 (ticks / 16 + 2 ^ 16 - 1) ∷ w.tbuf;
      ticks = ticks % 16;
      todo = w.todo - 1;
      bc_cons = w.bc_cons + 1;
    }
    else record { tbuf = w.tbuf; ticks = ticks; todo = w.todo; bc_cons = w.bc_cons + 1 }

-- `while (y < 32)`, where `32 - y` cells are left in `x`, until `todo` is zero.
unfoldable pub word_cells : ℕ → Writer → ℕ → ℕ → Writer
word_cells ticks_per_cell w x zero = w
word_cells ticks_per_cell w x (suc left) =
    let next = one_cell ticks_per_cell w x in
    let rest = word_cells ticks_per_cell next (u32 (x * 2)) left in
    if next.todo == 0 then next else rest

-- `while (bc_c != bc_p)`, with so many words left to begin.
unfoldable pub buffer_cells : ℕ → (ℕ → ℕ) → Writer → ℕ → Writer
unfolding word_cells
buffer_cells ticks_per_cell bc_b w zero = w
buffer_cells ticks_per_cell bc_b w (suc left) =
    let y = w.bc_cons % 32 in
    let next = word_cells ticks_per_cell w (u32 (bc_b (w.bc_cons / 32) * 2 ^ y)) (32 - y) in
    let rest = buffer_cells ticks_per_cell bc_b next left in if next.todo == 0 then next else rest

-- `_wdata_bc_to_flux`: the writer behind it; the timings are `tbuf`, last first.
unfoldable pub wdata_bc_to_flux : ℕ → (ℕ → ℕ) → ℕ → ℕ → ℕ → ℕ → Writer
unfolding buffer_cells
wdata_bc_to_flux cell bc_b nr_words ticks_since_flux bc_cons nr =
    let start : Writer = record {
      tbuf = [];
      ticks = ticks_since_flux;
      todo = nr;
      bc_cons = bc_cons;
    } in
    if nr == 0
    then start
    else buffer_cells (u32 (cell * 16)) bc_b start (u32 (nr_words * 16) / 32 - bc_cons / 32)

-- How many timings `wdata_bc_to_flux` asks for, `prod` being its own index and `dmacons` the DMA
-- engine's.
unfoldable pub ring_room : Bool → ℕ → ℕ → ℕ
ring_room latency_sensitive prod dmacons =
    let nr_to_wrap = 1024 - prod in
    let nr_to_cons = bit_and (u32 (dmacons + 2 ^ 32 - prod - 1)) 1023 in
    let nr = if leb nr_to_wrap nr_to_cons then nr_to_wrap else nr_to_cons in
    let ahead = if leb 32 (1024 - nr_to_cons) then 1024 - nr_to_cons else 32 in
    if latency_sensitive then (if leb nr ahead then nr else ahead) else nr
