-- ===== src/Flux/Output.antt =====
-- src/floppy_generic.c: `wdata_bc_to_flux` on the DMA ring, and `floppy_write`. What the hardware shows
-- is a list of polls, one for each look at it.
pub mod Run
pub mod Sent
pub mod Loop
mod Tests
use flashfloppy_testbed.Prelude.{
  ℕ, zero, suc, ◌+◌, ◌-◌, ◌*◌, ◌/◌, ◌%◌, ◌^◌, List, [], ◌∷◌, ◌++◌, length, reversed,
}
use flashfloppy_testbed.Prelude.{
  Bool, true, false, not, ◌&&◌, ◌==◌, leb, if◌then◌else◌, bit_and, Option, none, some,
}
use flashfloppy_testbed.Mem.{u16, u32}
use flashfloppy_testbed.Flux.{Writer, wdata_bc_to_flux, ring_room}

-- `dma_w` and the private part of `struct write`. The history `sent`, of all timings that were put into
-- the ring, last first, is not kept by the code.
pub record Output : Type 0 where
  pub ring : ℕ → ℕ
  pub prod : ℕ
  pub ticks : ℕ
  pub bc_cons : ℕ
  pub sent : List ℕ

-- The timings, from `prod` on.
abbrev pub put_ring : (ℕ → ℕ) → ℕ → List ℕ → ℕ → ℕ
put_ring ring prod [] = ring
put_ring ring prod (t ∷ ts) = put_ring (λ i. if i == prod then t else ring i) (prod + 1) ts

-- `wdata_bc_to_flux`, `dmacons` being the DMA engine's index.
unfoldable pub fill_ring : ℕ → (ℕ → ℕ) → ℕ → Bool → ℕ → Output → Output
fill_ring cell bc_b nr_words latency_sensitive dmacons o =
    let w =
      wdata_bc_to_flux cell bc_b nr_words o.ticks o.bc_cons
        (ring_room latency_sensitive o.prod dmacons) in
    record {
      ring = put_ring o.ring o.prod (reversed w.tbuf []);
      prod = bit_and (u16 (o.prod + length w.tbuf)) 1023;
      ticks = w.ticks;
      bc_cons = w.bc_cons;
      sent = w.tbuf ++ o.sent;
    }

-- `_floppy_write_prep`: the DMA engine stands at 0.
unfoldable pub write_prep : ℕ → (ℕ → ℕ) → ℕ → Bool → (ℕ → ℕ) → Output
unfolding fill_ring
write_prep cell bc_b nr_words latency_sensitive ring =
    fill_ring cell bc_b nr_words latency_sensitive 0
      (record { ring = ring; prod = 0; ticks = 0; bc_cons = 0; sent = [] })

-- A look at the hardware: the DMA engine's index, and `index.count` behind it.
pub record Poll : Type 0 where
  pub dmacons : ℕ
  pub count : ℕ

-- How a write ends: at the index, or with all bitcells put out and the ring drained.
pub data End : Type 0 where
  at_index drained : End

unfoldable pub stop_index : ℕ → ℕ → ℕ
stop_index terminate_at_index count =
    if terminate_at_index == 0 then u32 (count + 2 ^ 32 - 1) else u32 (count + terminate_at_index)

-- "Emit flux into the DMA ring until all bitcells are consumed": whether the index stopped it, the
-- output, and the polls to come. `none` goes on.
unfoldable pub emit_loop :
    ℕ → (ℕ → ℕ) → ℕ → ℕ → Output → List Poll → Option (Bool × Output × List Poll)
unfolding fill_ring
emit_loop cell bc_b nr_words stop o [] =
    if o.bc_cons == u32 (nr_words * 16) then some (false, o, []) else none
emit_loop cell bc_b nr_words stop o (p ∷ polls) =
    let filled = fill_ring cell bc_b nr_words true p.dmacons o in
    let rest = emit_loop cell bc_b nr_words stop filled polls in
    if o.bc_cons == u32 (nr_words * 16)
    then some (false, o, p ∷ polls)
    else if p.count == stop
    then some (true, filled, polls)
    else rest

-- "Wait for DMA ring to drain". `index.count` is looked at before the DMA engine's index.
unfoldable pub drain_loop : ℕ → ℕ → ℕ → List Poll → Option End
drain_loop stop prod todo [] = none
drain_loop stop prod prev_todo (p ∷ polls) =
    let todo = bit_and (u16 (prod + 2 ^ 16 - p.dmacons)) 1023 in
    let rest = drain_loop stop prod todo polls in
    if p.count == stop
    then some at_index
    else if not (todo == 0) && leb todo prev_todo
    then rest
    else some drained

abbrev pub then_drain : ℕ → Option (Bool × Output × List Poll) → Option (End × Output)
then_drain stop none = none
then_drain stop (some (true, o, polls)) = some (at_index, o)
then_drain stop (some (false, o, polls)) = elim (drain_loop stop o.prod (2 ^ 16 - 1) polls) [
  | none ↦ none
  | some end ↦ some (end, o)
]

-- `floppy_write` behind `floppy_write_prep`, `count` being `index.count` at its start: how it ends,
-- and what it has put out.
unfoldable pub floppy_write : ℕ → (ℕ → ℕ) → ℕ → ℕ → ℕ → Output → List Poll → Option (End × Output)
unfolding emit_loop drain_loop
floppy_write cell bc_b nr_words terminate_at_index count o polls =
    let stop = stop_index terminate_at_index count in
    then_drain stop (emit_loop cell bc_b nr_words stop o polls)

-- `floppy_write_now`
unfoldable pub floppy_write_now :
    ℕ → (ℕ → ℕ) → ℕ → ℕ → ℕ → (ℕ → ℕ) → List Poll → Option (End × Output)
unfolding write_prep floppy_write
floppy_write_now cell bc_b nr_words terminate_at_index count ring polls =
    floppy_write cell bc_b nr_words terminate_at_index count
      (write_prep cell bc_b nr_words true ring) polls
