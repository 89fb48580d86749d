-- ===== src/Flux/Ring.antt =====
-- How far the write path fills its DMA ring.
use flashfloppy_testbed.Prelude.{ℕ, ◌+◌, ◌-◌, ◌%◌, ◌^◌, ◌<◌, ◌≤◌, Bool, arith}
use flashfloppy_testbed.Bits.And.{bit_and_mask}
use flashfloppy_testbed.Mem.{u32}
use flashfloppy_testbed.Flux.{ring_room}

-- The stretch that is filled ends within the ring, leaves at least one place before the DMA
-- engine's index, and is not empty while more than that one place is free.
pub ring_room_bounds :
    (latency_sensitive : Bool) (prod dmacons : ℕ)
    → prod < 1024
    → dmacons < 1024
    → (prod + ring_room latency_sensitive prod dmacons ≤ 1024)
      × (ring_room latency_sensitive prod dmacons ≤ (dmacons + 1024 - prod - 1) % 1024)
      × (0 < (dmacons + 1024 - prod - 1) % 1024 → 0 < ring_room latency_sensitive prod dmacons)
unfolding ring_room
ring_room_bounds latency_sensitive prod dmacons h k =
    ground (arith, bit_and_mask 10 (u32 (dmacons + 2 ^ 32 - prod - 1)))
