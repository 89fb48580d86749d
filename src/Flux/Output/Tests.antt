-- ===== src/Flux/Output/Tests.antt =====
-- Concrete runs, and the theorems at concrete inputs: two sync words, put out in two pieces.
use flashfloppy_testbed.Prelude.{[], true, false}
use flashfloppy_testbed.Flux.Tests.{syncs}
use flashfloppy_testbed.Flux.Output.{Output, Poll, fill_ring}

abbrev empty : Output
empty = record { ring = λ i. 0; prod = 0; ticks = 0; bc_cons = 0; sent = [] }

-- Nine timings, as far as the DMA engine leaves room.
abbrev begun : Output
begun = fill_ring 144 syncs 2 false 10 empty

abbrev poll : Poll
poll = record { dmacons = 500; count = 7 }

abbrev filled : Output
filled = fill_ring 144 syncs 2 true 500 begun
