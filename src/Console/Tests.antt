-- ===== src/Console/Tests.antt =====
-- Concrete runs, and the theorems at concrete inputs.
use flashfloppy_testbed.Prelude.{◌+◌, ◌%◌, ◌≡◌, refl, arith}
use flashfloppy_testbed.Prelude.{[], ◌∷◌, false}
use flashfloppy_testbed.Console.{Console, used, stage, kick_tx}
use flashfloppy_testbed.Console.Stage.{IsConsole, stage_overrun}
use flashfloppy_testbed.Console.Transmit.{IsSending, kick_tx-IsSending}

-- two characters wait over the end of the ring, and no DMA is under way
abbrev idle : Console
idle = record {
  ring = λ i. i % 256;
  cons = 2047;
  prod = 2049;
  dma_sz = 0;
  sync_console = false;
  sent = [];
}

idle-IsConsole : IsConsole idle
idle-IsConsole = (omega arith, omega arith)

first_chunk : (kick_tx idle).dma_sz ≡ 1
unfolding kick_tx
first_chunk = refl

kick_tx-IsSending_example : IsSending idle
kick_tx-IsSending_example =
    kick_tx-IsSending idle idle-IsConsole refl refl (omega arith) (omega arith)

-- two places short of a full ring
abbrev nearly_full : Console
nearly_full = record {
  ring = λ i. 0;
  cons = 5;
  prod = 2051;
  dma_sz = 3;
  sync_console = false;
  sent = [];
}

stage_overrun_example : used (stage nearly_full (0x0a ∷ 0x4f ∷ 0x4b ∷ [])) ≡ 2048 + 2
stage_overrun_example =
    stage_overrun nearly_full (0x4f ∷ 0x4b ∷ []) (omega arith, omega arith)
      ((omega arith, omega arith), ((omega arith, omega arith), tt)) refl (omega arith)
