-- ===== src/Console.antt =====
-- src/console.c: the ring buffer of the serial console. Text is the list of its characters up to the
-- terminating zero; formatting it is not the console's.
pub mod Stage
pub mod Transmit
mod Tests
use flashfloppy_testbed.Prelude.{ℕ, zero, suc, ◌+◌, ◌-◌, ◌*◌, ◌/◌, ◌%◌, ◌^◌, List, [], ◌∷◌, ◌++◌}
use flashfloppy_testbed.Prelude.{Bool, true, false, not, ◌&&◌, ◌==◌, leb, if◌then◌else◌, bit_and}
use flashfloppy_testbed.Mem.{u32}

-- The static state; `sent` is what has been put into the USART's data register one by one.
pub record Console : Type 0 where
  pub ring : ℕ → ℕ
  pub cons : ℕ
  pub prod : ℕ
  pub dma_sz : ℕ
  pub sync_console : Bool
  pub sent : List ℕ

-- `MASK(x)`
unfoldable pub mask : ℕ → ℕ
mask x = bit_and x (2048 - 1)

-- `prod-cons`
abbrev pub used : Console → ℕ
used s = u32 (s.prod + 2 ^ 32 - s.cons)

-- `ring[MASK(prod++)] = c;`
unfoldable pub put : Console → ℕ → Console
unfolding mask
put s c = record {
  ring = λ i. if i == mask s.prod then c else s.ring i;
  cons = s.cons;
  prod = u32 (s.prod + 1);
  dma_sz = s.dma_sz;
  sync_console = s.sync_console;
  sent = s.sent;
}

-- The `switch`: a CR is dropped, and a LF becomes CR and LF.
unfoldable pub put_char : Console → ℕ → Console
unfolding put
put_char s c = if c == 0x0d then s else if c == 0x0a then put (put s 0x0d) c else put s c

-- The loop of `vprintk`.
unfoldable pub stage : Console → List ℕ → Console
unfolding put_char
stage s [] = s
stage s (c ∷ cs) = let rest = stage (put_char s c) cs in if used s == 2048 - 1 then s else rest

-- The loop of `kick_tx` in synchronous mode, the count being `prod-cons`.
unfoldable pub drain : Console → ℕ → Console
unfolding mask
drain s zero = s
drain s (suc n) =
    drain
      (record {
        ring = s.ring;
        cons = u32 (s.cons + 1);
        prod = s.prod;
        dma_sz = s.dma_sz;
        sync_console = s.sync_console;
        sent = s.sent ++ (s.ring (mask s.cons) ∷ []);
      })
      n

-- `min(MASK(prod-cons), sizeof(ring)-MASK(cons))`
unfoldable pub chunk : Console → ℕ
unfolding mask
chunk s = if leb (mask (used s)) (2048 - mask s.cons) then mask (used s) else 2048 - mask s.cons

abbrev with_dma : Console → ℕ → Console
with_dma s n = record {
  ring = s.ring;
  cons = s.cons;
  prod = s.prod;
  dma_sz = n;
  sync_console = s.sync_console;
  sent = s.sent;
}

-- `kick_tx`; the DMA that it starts reads `dma_sz` bytes from `ring[MASK(cons)]` on.
unfoldable pub kick_tx : Console → Console
unfolding drain chunk
kick_tx s =
    if s.sync_console
    then drain s (used s)
    else if s.dma_sz == 0 && not (s.cons == s.prod)
    then with_dma s (chunk s)
    else s

-- `IRQ_dma1_ch4_tc`
unfoldable pub dma_complete : Console → Console
unfolding kick_tx
dma_complete s = kick_tx (record {
  ring = s.ring;
  cons = u32 (s.cons + s.dma_sz);
  prod = s.prod;
  dma_sz = 0;
  sync_console = s.sync_console;
  sent = s.sent;
})

-- `vprintk`, of the text that `vsnprintf` has left in `str`
unfoldable pub vprintk : Console → List ℕ → Console
unfolding stage kick_tx
vprintk s str = kick_tx (stage s str)

-- `console_sync`; when it returns, the DMA that was under way has completed.
unfoldable pub console_sync : Console → Console
unfolding dma_complete
console_sync s =
    if s.sync_console
    then s
    else dma_complete (record {
      ring = s.ring;
      cons = s.cons;
      prod = s.prod;
      dma_sz = s.dma_sz;
      sync_console = true;
      sent = s.sent;
    })
