-- ===== src/Console/Transmit.antt =====
-- The transmit side: each DMA sequence takes the front of what waits.
use flashfloppy_testbed.Prelude.{
  ℕ, zero, suc, ◌+◌, ◌-◌, ◌%◌, ◌^◌, ◌<◌, ◌≤◌, ◌≡◌, ◌∙◌, refl, sym, ap, ap₂, arith,
}
use flashfloppy_testbed.Prelude.{
  ◌∷◌, take, drop, Bool, true, false, not, ◌&&◌, ◌==◌, leb, if◌then◌else◌,
}
use flashfloppy_testbed.Mem.{u32, bytes}
use flashfloppy_testbed.Console.{with_dma, drain, Console, mask, used, chunk, kick_tx, dma_complete}
use flashfloppy_testbed.Console.Stage.{waiting, pending, IsConsole, mask_lem}

next_place : (c : ℕ) → c % 2048 + 1 < 2048 → c % 2048 + 1 ≡ (c + 1) % 2048
next_place c h = omega arith

take_waiting :
    (k n c : ℕ) (ring : ℕ → ℕ)
    → k ≤ n
    → c % 2048 + k ≤ 2048
    → bytes ring (c % 2048) k ≡ take k (waiting ring c n)
take_waiting zero n c ring h l = refl
take_waiting (suc k) zero c ring h l = absurd (omega arith)
take_waiting (suc zero) (suc n) c ring h l = refl
take_waiting (suc (suc k)) (suc n) c ring h l =
    ap (λ r. ring (c % 2048) ∷ r)
      (ap (λ a. bytes ring a (suc k)) (next_place c (omega arith))
        ∙ take_waiting (suc k) n (c + 1) ring (omega arith) (omega arith))

drop_waiting :
    (k n c d j : ℕ) (ring : ℕ → ℕ)
    → k ≤ n
    → d ≡ c + k
    → j ≡ n - k
    → drop k (waiting ring c n) ≡ waiting ring d j
drop_waiting zero n c d j ring h e f = ap₂ (waiting ring) (omega arith) (omega arith)
drop_waiting (suc k) zero c d j ring h e f = absurd (omega arith)
drop_waiting (suc k) (suc n) c d j ring h e f =
    drop_waiting k n (c + 1) d j ring (omega arith) (omega arith) (omega arith)

-- Only the place in the ring matters.
waiting_place :
    (n c d : ℕ) (ring : ℕ → ℕ) → c % 2048 ≡ d % 2048 → waiting ring c n ≡ waiting ring d n
waiting_place zero c d ring e = refl
waiting_place (suc n) c d ring e =
    ap₂ ◌∷◌ (ap ring e) (waiting_place n (c + 1) (d + 1) ring (omega arith))

-- What `kick_tx` starts on a console with no DMA under way: a run of `dma_sz` bytes within the
-- ring, the front of what waits, which is gone when the DMA has completed.
pub record IsSending (s : Console) : Type 0 where
  pub some_sent : 0 < (kick_tx s).dma_sz
  pub in_ring : mask s.cons + (kick_tx s).dma_sz ≤ 2048
  pub front : bytes s.ring (mask s.cons) (kick_tx s).dma_sz ≡ take (kick_tx s).dma_sz (pending s)
  pub rest : pending (dma_complete (kick_tx s)) ≡ drop (kick_tx s).dma_sz (pending s)

-- `kick_tx` when it is not in synchronous mode.
abbrev kicked : Bool → Console → Console
kicked b s = if b then with_dma s (chunk s) else s

kick_tx-kicked :
    (s : Console)
    → s.sync_console ≡ false
    → kick_tx s ≡ kicked (s.dma_sz == 0 && not (s.cons == s.prod)) s
unfolding kick_tx
kick_tx-kicked s e =
    ap (λ b. if b then drain s (used s) else kicked (s.dma_sz == 0 && not (s.cons == s.prod)) s) e

kicked-pending : (b : Bool) (s : Console) → pending (kicked b s) ≡ pending s
kicked-pending true s = refl
kicked-pending false s = refl

kick_tx-pending : (s : Console) → s.sync_console ≡ false → pending (kick_tx s) ≡ pending s
kick_tx-pending s e =
    ap pending (kick_tx-kicked s e) ∙ kicked-pending (s.dma_sz == 0 && not (s.cons == s.prod)) s

module _ (s : Console) (good : IsConsole s) (async : s.sync_console ≡ false) (idle : s.dma_sz ≡ 0)
    (some_used : 0 < used s) (not_full : used s < 2048) where
  abbrev size : ℕ
  size = chunk s

  size_lem : size ≡ (if leb (used s) (2048 - s.cons % 2048) then used s else 2048 - s.cons % 2048)
  unfolding chunk
  size_lem = ground (arith, mask_lem s.cons, mask_lem (used s))

  size-used : size ≤ used s
  size-used = ground (arith, size_lem)

  size_room : s.cons % 2048 + size ≤ 2048
  size_room = ground (arith, size_lem)

  size_some : 0 < size
  size_some = ground (arith, size_lem)

  condition : (s.dma_sz == 0 && not (s.cons == s.prod)) ≡ true
  condition = ground (arith, good.0, good.1)

  started : kick_tx s ≡ with_dma s size
  started = kick_tx-kicked s async ∙ ap (λ b. kicked b s) condition

  left_over : u32 (s.prod + 2 ^ 32 - u32 (s.cons + size)) ≡ used s - size
  left_over = omega (arith, size-used, good.0, good.1)

  completed : pending (dma_complete (with_dma s size)) ≡ drop size (pending s)
  unfolding dma_complete
  completed =
      kick_tx-pending
        (record {
          ring = s.ring;
          cons = u32 (s.cons + size);
          prod = s.prod;
          dma_sz = 0;
          sync_console = s.sync_console;
          sent = s.sent;
        })
        async
      ∙ waiting_place _ (u32 (s.cons + size)) (s.cons + size) s.ring (omega arith)
      ∙ ap (waiting s.ring (s.cons + size)) left_over
      ∙ sym (
          drop_waiting size (used s) s.cons (s.cons + size) (used s - size) s.ring size-used refl
            refl)

  -- When the console is asynchronous, no DMA is under way and the ring holds something but is not
  -- overrun, `kick_tx` starts a DMA of at least one byte, within the ring, of the front of what
  -- waits, and when it has completed just those bytes wait no more.
  pub kick_tx-IsSending : IsSending s
  kick_tx-IsSending =
      let dma : (kick_tx s).dma_sz ≡ size = ap (λ (r : Console). r.dma_sz) started in
      record {
        some_sent = omega (arith, dma, size_some);
        in_ring = omega (arith, dma, size_room, mask_lem s.cons);
        front =
            rw (dma, mask_lem s.cons)
              (take_waiting size (used s) s.cons s.ring size-used size_room);
        rest =
            ap (λ r. pending (dma_complete r)) started
            ∙ completed
            ∙ ap (λ k. drop k (pending s)) (sym dma);
      }
