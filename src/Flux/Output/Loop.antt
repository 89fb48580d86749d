-- ===== src/Flux/Output/Loop.antt =====
-- What `floppy_write` puts into the ring, over all its looks at the hardware.
use flashfloppy_testbed.Prelude.{
  ℕ, zero, suc, ◌+◌, ◌*◌, ◌/◌, ◌%◌, ◌^◌, ◌<◌, ◌≤◌, ◌≡◌, ◌∙◌, refl, sym, ap, ap₂, arith, List, [],
  ◌∷◌, ◌++◌, length, length-append, drop, take, All, All-append, Bool, true, false, leb,
}
use mathlib.Core.Path.{subst}
use flashfloppy_testbed.Mem.{u32}
use flashfloppy_testbed.Flux.{Writer, wdata_bc_to_flux, ring_room}
use flashfloppy_testbed.Flux.Write.{emit, IsShort, cell_bits, cell_bit}
use flashfloppy_testbed.Flux.Buffer.{word_bits, buffer_bits, emit-append, IsShort-parts}
use flashfloppy_testbed.Flux.Output.{Output, Poll, fill_ring, write_prep}
use flashfloppy_testbed.Flux.Output.Run.{wdata_bc_to_flux-run, length-drop, length-cell_bits}
use flashfloppy_testbed.Flux.Output.Sent.{IsSent, run-IsSent, emit_behind}

-- Everything put out so far is what the bitcells consumed so far stand for.
pub record IsOutput (cell : ℕ) (bits : List ℕ) (o : Output) : Type 0 where
  pub within : o.bc_cons ≤ length bits
  pub timings : o.sent ≡ (emit cell [] 0 (take o.bc_cons bits)).0
  pub rest : o.ticks ≡ 16 * ((emit cell [] 0 (take o.bc_cons bits)).1 * cell)

take-drop {ℓ} : {A : Type ℓ} (n : ℕ) (xs : List A) → take n xs ++ drop n xs ≡ xs
take-drop zero xs = refl
take-drop (suc n) [] = refl
take-drop (suc n) (x ∷ xs) = ap (λ l. x ∷ l) (take-drop n xs)

take_more {ℓ} :
    {A : Type ℓ} (n k t : ℕ) (xs : List A)
    → n ≤ length xs
    → t ≡ n + k
    → take t xs ≡ take n xs ++ take k (drop n xs)
take_more zero k t xs h e = let same : t ≡ k = omega (arith, e) in ap (λ u. take u xs) same
take_more (suc n) k t [] h e = absurd (omega arith)
take_more (suc n) k zero (x ∷ xs) h e = absurd (omega (arith, e))
take_more (suc n) k (suc t) (x ∷ xs) h e =
    ap (λ l. x ∷ l) (take_more n k t xs (omega arith) (omega (arith, e)))

take_all {ℓ} : {A : Type ℓ} (n : ℕ) (xs : List A) → n ≡ length xs → take n xs ≡ xs
take_all zero [] e = refl
take_all zero (x ∷ xs) e = absurd (omega (arith, e))
take_all (suc n) [] e = absurd (omega (arith, e))
take_all (suc n) (x ∷ xs) e = ap (λ l. x ∷ l) (take_all n xs (omega (arith, e)))

All-drop : (P : ℕ → Type 0) (n : ℕ) (xs : List ℕ) → All P xs → All P (drop n xs)
All-drop P zero xs h = h
All-drop P (suc n) [] h = h
All-drop P (suc n) (x ∷ xs) h = All-drop P n xs h.1

cell_bits-IsBit : (n x : ℕ) → All (λ b. b < 2) (cell_bits n x)
cell_bits-IsBit zero x = tt
cell_bits-IsBit (suc n) x = (one (leb (2 ^ 31) x), cell_bits-IsBit n (u32 (x * 2)))
  where
    one : (b : Bool) → cell_bit b < 2
    one true = omega arith
    one false = omega arith

buffer_bits-IsBit : (bc_b : ℕ → ℕ) (j n : ℕ) → All (λ b. b < 2) (buffer_bits bc_b j n)
unfolding word_bits
buffer_bits-IsBit bc_b j zero = tt
buffer_bits-IsBit bc_b j (suc n) =
    All-append (λ b. b < 2) (cell_bits 32 (bc_b j)) (buffer_bits bc_b (j + 1) n)
      (cell_bits-IsBit 32 (bc_b j)) (buffer_bits-IsBit bc_b (j + 1) n)

pub length-buffer_bits : (bc_b : ℕ → ℕ) (j n : ℕ) → length (buffer_bits bc_b j n) ≡ 32 * n
unfolding word_bits
length-buffer_bits bc_b j zero = refl
length-buffer_bits bc_b j (suc n) = omega (
  arith,
  length-append (cell_bits 32 (bc_b j)) (buffer_bits bc_b (j + 1) n),
  length-cell_bits 32 (bc_b j),
  length-buffer_bits bc_b (j + 1) n,
)

-- A buffer that is written: its words, and its bitcells, in which no gap is too long for the timer.
module _ (cell nr_words : ℕ) (bc_b : ℕ → ℕ) (pos : 0 < cell) (cell_small : cell < 2 ^ 28)
    (words : (i : ℕ) → bc_b i < 2 ^ 32) (small : nr_words < 2 ^ 28) (even : nr_words % 2 ≡ 0)
    (short : IsShort cell 0 (buffer_bits bc_b 0 (nr_words / 2))) where
  abbrev bits : List ℕ
  bits = buffer_bits bc_b 0 (nr_words / 2)

  abbrev asked : Bool → ℕ → Output → Writer
  asked latency dmacons o = record {
    tbuf = [];
    ticks = o.ticks;
    todo = ring_room latency o.prod dmacons;
    bc_cons = o.bc_cons;
  }

  IsSent-more :
      (latency : Bool) (dmacons : ℕ) (o : Output)
      → IsOutput cell bits o
      → IsSent cell
          (asked latency dmacons o)
          (wdata_bc_to_flux cell bc_b nr_words o.ticks o.bc_cons (ring_room latency o.prod dmacons))
          (emit cell [] 0 (take o.bc_cons bits)).1
          (drop o.bc_cons bits)
  IsSent-more latency dmacons o kept =
      subst
        (λ r.
          IsSent cell (asked latency dmacons o) r (emit cell [] 0 (take o.bc_cons bits)).1
            (drop o.bc_cons bits))
        (sym (
          wdata_bc_to_flux-run cell nr_words o.ticks o.bc_cons (ring_room latency o.prod dmacons)
            bc_b words cell_small small even
            (omega (arith, kept.within, length-buffer_bits bc_b 0 (nr_words / 2)))))
        (run-IsSent (drop o.bc_cons bits) cell (emit cell [] 0 (take o.bc_cons bits)).1
          (asked latency dmacons o) pos kept.rest
          (IsShort-parts (take o.bc_cons bits) (drop o.bc_cons bits) cell [] 0
            (subst (λ l. IsShort cell 0 l) (sym (take-drop o.bc_cons bits)) short)).1
          (All-drop (λ b. b < 2) o.bc_cons bits (buffer_bits-IsBit bc_b 0 (nr_words / 2))))

  pub fill_ring-IsOutput :
      (latency : Bool) (dmacons : ℕ) (o : Output)
      → IsOutput cell bits o
      → IsOutput cell bits (fill_ring cell bc_b nr_words latency dmacons o)
  unfolding fill_ring
  fill_ring-IsOutput latency dmacons o kept =
      let s = IsSent-more latency dmacons o kept in
      let behind = take_more o.bc_cons s.count r.bc_cons bits kept.within s.consumed in
      let total : emit cell [] 0 (take r.bc_cons bits) ≡ (
        (emit cell [] zeros (take s.count (drop o.bc_cons bits))).0
            ++ (emit cell [] 0 (take o.bc_cons bits)).0,
        (emit cell [] zeros (take s.count (drop o.bc_cons bits))).1,
      ) =
        ap (emit cell [] 0) behind
        ∙ emit-append (take o.bc_cons bits) (take s.count (drop o.bc_cons bits)) cell [] 0
        ∙ emit_behind (take s.count (drop o.bc_cons bits)) cell []
            (emit cell [] 0 (take o.bc_cons bits)).0 zeros in
      record {
        within = omega (arith, s.within, s.consumed, kept.within, length-drop o.bc_cons bits);
        timings = ap₂ ◌++◌ s.timings kept.timings ∙ sym (ap (λ (p : List ℕ × ℕ). p.0) total);
        rest = s.rest ∙ sym (ap (λ (p : List ℕ × ℕ). 16 * (p.1 * cell)) total);
      }
    where
      r : Writer
      r = wdata_bc_to_flux cell bc_b nr_words o.ticks o.bc_cons (ring_room latency o.prod dmacons)

      zeros : ℕ
      zeros = (emit cell [] 0 (take o.bc_cons bits)).1

  -- Each look finds room in the ring.
  abbrev pub HasRoom : Output → List Poll → Type 0
  HasRoom o [] = Unit
  HasRoom o (p ∷ polls) =
      (0 < ring_room true o.prod p.dmacons)
      × HasRoom (fill_ring cell bc_b nr_words true p.dmacons o) polls

  -- Before anything is put out.
  pub empty-IsOutput :
      (ring : ℕ → ℕ)
      → IsOutput cell bits (record { ring = ring; prod = 0; ticks = 0; bc_cons = 0; sent = [] })
  empty-IsOutput ring = record { within = omega arith; timings = refl; rest = omega arith }

  -- Behind `floppy_write_prep`.
  pub write_prep-IsOutput :
      (latency : Bool) (ring : ℕ → ℕ)
      → IsOutput cell bits (write_prep cell bc_b nr_words latency ring)
  unfolding write_prep
  write_prep-IsOutput latency ring = fill_ring-IsOutput latency 0 _ (empty-IsOutput ring)
