-- ===== src/Flux/Buffer.antt =====
-- What the write path makes of a whole bitcell buffer.
use flashfloppy_testbed.Prelude.{
  ℕ, zero, suc, ◌+◌, ◌-◌, ◌*◌, ◌/◌, ◌%◌, ◌^◌, ◌<◌, ◌≡◌, ◌∙◌, refl, sym, ap, ap₂, arith,
}
use flashfloppy_testbed.Prelude.{
  List, [], ◌∷◌, ◌++◌, Bool, true, false, ◌==◌, if◌then◌else◌, Bool-cases, inl, inr,
}
use mathlib.Core.Path.{subst}
use flashfloppy_testbed.Mem.{u32}
use flashfloppy_testbed.Flux.{Writer, word_cells, buffer_cells, wdata_bc_to_flux}
use flashfloppy_testbed.Flux.Write.{cell_bits, emit, IsShort, IsEmitted, word_cells-IsEmitted}

-- The bitcells of a 32-bit word.
unfoldable pub word_bits : ℕ → List ℕ
word_bits x = cell_bits 32 x

-- The bitcells of a buffer from word `j` on.
abbrev pub buffer_bits : (ℕ → ℕ) → ℕ → ℕ → List ℕ
buffer_bits bc_b j zero = []
buffer_bits bc_b j (suc n) = word_bits (bc_b j) ++ buffer_bits bc_b (j + 1) n

pub emit-append :
    (xs ys : List ℕ) (cell : ℕ) (acc : List ℕ) (k : ℕ)
    → emit cell acc k (xs ++ ys) ≡ emit cell (emit cell acc k xs).0 (emit cell acc k xs).1 ys
emit-append [] ys cell acc k = refl
emit-append (x ∷ xs) ys cell acc k = elim (Bool-cases (x == 1)) [
  | inl one ↦ rw one (emit-append xs ys cell ((suc k * cell - 1) ∷ acc) 0)
  | inr other ↦ rw other (emit-append xs ys cell acc (suc k))
]

-- Behind one bit, when the rest is known.
IsShort-round :
    (b : Bool) (xs ys : List ℕ) (cell : ℕ) (acc : List ℕ) (k : ℕ)
    → ((acc' : List ℕ) (k' : ℕ)
        → IsShort cell k' (xs ++ ys)
        → IsShort cell k' xs × IsShort cell (emit cell acc' k' xs).1 ys)
    → IsShort cell (if b then 0 else suc k) (xs ++ ys)
    → IsShort cell (if b then 0 else suc k) xs
      × IsShort cell
          (if b then emit cell ((suc k * cell - 1) ∷ acc) 0 xs else emit cell acc (suc k) xs).1
          ys
IsShort-round true xs ys cell acc k later h = later ((suc k * cell - 1) ∷ acc) 0 h
IsShort-round false xs ys cell acc k later h = later acc (suc k) h

-- The two parts of a string that is short.
pub IsShort-parts :
    (xs ys : List ℕ) (cell : ℕ) (acc : List ℕ) (k : ℕ)
    → IsShort cell k (xs ++ ys)
    → IsShort cell k xs × IsShort cell (emit cell acc k xs).1 ys
IsShort-parts [] ys cell acc k h = (tt, h)
IsShort-parts (x ∷ xs) ys cell acc k h =
    let parts = IsShort-round (x == 1) xs ys cell acc k (IsShort-parts xs ys cell) h.1 in
    ((h.0, parts.0), parts.1)

-- One run of cells behind another.
module _ (cell k n m : ℕ) (xs ys : List ℕ) (w r t : Writer) (first : IsEmitted cell w r k xs n)
    (second : IsEmitted cell r t (emit cell w.tbuf k xs).1 ys m) where
  joined : emit cell r.tbuf (emit cell w.tbuf k xs).1 ys ≡ emit cell w.tbuf k (xs ++ ys)
  joined =
      ap (λ l. emit cell l (emit cell w.tbuf k xs).1 ys) first.timings
      ∙ sym (emit-append xs ys cell w.tbuf k)

  IsEmitted-append : IsEmitted cell w t k (xs ++ ys) (n + m)
  IsEmitted-append = record {
    timings = second.timings ∙ ap (λ (p : List ℕ × ℕ). p.0) joined;
    rest = second.rest ∙ ap (λ (p : List ℕ × ℕ). 16 * (p.1 * cell)) joined;
    consumed = omega (arith, first.consumed, second.consumed);
    more = omega (arith, first.more, second.more);
  }

module _ (j cell k : ℕ) (bc_b : ℕ → ℕ) (w : Writer) (pos : 0 < cell)
    (words : (i : ℕ) → bc_b i < 2 ^ 32) (at : w.bc_cons ≡ 32 * j)
    (ticks : w.ticks ≡ 16 * (k * cell)) (todo : 32 < w.todo)
    (short : IsShort cell k (word_bits (bc_b j))) where
  -- what the loop makes of the word at `bc_c / 32`
  abbrev word_written : Writer
  word_written =
      word_cells (cell * 16) w (u32 (bc_b (w.bc_cons / 32) * 2 ^ (w.bc_cons % 32)))
        (32 - w.bc_cons % 32)

  at_word : w.bc_cons / 32 ≡ j
  at_word = omega (arith, at)

  aligned : w.bc_cons % 32 ≡ 0
  aligned = omega (arith, at)

  whole : (b : ℕ) → b < 2 ^ 32 → u32 (b * 2 ^ 0) ≡ b
  whole b h = omega arith

  word_lem : word_written ≡ word_cells (cell * 16) w (bc_b j) 32
  word_lem =
      ap₂ (λ i y. word_cells (cell * 16) w (u32 (bc_b i * 2 ^ y)) (32 - y)) at_word aligned
      ∙ ap (λ x. word_cells (cell * 16) w x 32) (whole (bc_b j) (words j))

  word_written-IsEmitted : IsEmitted cell w word_written k (word_bits (bc_b j)) 32
  unfolding word_bits
  word_written-IsEmitted =
      subst (λ r. IsEmitted cell w r k (cell_bits 32 (bc_b j)) 32) (sym word_lem)
        (word_cells-IsEmitted 32 cell k (bc_b j) w pos ticks todo short)

-- The words of a buffer are emitted one behind the other.
pub buffer_cells-IsEmitted :
    (left j cell k : ℕ) (bc_b : ℕ → ℕ) (w : Writer)
    → 0 < cell
    → ((i : ℕ) → bc_b i < 2 ^ 32)
    → w.bc_cons ≡ 32 * j
    → w.ticks ≡ 16 * (k * cell)
    → 32 * left < w.todo
    → IsShort cell k (buffer_bits bc_b j left)
    → IsEmitted cell w
        (buffer_cells (cell * 16) bc_b w left)
        k
        (buffer_bits bc_b j left)
        (32 * left)
unfolding buffer_cells
buffer_cells-IsEmitted zero j cell k bc_b w pos words at ticks todo short = record {
  timings = refl;
  rest = ticks;
  consumed = omega arith;
  more = omega arith;
}
buffer_cells-IsEmitted (suc left) j cell k bc_b w pos words at ticks todo short =
    let parts =
      IsShort-parts (word_bits (bc_b j)) (buffer_bits bc_b (j + 1) left) cell w.tbuf k short in
    let first = word_written-IsEmitted j cell k bc_b w pos words at ticks (omega arith) parts.0 in
    let r = word_written j cell k bc_b w pos words at ticks (omega arith) parts.0 in
    let goes : (r.todo == 0) ≡ false = ground (arith, first.more) in
    let later =
      buffer_cells-IsEmitted left (j + 1) cell (emit cell w.tbuf k (word_bits (bc_b j))).1 bc_b r
        pos words (omega (arith, first.consumed, at)) first.rest (omega (arith, first.more))
        parts.1 in
    subst
      (λ n.
        IsEmitted cell w (buffer_cells (cell * 16) bc_b w (suc left)) k
          (buffer_bits bc_b j (suc left)) n)
      (count left)
      (subst
        (λ (b : Bool).
          IsEmitted cell w (if b then r else buffer_cells (cell * 16) bc_b r left) k
            (buffer_bits bc_b j (suc left)) (32 + 32 * left))
        (sym goes)
        (IsEmitted-append cell k 32 (32 * left) (word_bits (bc_b j)) (buffer_bits bc_b (j + 1) left)
          w r _ first later))
  where
    count : (n : ℕ) → 32 + 32 * n ≡ 32 * suc n
    count n = omega arith

abbrev start : ℕ → Writer
start nr = record { tbuf = []; ticks = 0; todo = nr; bc_cons = 0 }

-- `_wdata_bc_to_flux`, from the start of a buffer and asked for more timings than it has bitcells,
-- consumes all of them, and for each one among them gives the reload value that makes the timer run
-- for just the cells since the one before, in a whole number of ticks.
pub wdata_bc_to_flux-emit :
    (cell nr_words nr : ℕ) (bc_b : ℕ → ℕ)
    → 0 < cell
    → cell < 2 ^ 28
    → ((i : ℕ) → bc_b i < 2 ^ 32)
    → nr_words < 2 ^ 28
    → nr_words % 2 ≡ 0
    → nr_words * 16 < nr
    → IsShort cell 0 (buffer_bits bc_b 0 (nr_words / 2))
    → let r = wdata_bc_to_flux cell bc_b nr_words 0 0 nr in
      (r.tbuf ≡ (emit cell [] 0 (buffer_bits bc_b 0 (nr_words / 2))).0)
      × (r.bc_cons ≡ nr_words * 16)
unfolding wdata_bc_to_flux
wdata_bc_to_flux-emit cell nr_words nr bc_b pos cell_small words small even asked short =
    let first =
      buffer_cells-IsEmitted (nr_words / 2) 0 cell 0 bc_b (start nr) pos words refl (omega arith)
        (omega arith) short in
    rw (going nr (omega arith)) (
      ap (λ (r : Writer). r.tbuf) whole ∙ first.timings,
      ap (λ (r : Writer). r.bc_cons) whole ∙ first.consumed ∙ omega arith,
    )
  where
    going : (n : ℕ) → 0 < n → (n == 0) ≡ false
    going n p = ground arith

    whole :
        buffer_cells (u32 (cell * 16)) bc_b (start nr) (u32 (nr_words * 16) / 32 - 0 / 32)
        ≡ buffer_cells (cell * 16) bc_b (start nr) (nr_words / 2)
    whole = ap₂ (λ t n. buffer_cells t bc_b (start nr) n) (omega arith) (omega arith)
