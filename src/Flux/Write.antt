-- ===== src/Flux/Write.antt =====
-- From bitcells to flux timings: the loops of `_wdata_bc_to_flux` while it is asked for more timings
-- than there are.
use flashfloppy_testbed.Prelude.{
  ℕ, zero, suc, ◌+◌, ◌-◌, ◌*◌, ◌/◌, ◌%◌, ◌^◌, ◌<◌, ◌≤◌, ◌≡◌, ◌∙◌, refl, sym, ap, ap₂, arith,
}
use flashfloppy_testbed.Prelude.{
  List, [], ◌∷◌, Bool, true, false, Bool-cases, inl, inr, leb, ◌==◌, if◌then◌else◌,
}
use mathlib.Core.Path.{subst}
use flashfloppy_testbed.Mem.{u16, u32}
use flashfloppy_testbed.Flux.{Writer, one_cell, word_cells}
use flashfloppy_testbed.Flux.Read.{suc_times}

abbrev pub cell_bit : Bool → ℕ
cell_bit b = if b then 1 else 0

-- The `n` high bits of a 32-bit word, the highest first.
abbrev pub cell_bits : ℕ → ℕ → List ℕ
cell_bits zero x = []
cell_bits (suc n) x = cell_bit (leb (2 ^ 31) x) ∷ cell_bits n (u32 (x * 2))

-- Behind `k` zeros since the last one: the reload values so far, last first, and the zeros then. A
-- timer that is loaded with one less than so many ticks runs for just as many.
abbrev pub emit : ℕ → List ℕ → ℕ → List ℕ → List ℕ × ℕ
emit cell acc k [] = (acc, k)
emit cell acc k (b ∷ bs) =
    if b == 1 then emit cell ((suc k * cell - 1) ∷ acc) 0 bs else emit cell acc (suc k) bs

-- No two ones are further apart than a 16-bit timer can count.
abbrev pub IsShort : ℕ → ℕ → List ℕ → Type 0
IsShort cell k [] = Unit
IsShort cell k (b ∷ bs) = (suc k * cell < 2 ^ 16) × IsShort cell (if b == 1 then 0 else suc k) bs

-- `r` is `w` when `bits` have been emitted behind `k` zeros.
pub record IsEmitted (cell : ℕ) (w r : Writer) (k : ℕ) (bits : List ℕ) (n : ℕ) : Type 0 where
  pub timings : r.tbuf ≡ (emit cell w.tbuf k bits).0
  pub rest : r.ticks ≡ 16 * ((emit cell w.tbuf k bits).1 * cell)
  pub consumed : r.bc_cons ≡ w.bc_cons + n
  pub more : w.todo ≤ r.todo + n

abbrev pub writer : List ℕ → ℕ → ℕ → ℕ → Writer
writer tbuf ticks todo bc_cons = record {
  tbuf = tbuf;
  ticks = ticks;
  todo = todo;
  bc_cons = bc_cons;
}

module _ (cell : ℕ) (w : Writer) (k x : ℕ) (ticks : w.ticks ≡ 16 * (k * cell))
    (short : suc k * cell < 2 ^ 16) where
  next_ticks : u32 (w.ticks + cell * 16) ≡ 16 * (suc k * cell)
  next_ticks = omega (arith, ticks, short, suc_times k cell)

  pub one_set :
      leb (2 ^ 31) x ≡ true
      → 0 < cell
      → one_cell (cell * 16) w x
        ≡ writer ((suc k * cell - 1) ∷ w.tbuf) (16 * (0 * cell)) (w.todo - 1) (w.bc_cons + 1)
  unfolding one_cell
  one_set e pos = rw e (
      ap (λ t. writer (u16 (t / 16 + 2 ^ 16 - 1) ∷ w.tbuf) (t % 16) (w.todo - 1) (w.bc_cons + 1))
        next_ticks
      ∙ ap₂ (λ a b. writer (a ∷ w.tbuf) b (w.todo - 1) (w.bc_cons + 1))
          (reload (suc k * cell) (omega (arith, pos, suc_times k cell)) short)
          (spent (suc k * cell)))
    where
      reload : (t : ℕ) → 0 < t → t < 2 ^ 16 → u16 (16 * t / 16 + 2 ^ 16 - 1) ≡ t - 1
      reload t p l = omega arith

      spent : (t : ℕ) → 16 * t % 16 ≡ 16 * (0 * cell)
      spent t = omega arith

  pub one_clear :
      leb (2 ^ 31) x ≡ false
      → one_cell (cell * 16) w x ≡ writer w.tbuf (16 * (suc k * cell)) w.todo (w.bc_cons + 1)
  unfolding one_cell
  one_clear e = rw e (ap (λ t. writer w.tbuf t w.todo (w.bc_cons + 1)) next_ticks)

-- One round, when the rest is known.
module _ (cell : ℕ) (w next : Writer) (k k' : ℕ) (b : ℕ) (bs : List ℕ) (n : ℕ) (r : Writer)
    (step : emit cell w.tbuf k (b ∷ bs) ≡ emit cell next.tbuf k' bs)
    (counted : next.bc_cons ≡ w.bc_cons + 1) (asked : w.todo ≤ next.todo + 1)
    (later : IsEmitted cell next r k' bs n) where
  IsEmitted-round : IsEmitted cell w r k (b ∷ bs) (suc n)
  IsEmitted-round = record {
    timings = later.timings ∙ ap (λ (p : List ℕ × ℕ). p.0) (sym step);
    rest = later.rest ∙ ap (λ (p : List ℕ × ℕ). 16 * (p.1 * cell)) (sym step);
    consumed = omega (arith, later.consumed, counted);
    more = omega (arith, later.more, asked);
  }

word_step :
    (tpc n x : ℕ) (w next : Writer)
    → one_cell tpc w x ≡ next
    → (next.todo == 0) ≡ false
    → word_cells tpc w x (suc n) ≡ word_cells tpc next (u32 (x * 2)) n
unfolding word_cells
word_step tpc n x w next e f =
    ap (λ (v : Writer). if v.todo == 0 then v else word_cells tpc v (u32 (x * 2)) n) e
    ∙ ap (λ b. if b then next else word_cells tpc next (u32 (x * 2)) n) f

pub IsShort-set : (cell k b : ℕ) (bs : List ℕ) → b ≡ 1 → IsShort cell k (b ∷ bs) → IsShort cell 0 bs
IsShort-set cell k b bs e = rw e (λ (s : IsShort cell k (1 ∷ bs)). s.1)

pub IsShort-clear :
    (cell k b : ℕ) (bs : List ℕ) → b ≡ 0 → IsShort cell k (b ∷ bs) → IsShort cell (suc k) bs
IsShort-clear cell k b bs e = rw e (λ (s : IsShort cell k (0 ∷ bs)). s.1)

-- The cells of a word are emitted while more timings are asked for than cells are left.
pub word_cells-IsEmitted :
    (n cell k x : ℕ) (w : Writer)
    → 0 < cell
    → w.ticks ≡ 16 * (k * cell)
    → n < w.todo
    → IsShort cell k (cell_bits n x)
    → IsEmitted cell w (word_cells (cell * 16) w x n) k (cell_bits n x) n
unfolding word_cells
word_cells-IsEmitted zero cell k x w pos ticks todo short = record {
  timings = refl;
  rest = ticks;
  consumed = omega arith;
  more = omega arith;
}
word_cells-IsEmitted (suc n) cell k x w pos ticks todo short = elim (Bool-cases (leb (2 ^ 31) x)) [
  | inl set ↦
      let one = ap cell_bit set in
      let next =
        writer ((suc k * cell - 1) ∷ w.tbuf) (16 * (0 * cell)) (w.todo - 1) (w.bc_cons + 1) in
      subst (λ r. IsEmitted cell w r k (cell_bits (suc n) x) (suc n))
        (sym (
          word_step (cell * 16) n x w next (one_set cell w k x ticks short.0 set pos)
            (more_to_do (w.todo - 1) (omega arith))))
        (rw one (
          IsEmitted-round cell w next k 0 1 (cell_bits n (u32 (x * 2))) n _ refl refl (omega arith)
            (word_cells-IsEmitted n cell 0 (u32 (x * 2)) next pos refl (omega arith)
              (IsShort-set cell k _ (cell_bits n (u32 (x * 2))) one short))))
  | inr clear ↦
      let none_ = ap cell_bit clear in
      let next = writer w.tbuf (16 * (suc k * cell)) w.todo (w.bc_cons + 1) in
      subst (λ r. IsEmitted cell w r k (cell_bits (suc n) x) (suc n))
        (sym (
          word_step (cell * 16) n x w next (one_clear cell w k x ticks short.0 clear)
            (more_to_do w.todo (omega arith))))
        (rw none_ (
          IsEmitted-round cell w next k (suc k) 0 (cell_bits n (u32 (x * 2))) n _ refl refl
            (omega arith)
            (word_cells-IsEmitted n cell (suc k) (u32 (x * 2)) next pos refl (omega arith)
              (IsShort-clear cell k _ (cell_bits n (u32 (x * 2))) none_ short))))
]
  where
    more_to_do : (t : ℕ) → 0 < t → (t == 0) ≡ false
    more_to_do t p = ground arith
