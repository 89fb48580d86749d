-- ===== src/Flux/Read.antt =====
-- From flux timings to bitcells: the loops of `rdata_flux_to_bc` as a run of single bits.
use flashfloppy_testbed.Prelude.{
  ℕ, zero, suc, ◌+◌, ◌-◌, ◌*◌, ◌/◌, ◌^◌, ◌<◌, ◌≤◌, ◌≡◌, ◌∙◌, refl, sym, ap, arith,
}
use flashfloppy_testbed.Prelude.{
  List, [], ◌∷◌, ◌++◌, replicate, Bool, true, false, ltb, if◌then◌else◌,
}
use mathlib.Core.List.{append_assoc}
use native.Mathlib.Nat.{suc-mul}
use flashfloppy_testbed.Mem.{u16}
use flashfloppy_testbed.Flux.{Reader, push_bit, zero_cells, one_flux, flux_loop}

-- Bit by bit, until the buffer is full.
abbrev pub push_bits : ℕ → Reader → List ℕ → Reader
push_bits bc_max s [] = s
push_bits bc_max s (b ∷ bs) =
    let next = push_bit bc_max s b in
    let rest = push_bits bc_max next bs in if next.full then next else rest

-- The cells of flux reversals: each is a one behind so many zeros.
abbrev pub gap_bits : List ℕ → List ℕ
gap_bits [] = []
gap_bits (k ∷ ks) = replicate k 0 ++ (1 ∷ gap_bits ks)

-- `curr` ticks are `k + 1` cells, to within half a cell (or fewer, where that is one cell).
abbrev pub InWindow : ℕ → ℕ → ℕ → Type 0
InWindow cell k curr = (curr ≤ suc k * cell + cell / 2) × (0 < k → k * cell + cell / 2 < curr)

-- The samples behind `prev` are apart by those numbers of cells.
abbrev pub IsTimed : ℕ → ℕ → List ℕ → List ℕ → Type 0
IsTimed cell prev [] ks = ks ≡ []
IsTimed cell prev (next ∷ samples) [] = ⊥
IsTimed cell prev (next ∷ samples) (k ∷ ks) =
    InWindow cell k (u16 (next + 2 ^ 16 - prev)) × IsTimed cell next samples ks

-- A pair by cases, of which the first component is kept.
first_of :
    (b : Bool) (r : Reader) (c : ℕ) (p : Reader × ℕ) (t : Reader)
    → p.0 ≡ t
    → (if b then (r, c) else p).0 ≡ (if b then r else t)
first_of true r c p t e = refl
first_of false r c p t e = e

pub suc_times : (k c : ℕ) → suc k * c ≡ c + k * c
suc_times k c = omega (arith, suc-mul k c)

above : (k c : ℕ) → c ≤ suc k * c
above k c = omega (arith, suc_times k c)

less : (k c curr : ℕ) → curr ≤ suc k * c + c / 2 → curr - c ≤ k * c + c / 2
less k c curr l = omega (arith, suc_times k c)

more : (k c curr : ℕ) → suc k * c + c / 2 < curr → k * c + c / 2 < curr - c
more k c curr l = omega (arith, suc_times k c)

zero_cells-push_bits :
    (k n bc_max cell : ℕ) (s : Reader) (curr : ℕ)
    → k ≤ n
    → InWindow cell k curr
    → (zero_cells bc_max cell s curr n).0 ≡ push_bits bc_max s (replicate k 0)
unfolding zero_cells
zero_cells-push_bits zero zero bc_max cell s curr h w = refl
zero_cells-push_bits zero (suc n) bc_max cell s curr h w =
    let stop : ltb (cell + cell / 2) curr ≡ false = ground (arith, w.0) in rw stop refl
zero_cells-push_bits (suc k) zero bc_max cell s curr h w = absurd (omega arith)
zero_cells-push_bits (suc k) (suc n) bc_max cell s curr h w =
    let go : ltb (cell + cell / 2) curr ≡ true = ground (arith, w.1 (omega arith), above k cell) in
    rw go (
      first_of (push_bit bc_max s 0).full (push_bit bc_max s 0) (curr - cell)
        (zero_cells bc_max cell (push_bit bc_max s 0) (curr - cell) n) _
        (zero_cells-push_bits k n bc_max cell (push_bit bc_max s 0) (curr - cell) (omega arith)
          (less (suc k) cell curr w.0, λ pos. more k cell curr (w.1 (omega arith)))))

module _ (bc_max : ℕ) (r : Reader) (xs ys : List ℕ)
    (later : r.full ≡ false
      → push_bits bc_max r (xs ++ ys) ≡ (
          if (push_bits bc_max r xs).full
          then push_bits bc_max r xs
          else push_bits bc_max (push_bits bc_max r xs) ys)) where
  abbrev upto : Bool → Reader
  upto b = if b then r else push_bits bc_max r xs

  by_full :
      (b : Bool)
      → r.full ≡ b
      → (if b then r else push_bits bc_max r (xs ++ ys))
        ≡ (if (upto b).full then upto b else push_bits bc_max (upto b) ys)
  by_full true e = ap (λ c. if c then r else push_bits bc_max r ys) (sym e)
  by_full false e = later e

push_bits-append :
    (xs ys : List ℕ) (bc_max : ℕ) (s : Reader)
    → s.full ≡ false
    → push_bits bc_max s (xs ++ ys) ≡ (
        if (push_bits bc_max s xs).full
        then push_bits bc_max s xs
        else push_bits bc_max (push_bits bc_max s xs) ys)
push_bits-append [] ys bc_max s e = ap (λ c. if c then s else push_bits bc_max s ys) (sym e)
push_bits-append (x ∷ xs) ys bc_max s e =
    by_full bc_max (push_bit bc_max s x) xs ys (push_bits-append xs ys bc_max (push_bit bc_max s x))
      (push_bit bc_max s x).full refl

times : (k c : ℕ) → 0 < c → k ≤ k * c
times zero c p = omega arith
times (suc k) c p = omega (arith, times k c p, suc_times k c)

enough : (k c curr : ℕ) → 0 < c → (0 < k → k * c + c / 2 < curr) → k ≤ curr
enough zero c curr pos h = omega arith
enough (suc k) c curr pos h = omega (arith, h (omega arith), times (suc k) c pos)

-- A whole flux reversal.
one_flux-push_bits :
    (k bc_max cell : ℕ) (s : Reader) (curr : ℕ)
    → s.full ≡ false
    → 0 < cell
    → InWindow cell k curr
    → one_flux bc_max cell s curr ≡ push_bits bc_max s (replicate k 0 ++ (1 ∷ []))
unfolding one_flux
one_flux-push_bits k bc_max cell s curr e pos w =
    ap (λ (z : Reader). if z.full then z else push_bit bc_max z 1)
      (zero_cells-push_bits k curr bc_max cell s curr (enough k cell curr pos w.1) w)
    ∙ sym (
        push_bits-append (replicate k 0) (1 ∷ []) bc_max s e
        ∙ ap
            (λ (l : Reader).
              if (push_bits bc_max s (replicate k 0)).full
              then push_bits bc_max s (replicate k 0)
              else l)
            (same (push_bit bc_max (push_bits bc_max s (replicate k 0)) 1).full _))
  where
    same : (b : Bool) (r : Reader) → (if b then r else r) ≡ r
    same true r = refl
    same false r = refl

-- One round of the loop, when the rest is known for a reader that is not full.
one_round :
    (bc_max cell prev next : ℕ) (samples : List ℕ) (bits : List ℕ) (r : Reader)
    → (r.full ≡ false → (flux_loop bc_max cell r next samples).0 ≡ push_bits bc_max r bits)
    → (if r.full then (r, prev) else flux_loop bc_max cell r next samples).0
      ≡ (if r.full then r else push_bits bc_max r bits)
one_round bc_max cell prev next samples bits r later = go r.full refl
  where
    go :
        (b : Bool)
        → r.full ≡ b
        → (if b then (r, prev) else flux_loop bc_max cell r next samples).0
          ≡ (if b then r else push_bits bc_max r bits)
    go true e = refl
    go false e = later e

-- `rdata_flux_to_bc` decodes flux reversals, each a number of cells behind the one before to within
-- half a cell, as that many cells, the last of them a one and the others zeros, up to the bit that
-- fills the buffer.
pub flux_loop-push_bits :
    (samples ks : List ℕ) (bc_max cell : ℕ) (s : Reader) (prev : ℕ)
    → 0 < cell
    → s.full ≡ false
    → IsTimed cell prev samples ks
    → (flux_loop bc_max cell s prev samples).0 ≡ push_bits bc_max s (gap_bits ks)
unfolding flux_loop
flux_loop-push_bits [] ks bc_max cell s prev pos e h =
    ap (λ l. push_bits bc_max s (gap_bits l)) (sym h)
flux_loop-push_bits (next ∷ samples) [] bc_max cell s prev pos e h = absurd h
flux_loop-push_bits (next ∷ samples) (k ∷ ks) bc_max cell s prev pos e h =
    ap (λ (r : Reader). (if r.full then (r, prev) else flux_loop bc_max cell r next samples).0)
      (one_flux-push_bits k bc_max cell s (u16 (next + 2 ^ 16 - prev)) e pos h.0)
    ∙ one_round bc_max cell prev next samples (gap_bits ks)
        (push_bits bc_max s (replicate k 0 ++ (1 ∷ [])))
        (λ f.
          flux_loop-push_bits samples ks bc_max cell
            (push_bits bc_max s (replicate k 0 ++ (1 ∷ []))) next pos f h.1)
    ∙ sym (push_bits-append (replicate k 0 ++ (1 ∷ [])) (gap_bits ks) bc_max s e)
    ∙ ap (push_bits bc_max s) (append_assoc (replicate k 0) (1 ∷ []) (gap_bits ks))
