-- ===== src/Flux/Sync/Mark.antt =====
-- The mark that a read waits for is found at the first bitcell where the last 32 are the mark.
use flashfloppy_testbed.Prelude.{
  ℕ, zero, suc, ◌+◌, ◌-◌, ◌*◌, ◌/◌, ◌%◌, ◌^◌, ◌<◌, ◌≤◌, ◌≡◌, inl, inr, ◌∙◌, refl, sym, ap, arith,
}
use flashfloppy_testbed.Prelude.{
  List, [], ◌∷◌, ◌++◌, replicate, false, ◌==◌, if◌then◌else◌, Bool-cases, Option, none, some,
}
use Prim.Native.Nat.{one}
use mathlib.Core.Path.{subst}
use native.Mathlib.Nat.{div-eq_of_lt-le, pow-suc, suc-mul}
use flashfloppy_testbed.Bits.Step.{bit_and_step}
use flashfloppy_testbed.Mem.{u16, u32}
use flashfloppy_testbed.Flux.Read.{gap_bits}
use flashfloppy_testbed.Flux.Sync.{
  Sync, sync_none, sync_fm, sync_mfm, Window, sync_found, flux_cells, shift_flux, sync_loop,
}

-- A window of 32 cells, behind some more.
abbrev pub window : ℕ → List ℕ → ℕ
window dat [] = dat
window dat (b ∷ bs) = window (u32 (dat * 2 + b)) bs

-- The first place in a run of cells where the window has the mark: the window there, how many of its
-- cells are the mark, and the cells behind it.
abbrev pub find_mark : Sync → ℕ → List ℕ → Option (ℕ × ℕ × List ℕ)
find_mark sync dat [] = none
find_mark sync dat (b ∷ bs) =
    let d = u32 (dat * 2 + b) in
    let rest = find_mark sync d bs in
    if sync_found sync d == 0 then rest else some (d, sync_found sync d, bs)

-- As in `Flux.Read`, but by less than half a cell: where it is just half a cell, `rdata_wait_sync`
-- takes one cell more than `rdata_flux_to_bc`.
abbrev pub InCells : ℕ → ℕ → ℕ → Type 0
InCells cell k curr = (curr < suc k * cell + cell / 2) × (0 < k → k * cell + cell / 2 < curr)

abbrev pub IsSpaced : ℕ → ℕ → List ℕ → List ℕ → Type 0
IsSpaced cell prev [] ks = ks ≡ []
IsSpaced cell prev (next ∷ samples) [] = ⊥
IsSpaced cell prev (next ∷ samples) (k ∷ ks) =
    InCells cell k (u16 (next + 2 ^ 16 - prev)) × IsSpaced cell next samples ks

flux_cells_lem : (cell k curr : ℕ) → 0 < cell → InCells cell k curr → flux_cells cell curr ≡ suc k
unfolding flux_cells
flux_cells_lem cell k curr pos w =
    ap (λ n. n + 1) (div-eq_of_lt-le cell (low k w.1) high) ∙ omega arith
  where
    low : (k : ℕ) → (0 < k → k * cell + cell / 2 < curr) → k * cell ≤ curr - cell / 2
    low zero h = omega arith
    low (suc k) h = omega (arith, h (omega arith))

    high : curr - cell / 2 < (k + one) * cell
    high = omega (arith, w.0, same k, above k)
      where
        same : (k : ℕ) → (k + one) * cell ≡ suc k * cell
        same k = ap (λ t. t * cell) (omega arith)

        above : (k : ℕ) → cell ≤ suc k * cell
        above k = omega (arith, suc-mul k cell)

wrap_times : (a t : ℕ) → u32 (u32 a * t) ≡ u32 (a * t)
wrap_times a t = omega (arith, ap (λ x. x * t) (whole a), spread (a / 2 ^ 32) (a % 2 ^ 32) t)
  where
    whole : (a : ℕ) → a ≡ a / 2 ^ 32 * 2 ^ 32 + a % 2 ^ 32
    whole a = omega arith

    spread : (q r t : ℕ) → (q * 2 ^ 32 + r) * t ≡ q * t * 2 ^ 32 + r * t
    spread q r t = grind arith

shift-window :
    (k dat : ℕ) → u32 (u32 (dat * 2 ^ suc k) + 1) ≡ window dat (replicate k 0 ++ (1 ∷ []))
shift-window zero dat = omega arith
shift-window (suc k) dat =
    ap (λ t. u32 (t + 1)) (sym (wrap_times (dat * 2 + 0) (2 ^ suc k) ∙ ap u32 (powers dat k)))
    ∙ shift-window k (u32 (dat * 2 + 0))
  where
    twice : (d p : ℕ) → (d * 2 + 0) * p ≡ d * (2 * p)
    twice d p = grind arith

    powers : (d k : ℕ) → (d * 2 + 0) * 2 ^ suc k ≡ d * 2 ^ suc (suc k)
    powers d k = twice d (2 ^ suc k) ∙ ap (λ t. d * t) (omega (arith, pow-suc 2 (suc k)))

-- A window with a mark ends in a one.
sync_found-even : (sync : Sync) (d : ℕ) → sync_found sync (u32 (d * 2 + 0)) ≡ 0
unfolding sync_found
sync_found-even sync_mfm d = ground arith
sync_found-even sync_none d = ground arith
sync_found-even sync_fm d = ground (arith, bit_and_step (u32 (d * 2 + 0)) 0xffffd555)

find_mark-zeros :
    (k : ℕ) (sync : Sync) (dat : ℕ) (bs : List ℕ)
    → find_mark sync dat (replicate k 0 ++ bs) ≡ find_mark sync (window dat (replicate k 0)) bs
find_mark-zeros zero sync dat bs = refl
find_mark-zeros (suc k) sync dat bs =
    rw (sync_found-even sync dat) (find_mark-zeros k sync (u32 (dat * 2 + 0)) bs)

window-append : (xs ys : List ℕ) (dat : ℕ) → window dat (xs ++ ys) ≡ window (window dat xs) ys
window-append [] ys dat = refl
window-append (x ∷ xs) ys dat = window-append xs ys (u32 (dat * 2 + x))

shift_flux-window :
    (cell k next : ℕ) (s : Window)
    → 0 < cell
    → InCells cell k (u16 (next + 2 ^ 16 - s.prev))
    → (shift_flux cell s next).bc_dat ≡ window s.bc_dat (replicate k 0 ++ (1 ∷ []))
unfolding shift_flux
shift_flux-window cell k next s pos w =
    ap (λ n. u32 (u32 (s.bc_dat * 2 ^ n) + 1))
      (flux_cells_lem cell k (u16 (next + 2 ^ 16 - s.prev)) pos w)
    ∙ shift-window k s.bc_dat

shift_flux_prev : (cell : ℕ) (s : Window) (next : ℕ) → (shift_flux cell s next).prev ≡ next
unfolding shift_flux
shift_flux_prev cell s next = refl

-- What the loop has found, if anything: the window, the length of the mark, and cells that the
-- samples behind it are spaced by.
abbrev pub Finds : ℕ → Option (ℕ × ℕ × List ℕ) → Window × List ℕ × ℕ → Type 0
Finds cell none (w, left, found) = found ≡ 0
Finds cell (some (d, n, bits)) (w, left, found) =
    (w.bc_dat ≡ d)
    × (found ≡ n)
    × ((n == 0) ≡ false)
    × ((ks : List ℕ) × (gap_bits ks ≡ bits) × IsSpaced cell w.prev left ks)

-- `rdata_wait_sync` on samples that are spaced by whole numbers of cells, to within half a cell, stops
-- behind the first of their cells where the last 32 are the mark, with these as its window, and leaves
-- the samples behind it; where there is none it takes all samples.
pub sync_loop-find_mark :
    (samples ks : List ℕ) (sync : Sync) (cell : ℕ) (s : Window)
    → 0 < cell
    → IsSpaced cell s.prev samples ks
    → Finds cell (find_mark sync s.bc_dat (gap_bits ks)) (sync_loop sync cell s samples)
unfolding sync_loop
sync_loop-find_mark [] ks sync cell s pos h =
    subst (λ l. Finds cell (find_mark sync s.bc_dat (gap_bits l)) (s, [], 0)) (sym h) refl
sync_loop-find_mark (next ∷ samples) [] sync cell s pos h = absurd h
sync_loop-find_mark (next ∷ samples) (k ∷ ks) sync cell s pos h =
    let shifted = shift_flux cell s next in
    let step : find_mark sync s.bc_dat (gap_bits (k ∷ ks))
        ≡ behind sync shifted.bc_dat (gap_bits ks) =
      find_mark-zeros k sync s.bc_dat (1 ∷ gap_bits ks)
      ∙ ap (λ d. behind sync d (gap_bits ks))
          (sym (window-append (replicate k 0) (1 ∷ []) s.bc_dat)
            ∙ sym (shift_flux-window cell k next s pos h.0)) in
    let later =
      sync_loop-find_mark samples ks sync cell shifted pos
        (subst (λ p. IsSpaced cell p samples ks) (sym (shift_flux_prev cell s next)) h.1) in
    subst (λ o. Finds cell o (sync_loop sync cell s (next ∷ samples))) (sym step)
      (elim (Bool-cases (sync_found sync shifted.bc_dat == 0)) [
        | inl miss ↦ rw miss later
        | inr hit ↦ rw hit (
          refl,
          refl,
          hit,
          (
            ks,
            refl,
            subst (λ p. IsSpaced cell p samples ks) (sym (shift_flux_prev cell s next)) h.1,
          ),
        )
      ])
  where
    behind : Sync → ℕ → List ℕ → Option (ℕ × ℕ × List ℕ)
    behind sync d bs =
        if sync_found sync d == 0 then find_mark sync d bs else some (d, sync_found sync d, bs)
