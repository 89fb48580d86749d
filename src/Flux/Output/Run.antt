-- ===== src/Flux/Output/Run.antt =====
-- `_wdata_bc_to_flux` as one run over the bitcells that are left, however many timings it is asked for.
use flashfloppy_testbed.Prelude.{
  ℕ, zero, suc, ◌+◌, ◌-◌, ◌*◌, ◌/◌, ◌%◌, ◌^◌, ◌<◌, ◌≤◌, ◌≡◌, ◌∙◌, refl, sym, ap, ap₂, arith, List,
  [], ◌∷◌, ◌++◌, length, drop, true, false, leb, ◌==◌, if◌then◌else◌, Bool-cases, inl, inr,
}
use native.Mathlib.Nat.{pow-suc, add-mul-mod_self_right}
use flashfloppy_testbed.Mem.{u32}
use flashfloppy_testbed.Flux.{Writer, one_cell, word_cells, buffer_cells, wdata_bc_to_flux}
use flashfloppy_testbed.Flux.Write.{cell_bits, cell_bit}
use flashfloppy_testbed.Flux.Buffer.{word_bits, buffer_bits}

abbrev pub one_bit : ℕ → Writer → ℕ → Writer
one_bit tpc w b = one_cell tpc w (b * 2 ^ 31)

-- Cells one by one, until no more timings are asked for.
abbrev pub run : ℕ → Writer → List ℕ → Writer
run tpc w [] = w
run tpc w (b ∷ bs) = let rest = run tpc (one_bit tpc w b) bs in if w.todo == 0 then w else rest

pub run_idle : (tpc : ℕ) (w : Writer) (bs : List ℕ) → (w.todo == 0) ≡ true → run tpc w bs ≡ w
run_idle tpc w [] h = refl
run_idle tpc w (b ∷ bs) h = rw h refl

run-append :
    (tpc : ℕ) (w : Writer) (xs ys : List ℕ) → run tpc w (xs ++ ys) ≡ run tpc (run tpc w xs) ys
run-append tpc w [] ys = refl
run-append tpc w (x ∷ xs) ys = elim (Bool-cases (w.todo == 0)) [
  | inl idle ↦ rw idle (sym (run_idle tpc w ys idle))
  | inr more ↦ rw more (run-append tpc (one_bit tpc w x) xs ys)
]

one_cell-one_bit :
    (tpc : ℕ) (w : Writer) (x : ℕ) → one_cell tpc w x ≡ one_bit tpc w (cell_bit (leb (2 ^ 31) x))
unfolding one_cell
one_cell-one_bit tpc w x = elim (Bool-cases (leb (2 ^ 31) x)) [
  | inl one ↦ rw one refl
  | inr none_ ↦ rw none_ refl
]

word_cells-run :
    (n tpc x : ℕ) (w : Writer)
    → (w.todo == 0) ≡ false
    → word_cells tpc w x n ≡ run tpc w (cell_bits n x)
unfolding word_cells
word_cells-run zero tpc x w h = refl
word_cells-run (suc n) tpc x w h = rw h (
    next_word (one_cell tpc w x) (word_cells-run n tpc (u32 (x * 2)) (one_cell tpc w x))
    ∙ ap (λ v. run tpc v (cell_bits n (u32 (x * 2)))) (one_cell-one_bit tpc w x))
  where
    next_word :
        (next : Writer)
        → ((next.todo == 0) ≡ false
            → word_cells tpc next (u32 (x * 2)) n ≡ run tpc next (cell_bits n (u32 (x * 2))))
        → (if next.todo == 0 then next else word_cells tpc next (u32 (x * 2)) n)
          ≡ run tpc next (cell_bits n (u32 (x * 2)))
    next_word next ih = elim (Bool-cases (next.todo == 0)) [
      | inl idle ↦ rw idle (sym (run_idle tpc next (cell_bits n (u32 (x * 2))) idle))
      | inr more ↦ rw more (ih more)
    ]

pub run_step :
    (tpc : ℕ) (w : Writer) (b : ℕ) (bs : List ℕ)
    → (w.todo == 0) ≡ false
    → run tpc w (b ∷ bs) ≡ run tpc (one_bit tpc w b) bs
run_step tpc w b bs h = rw h refl

one_cell_consumed : (tpc : ℕ) (w : Writer) (x : ℕ) → (one_cell tpc w x).bc_cons ≡ w.bc_cons + 1
unfolding one_cell
one_cell_consumed tpc w x = elim (Bool-cases (leb (2 ^ 31) x)) [
  | inl one ↦ rw one refl
  | inr none_ ↦ rw none_ refl
]

-- Of a run that is not stopped, every cell is consumed.
run_consumed :
    (tpc : ℕ) (w : Writer) (bs : List ℕ)
    → ((run tpc w bs).todo == 0) ≡ false
    → (run tpc w bs).bc_cons ≡ w.bc_cons + length bs
run_consumed tpc w [] h = omega arith
run_consumed tpc w (b ∷ bs) h =
    elim (Bool-cases (w.todo == 0))
      as (λ _. (run tpc w (b ∷ bs)).bc_cons ≡ w.bc_cons + length (b ∷ bs)) [
        | inl idle ↦
            absurd
              (ground (arith, h, idle, ap (λ (v : Writer). v.todo) (run_idle tpc w (b ∷ bs) idle)))
        | inr more ↦
            let step = run_step tpc w b bs more in
            ap (λ (v : Writer). v.bc_cons) step
            ∙ run_consumed tpc (one_bit tpc w b) bs
                (ap (λ (v : Writer). v.todo == 0) (sym step) ∙ h)
            ∙ omega (arith, one_cell_consumed tpc w (b * 2 ^ 31))
      ]

cast_twice : (a y : ℕ) → u32 (u32 a * y) ≡ u32 (a * y)
cast_twice a y =
    sym (add-mul-mod_self_right (u32 a * y) (a / 2 ^ 32 * y) (2 ^ 32))
    ∙ ap u32 (whole (u32 a) (a / 2 ^ 32) (omega arith))
  where
    whole : (r q : ℕ) → a ≡ q * 2 ^ 32 + r → r * y + q * y * 2 ^ 32 ≡ a * y
    whole r q e = regroup r q (2 ^ 32) ∙ ap (λ t. t * y) (sym e)
      where
        regroup : (r q w : ℕ) → r * y + q * y * w ≡ (q * w + r) * y
        regroup r q w = grind arith

-- The cells of a word that has been shifted.
cell_bits-drop :
    (y n t x : ℕ) → x < 2 ^ 32 → t ≡ y + n → cell_bits n (u32 (x * 2 ^ y)) ≡ drop y (cell_bits t x)
cell_bits-drop zero n t x h e = ap₂ (λ k u. cell_bits k u) (omega (arith, e)) (omega arith)
cell_bits-drop (suc y) n zero x h e = absurd (omega (arith, e))
cell_bits-drop (suc y) n (suc t) x h e =
    ap (cell_bits n) (shift y) ∙ cell_bits-drop y n t (u32 (x * 2)) (omega arith) (omega (arith, e))
  where
    shift : (y : ℕ) → u32 (x * 2 ^ suc y) ≡ u32 (u32 (x * 2) * 2 ^ y)
    shift y = ap u32 (double (2 ^ y) (2 ^ suc y) (pow-suc 2 y)) ∙ sym (cast_twice (x * 2) (2 ^ y))
      where
        double : (t u : ℕ) → u ≡ t * 2 → x * u ≡ x * 2 * t
        double t u e = ap (λ v. x * v) e ∙ assoc t
          where
            assoc : (t : ℕ) → x * (t * 2) ≡ x * 2 * t
            assoc t = grind arith

drop-append_short {ℓ} :
    {A : Type ℓ} (n : ℕ) (xs ys : List A) → n ≤ length xs → drop n (xs ++ ys) ≡ drop n xs ++ ys
drop-append_short zero xs ys h = refl
drop-append_short (suc n) [] ys h = absurd (omega arith)
drop-append_short (suc n) (x ∷ xs) ys h = drop-append_short n xs ys (omega arith)

pub length-cell_bits : (n x : ℕ) → length (cell_bits n x) ≡ n
length-cell_bits zero x = refl
length-cell_bits (suc n) x = ap suc (length-cell_bits n (u32 (x * 2)))

pub length-drop {ℓ} : {A : Type ℓ} (n : ℕ) (xs : List A) → length (drop n xs) ≡ length xs - n
length-drop zero xs = omega arith
length-drop (suc n) [] = omega arith
length-drop (suc n) (x ∷ xs) = length-drop n xs ∙ omega arith

-- The words that are left, from within the word `j` on.
pub buffer_cells-run :
    (left tpc j y : ℕ) (bc_b : ℕ → ℕ) (w : Writer)
    → ((i : ℕ) → bc_b i < 2 ^ 32)
    → w.bc_cons ≡ 32 * j + y
    → y < 32
    → (w.todo == 0) ≡ false
    → buffer_cells tpc bc_b w left ≡ run tpc w (drop y (buffer_bits bc_b j left))
unfolding buffer_cells
buffer_cells-run zero tpc j y bc_b w words at small todo = ap (run tpc w) (nothing y)
  where
    nothing : (y : ℕ) → ◌≡◌ {A = List ℕ} [] (drop y [])
    nothing zero = refl
    nothing (suc y) = refl
buffer_cells-run (suc left) tpc j y bc_b w words at small todo =
    ap (λ v. if v.todo == 0 then v else buffer_cells tpc bc_b v left) first
    ∙ behind (run tpc w (drop y (word_bits (bc_b j)))) refl (λ next at' more.
      buffer_cells-run left tpc (j + 1) 0 bc_b next words at' (omega arith) more)
    ∙ sym (
        ap (run tpc w) (
          drop-append_short y (word_bits (bc_b j)) (buffer_bits bc_b (j + 1) left)
            (omega (arith, length-word_bits)))
        ∙ run-append tpc w (drop y (word_bits (bc_b j))) (buffer_bits bc_b (j + 1) left))
  where
    length-word_bits : length (word_bits (bc_b j)) ≡ 32
    length-word_bits = unfold word_bits in length-cell_bits 32 (bc_b j)

    whole : 32 ≡ y + (32 - y)
    whole = omega arith

    first :
        word_cells tpc w (u32 (bc_b (w.bc_cons / 32) * 2 ^ (w.bc_cons % 32))) (32 - w.bc_cons % 32)
        ≡ run tpc w (drop y (word_bits (bc_b j)))
    first =
        unfold word_bits in
        ap₂ (λ i k. word_cells tpc w (u32 (bc_b i * 2 ^ k)) (32 - k)) (omega (arith, at))
          (omega (arith, at))
        ∙ word_cells-run (32 - y) tpc (u32 (bc_b j * 2 ^ y)) w todo
        ∙ ap (run tpc w) (cell_bits-drop y (32 - y) 32 (bc_b j) (words j) whole)

    behind :
        (next : Writer)
        → run tpc w (drop y (word_bits (bc_b j))) ≡ next
        → ((v : Writer)
            → v.bc_cons ≡ 32 * (j + 1) + 0
            → (v.todo == 0) ≡ false
            → buffer_cells tpc bc_b v left ≡ run tpc v (buffer_bits bc_b (j + 1) left))
        → (if next.todo == 0 then next else buffer_cells tpc bc_b next left)
          ≡ run tpc next (buffer_bits bc_b (j + 1) left)
    behind next e ih = elim (Bool-cases (next.todo == 0)) [
      | inl idle ↦ rw idle (sym (run_idle tpc next (buffer_bits bc_b (j + 1) left) idle))
      | inr more ↦ rw more (ih next (consumed more) more)
    ]
      where
        consumed : (next.todo == 0) ≡ false → next.bc_cons ≡ 32 * (j + 1) + 0
        consumed more = omega (
          arith,
          ap (λ (v : Writer). v.bc_cons) e,
          run_consumed tpc w (drop y (word_bits (bc_b j)))
              (ap (λ (v : Writer). v.todo == 0) e ∙ more),
          length-drop y (word_bits (bc_b j)),
          length-word_bits,
          at,
          small,
        )

drop_behind {ℓ} :
    {A : Type ℓ} (n k : ℕ) (xs ys : List A) → n ≡ length xs + k → drop n (xs ++ ys) ≡ drop k ys
drop_behind n k [] ys e = let same : n ≡ k = omega (arith, e) in ap (λ t. drop t ys) same
drop_behind zero k (x ∷ xs) ys e = absurd (omega (arith, e))
drop_behind (suc n) k (x ∷ xs) ys e = drop_behind n k xs ys (omega (arith, e))

-- The bits of the words from the `j`th on.
drop-buffer_bits :
    (j k y i q n t : ℕ) (bc_b : ℕ → ℕ)
    → k ≡ 32 * j + y
    → q ≡ i + j
    → t ≡ j + n
    → drop k (buffer_bits bc_b i t) ≡ drop y (buffer_bits bc_b q n)
drop-buffer_bits zero k y i q n t bc_b e f g =
    let offset : k ≡ y = omega (arith, e) in
    let from : i ≡ q = omega (arith, f) in
    let left : t ≡ n = omega (arith, g) in
    ap₂ (λ l u. drop l (buffer_bits bc_b u t)) offset from
    ∙ ap (λ u. drop y (buffer_bits bc_b q u)) left
drop-buffer_bits (suc j) k y i q n zero bc_b e f g = absurd (omega (arith, g))
drop-buffer_bits (suc j) k y i q n (suc t) bc_b e f g =
    drop_behind k (32 * j + y) (word_bits (bc_b i)) (buffer_bits bc_b (i + 1) t)
      (omega (arith, bits, e))
    ∙ drop-buffer_bits j (32 * j + y) y (i + 1) q n t bc_b refl (omega (arith, f))
        (omega (arith, g))
  where
    bits : length (word_bits (bc_b i)) ≡ 32
    bits = unfold word_bits in length-cell_bits 32 (bc_b i)

-- `_wdata_bc_to_flux` in the middle of a buffer.
pub wdata_bc_to_flux-run :
    (cell nr_words ticks bc_cons nr : ℕ) (bc_b : ℕ → ℕ)
    → ((i : ℕ) → bc_b i < 2 ^ 32)
    → cell < 2 ^ 28
    → nr_words < 2 ^ 28
    → nr_words % 2 ≡ 0
    → bc_cons ≤ nr_words * 16
    → wdata_bc_to_flux cell bc_b nr_words ticks bc_cons nr
      ≡ run
          (cell * 16)
          (record { tbuf = []; ticks = ticks; todo = nr; bc_cons = bc_cons })
          (drop bc_cons (buffer_bits bc_b 0 (nr_words / 2)))
unfolding wdata_bc_to_flux
wdata_bc_to_flux-run cell nr_words ticks bc_cons nr bc_b words cell_small small even within =
    elim (Bool-cases (nr == 0))
      as (λ _.
        (if nr == 0
          then from
          else buffer_cells (u32 (cell * 16)) bc_b from (u32 (nr_words * 16) / 32 - bc_cons / 32))
        ≡ run (cell * 16) from (drop bc_cons bits)) [
          | inl none_ ↦ rw none_ (sym (run_idle (cell * 16) from (drop bc_cons bits) none_))
          | inr some_ ↦ rw some_ (
              ap₂ (λ t n. buffer_cells t bc_b from n) (omega arith) (omega arith)
              ∙ buffer_cells-run (nr_words / 2 - bc_cons / 32) (cell * 16) (bc_cons / 32)
                  (bc_cons % 32) bc_b from words (omega arith) (omega arith) some_
              ∙ ap (run (cell * 16) from) (
                  sym (
                    drop-buffer_bits (bc_cons / 32) bc_cons (bc_cons % 32) 0 (bc_cons / 32)
                      (nr_words / 2 - bc_cons / 32) (nr_words / 2) bc_b (omega arith) (omega arith)
                      (omega arith))))
        ]
  where
    from : Writer
    from = record { tbuf = []; ticks = ticks; todo = nr; bc_cons = bc_cons }

    bits : List ℕ
    bits = buffer_bits bc_b 0 (nr_words / 2)
