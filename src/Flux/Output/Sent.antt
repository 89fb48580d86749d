-- ===== src/Flux/Output/Sent.antt =====
-- The timings of a run over bitcells that may stop before the end.
use flashfloppy_testbed.Prelude.{
  ℕ, zero, suc, ◌+◌, ◌-◌, ◌*◌, ◌^◌, ◌<◌, ◌≤◌, ◌≡◌, ◌∙◌, refl, sym, ap, arith, List, [], ◌∷◌, ◌++◌,
  length, take, All, ◌==◌, Bool-cases, inl, inr,
}
use mathlib.Core.Path.{subst}
use flashfloppy_testbed.Flux.{Writer}
use flashfloppy_testbed.Flux.Write.{emit, IsShort, one_set, one_clear, writer}
use flashfloppy_testbed.Flux.Output.Run.{run, one_bit, run_idle, run_step}

pub emit_behind :
    (bs : List ℕ) (cell : ℕ) (xs acc : List ℕ) (k : ℕ)
    → emit cell (xs ++ acc) k bs ≡ ((emit cell xs k bs).0 ++ acc, (emit cell xs k bs).1)
emit_behind [] cell xs acc k = refl
emit_behind (b ∷ bs) cell xs acc k = elim (Bool-cases (b == 1)) [
  | inl one ↦ rw one (emit_behind bs cell ((suc k * cell - 1) ∷ xs) acc 0)
  | inr none_ ↦ rw none_ (emit_behind bs cell xs acc (suc k))
]

-- `r` has consumed so many of the cells behind `k` zeros, all of them or until `todo` was zero.
pub record IsSent (cell : ℕ) (w r : Writer) (k : ℕ) (bs : List ℕ) : Type 0 where
  pub count : ℕ
  pub within : count ≤ length bs
  pub consumed : r.bc_cons ≡ w.bc_cons + count
  pub timings : r.tbuf ≡ (emit cell w.tbuf k (take count bs)).0
  pub rest : r.ticks ≡ 16 * ((emit cell w.tbuf k (take count bs)).1 * cell)
  pub moves : 0 < w.todo → 0 < length bs → 0 < count

-- One cell more in front.
IsSent-round :
    (cell : ℕ) (w next r : Writer) (k k' b : ℕ) (bs : List ℕ)
    → ((ys : List ℕ) → emit cell w.tbuf k (b ∷ ys) ≡ emit cell next.tbuf k' ys)
    → next.bc_cons ≡ w.bc_cons + 1
    → IsSent cell next r k' bs
    → IsSent cell w r k (b ∷ bs)
IsSent-round cell w next r k k' b bs step counted later = record {
  count = suc later.count;
  within = omega (arith, later.within);
  consumed = omega (arith, later.consumed, counted);
  timings = later.timings ∙ ap (λ (p : List ℕ × ℕ). p.0) (sym (step (take later.count bs)));
  rest = later.rest ∙ ap (λ (p : List ℕ × ℕ). 16 * (p.1 * cell)) (sym (step (take later.count bs)));
  moves = λ t l. omega arith;
}

pub run-IsSent :
    (bs : List ℕ) (cell k : ℕ) (w : Writer)
    → 0 < cell
    → w.ticks ≡ 16 * (k * cell)
    → IsShort cell k bs
    → All (λ b. b < 2) bs
    → IsSent cell w (run (cell * 16) w bs) k bs
run-IsSent [] cell k w pos ticks short bits = record {
  count = 0;
  within = omega arith;
  consumed = omega arith;
  timings = refl;
  rest = ticks;
  moves = λ t l. l;
}
run-IsSent (b ∷ bs) cell k w pos ticks short bits =
    elim (Bool-cases (w.todo == 0))
      as (λ _. IsSent cell w (run (cell * 16) w (b ∷ bs)) k (b ∷ bs)) [
        | inl idle ↦
            subst (λ r. IsSent cell w r k (b ∷ bs)) (sym (run_idle (cell * 16) w (b ∷ bs) idle))
              (record {
                count = 0;
                within = omega arith;
                consumed = omega arith;
                timings = refl;
                rest = ticks;
                moves = λ t l. absurd (ground (arith, idle));
              })
        | inr more ↦
            subst (λ r. IsSent cell w r k (b ∷ bs)) (sym (run_step (cell * 16) w b bs more))
              (by_bit b bits.0 short (λ k' v t sh. run-IsSent bs cell k' v pos t sh bits.1))
      ]
  where
    by_bit :
        (b : ℕ)
        → b < 2
        → IsShort cell k (b ∷ bs)
        → ((k' : ℕ) (v : Writer)
            → v.ticks ≡ 16 * (k' * cell)
            → IsShort cell k' bs
            → IsSent cell v (run (cell * 16) v bs) k' bs)
        → IsSent cell w (run (cell * 16) (one_bit (cell * 16) w b) bs) k (b ∷ bs)
    by_bit zero l s ih =
        let next = writer w.tbuf (16 * (suc k * cell)) w.todo (w.bc_cons + 1) in
        subst (λ v. IsSent cell w (run (cell * 16) v bs) k (0 ∷ bs))
          (sym (one_clear cell w k (0 * 2 ^ 31) ticks s.0 refl))
          (IsSent-round cell w next (run (cell * 16) next bs) k (suc k) 0 bs (λ ys. refl) refl
            (ih (suc k) next refl s.1))
    by_bit (suc zero) l s ih =
        let next =
          writer ((suc k * cell - 1) ∷ w.tbuf) (16 * (0 * cell)) (w.todo - 1) (w.bc_cons + 1) in
        subst (λ v. IsSent cell w (run (cell * 16) v bs) k (1 ∷ bs))
          (sym (one_set cell w k (1 * 2 ^ 31) ticks s.0 refl pos))
          (IsSent-round cell w next (run (cell * 16) next bs) k 0 1 bs (λ ys. refl) refl
            (ih 0 next refl s.1))
    by_bit (suc (suc b)) l s ih = absurd (omega (arith, l))
