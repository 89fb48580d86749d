-- ===== src/Flux/Tests.antt =====
-- Concrete runs, and the theorems at concrete inputs: cells of 144 ticks.
use flashfloppy_testbed.Prelude.{ℕ, ◌-◌, ◌^◌, ◌≡◌, refl, arith}
use flashfloppy_testbed.Prelude.{List, [], ◌∷◌, false}
use flashfloppy_testbed.Flux.{Reader, wdata_bc_to_flux}
use flashfloppy_testbed.Flux.Write.{emit, IsShort}
use flashfloppy_testbed.Flux.Buffer.{buffer_bits, word_bits, wdata_bc_to_flux-emit}

abbrev empty : Reader
empty = record { bc_dat = 2 ^ 32 - 1; bc_prod = 0; bc_buf = λ i. 0; full = false }

-- two sync words
abbrev pub syncs : ℕ → ℕ
syncs i = 0x44894489

pub syncs-IsShort : IsShort 144 0 (buffer_bits syncs 0 1)
unfolding word_bits
syncs-IsShort = (
  omega arith,
  (
    omega arith,
    (
      omega arith,
      (
        omega arith,
        (
          omega arith,
          (
            omega arith,
            (
              omega arith,
              (
                omega arith,
                (
                  omega arith,
                  (
                    omega arith,
                    (
                      omega arith,
                      (
                        omega arith,
                        (
                          omega arith,
                          (
                            omega arith,
                            (
                              omega arith,
                              (
                                omega arith,
                                (
                                  omega arith,
                                  (
                                    omega arith,
                                    (
                                      omega arith,
                                      (
                                        omega arith,
                                        (
                                          omega arith,
                                          (
                                            omega arith,
                                            (
                                              omega arith,
                                              (
                                                omega arith,
                                                (
                                                  omega arith,
                                                  (
                                                    omega arith,
                                                    (
                                                      omega arith,
                                                      (
                                                        omega arith,
                                                        (
                                                          omega arith,
                                                          (
                                                            omega arith,
                                                            (omega arith, (omega arith, tt)),
                                                          ),
                                                        ),
                                                      ),
                                                    ),
                                                  ),
                                                ),
                                              ),
                                            ),
                                          ),
                                        ),
                                      ),
                                    ),
                                  ),
                                ),
                              ),
                            ),
                          ),
                        ),
                      ),
                    ),
                  ),
                ),
              ),
            ),
          ),
        ),
      ),
    ),
  ),
)

wdata_bc_to_flux-emit_example :
    let r = wdata_bc_to_flux 144 syncs 2 0 0 100 in
    (r.tbuf ≡ (emit 144 [] 0 (buffer_bits syncs 0 1)).0) × (r.bc_cons ≡ 32)
wdata_bc_to_flux-emit_example =
    wdata_bc_to_flux-emit 144 2 100 syncs (omega arith) (omega arith) (λ i. omega arith)
      (omega arith) refl (omega arith) syncs-IsShort

abbrev few_bits : List ℕ
few_bits = 0 ∷ 1 ∷ 0 ∷ 0 ∷ 1 ∷ 0 ∷ []
