-- ===== src/Util/Rand.antt =====
-- src/util.c: `rand`, a shift register with feedback.
use flashfloppy_testbed.Prelude.{
  ℕ, ◌+◌, ◌*◌, ◌/◌, ◌%◌, ◌^◌, ◌<◌, ◌≡◌, ◌⊎◌, inl, inr, ◌∙◌, ap, arith,
}
use flashfloppy_testbed.Prelude.{bit_and, bit_xor, ◌==◌, if◌then◌else◌}
use flashfloppy_testbed.Bits.And.{bit_and_mask}
use flashfloppy_testbed.Bits.Xor.{
  bit_xor_injective, bit_xor_comm, zero-bit_xor, bit_xor-lt, bit_xor_fields,
}

-- The new `seed`, which `rand` returns.
unfoldable pub rand : ℕ → ℕ
rand seed = if bit_and seed 1 == 0 then seed / 2 else bit_xor (seed / 2) 0x80000062

feedback : (a : ℕ) → a < 2 ^ 31 → bit_xor a 0x80000062 ≡ 2 ^ 31 + bit_xor a 0x62
feedback a h = omega (
  arith,
  bit_xor_fields 31 0 a 1 0x62 h (omega arith),
  ap (λ t. bit_xor t 0x80000062) (plain a),
  zero-bit_xor 1,
)
  where
    plain : (a : ℕ) → 0 * 2 ^ 31 + a ≡ a
    plain a = omega arith

-- The two ways that a seed can go.
rand_even : (seed : ℕ) → seed % 2 ≡ 0 → rand seed ≡ seed / 2
unfolding rand
rand_even seed e = ground (arith, bit_and_mask 1 seed)

rand_odd : (seed : ℕ) → seed < 2 ^ 32 → seed % 2 ≡ 1 → rand seed ≡ 2 ^ 31 + bit_xor (seed / 2) 0x62
unfolding rand
rand_odd seed h e = ground (arith, bit_and_mask 1 seed, feedback (seed / 2) (omega arith))

half_of : (a b : ℕ) → bit_xor a 0x62 ≡ bit_xor b 0x62 → a ≡ b
half_of a b e = bit_xor_injective 0x62 a b (bit_xor_comm 0x62 a ∙ e ∙ bit_xor_comm b 0x62)

rand_lem :
    (a b : ℕ)
    → a < 2 ^ 32
    → b < 2 ^ 32
    → (rand a ≡ rand b → a ≡ b) × (rand a < 2 ^ 32) × (rand a ≡ 0 → a ≡ 0)
rand_lem a b h k = elim (parity a) [
  | inl even ↦ elim (parity b) [
    | inl even' ↦
        let ra = rand_even a even in
        let rb = rand_even b even' in (λ e. omega arith, omega arith, λ e. omega arith)
    | inr odd' ↦
        let ra = rand_even a even in
        let rb = rand_odd b k odd' in (λ e. absurd (omega arith), omega arith, λ e. omega arith)
  ]
  | inr odd ↦ elim (parity b) [
    | inl even' ↦
        let ra = rand_odd a h odd in
        let rb = rand_even b even' in
        let low = bit_xor-lt 31 (a / 2) 0x62 (omega arith) (omega arith) in
        (λ e. absurd (omega arith), omega arith, λ e. absurd (omega arith))
    | inr odd' ↦
        let ra = rand_odd a h odd in
        let rb = rand_odd b k odd' in
        let low = bit_xor-lt 31 (a / 2) 0x62 (omega arith) (omega arith) in
        (
          λ e. (let same = half_of (a / 2) (b / 2) (omega arith) in omega arith),
          omega arith,
          λ e. absurd (omega arith),
        )
  ]
]
  where
    parity : (n : ℕ) → (n % 2 ≡ 0) ⊎ (n % 2 ≡ 1)
    parity n = omega arith

-- `rand` never loses information: two seeds of 32 bits with the same successor are the same seed, so
-- every seed lies on a cycle.
pub rand_injective : (a b : ℕ) → a < 2 ^ 32 → b < 2 ^ 32 → rand a ≡ rand b → a ≡ b
rand_injective a b h k = (rand_lem a b h k).0
