-- ===== src/Amiga/Long.antt =====
-- What `emit_long` puts out, and what `get_long` makes of it.
use Prim.Native.Nat.{max}
use flashfloppy_testbed.Prelude.{
  ℕ, zero, suc, ◌+◌, ◌-◌, ◌*◌, ◌/◌, ◌%◌, ◌^◌, ◌<◌, ◌≡◌, ◌∙◌, refl, sym, ap, ap₂, arith, ◌∷◌,
  bit_and, bit_or, inl, inr, ◌⊎◌,
}
use native.Mathlib.Nat.{pow-suc}
use flashfloppy_testbed.Bits.And.{bit_and_mask, bit_or_comm}
use flashfloppy_testbed.Mem.{u32}
use flashfloppy_testbed.Mfm.Spec.{clock_bit, encode_bits, data_bits}
use flashfloppy_testbed.Amiga.{join}
use flashfloppy_testbed.Amiga.Write.{Emitter, clocked, emit_raw, emit_long}
use flashfloppy_testbed.Amiga.Cells.{
  cells, data_of, data_of-suc, data_of_bound, bit_or-data_of, clock_of, word_of, word_of-lt,
  word_of-suc, data_of-word_of, data_of_top, before, encode_bits_low,
}

word_of-encode_bits : (n x : ℕ) → x < cells n → word_of n x ≡ encode_bits n 0 (data_bits n x)
word_of-encode_bits zero x h = omega (arith, word_of-lt 0 x)
word_of-encode_bits (suc n) x h =
    word_of-suc n x h
    ∙ ap (λ t. 4 * t + (x % 2 + 2 * (1 - max (x / 4 % 2) (x % 2))))
        (word_of-encode_bits n (x / 4) (omega arith))
    ∙ ap (λ t. 4 * encode_bits n 0 (data_bits n (x / 4)) + (x % 2 + 2 * t)) (clock n (omega arith))
    ∙ sym (
        encode_bits_low n 0 (data_bits (suc n) x)
        ∙ ap₂ (λ s t. 4 * encode_bits n 0 s + (t + 2 * clock_bit (before n 0 s) t)) high low)
  where
    high : data_bits (suc n) x / 2 ≡ data_bits n (x / 4)
    high = omega arith

    low : data_bits (suc n) x % 2 ≡ x % 2
    low = omega arith

    rule : (a b : ℕ) → a < 2 → b < 2 → 1 - max a b ≡ clock_bit a b
    rule zero b h k = ground arith
    rule (suc zero) b h k = ground arith
    rule (suc (suc a)) b h k = absurd (omega arith)

    clock :
        (n : ℕ)
        → x < 4 * cells n
        → 1 - max (x / 4 % 2) (x % 2) ≡ clock_bit (before n 0 (data_bits n (x / 4))) (x % 2)
    clock zero l =
        ap (λ t. 1 - max t (x % 2)) (omega arith) ∙ rule 0 (x % 2) (omega arith) (omega arith)
    clock (suc n) l =
        rule (x / 4 % 2) (x % 2) (omega arith) (omega arith)
        ∙ ap (λ t. clock_bit t (x % 2)) (omega arith)

clocked-word_of : (l : ℕ) → l < 2 ^ 32 → clocked l ≡ word_of 16 l
unfolding clocked word_of clock_of data_of
clocked-word_of l h =
    ap (bit_or (data_of 16 l)) (fits (2 ^ 32 - 1 - bit_or (l / 4) l))
    ∙ bit_or-data_of 16 l (2 ^ 32 - 1 - bit_or (l / 4) l)
  where
    fits : (t : ℕ) → u32 (data_of 16 t * 2) ≡ 2 * data_of 16 t
    fits t = omega (arith, data_of_bound 16 t)

-- The word behind `pr`, as it is stored.
abbrev pub cleared : ℕ → ℕ → ℕ
cleared pr w = bit_and w (2 ^ 32 - 1 - u32 (pr * 2 ^ 31))

cleared_cases :
    (pr w : ℕ)
    → w < 2 ^ 32
    → ((pr % 2 ≡ 0) × (cleared pr w ≡ w)) ⊎ ((pr % 2 ≡ 1) × (cleared pr w ≡ w % 2 ^ 31))
cleared_cases pr w h = by_parity (pr % 2) refl
  where
    by_parity :
        (b : ℕ)
        → pr % 2 ≡ b
        → ((pr % 2 ≡ 0) × (cleared pr w ≡ w)) ⊎ ((pr % 2 ≡ 1) × (cleared pr w ≡ w % 2 ^ 31))
    by_parity zero e =
        inl (e, ap (bit_and w) (omega (arith, e)) ∙ bit_and_mask 32 w ∙ omega (arith, h))
    by_parity (suc zero) e = inr (e, ap (bit_and w) (omega (arith, e)) ∙ bit_and_mask 31 w)
    by_parity (suc (suc b)) e = absurd (omega (arith, e))

two_bits : (c d t e : ℕ) → c < 2 → d < 2 → e < t → c * (2 * t) + d * t + e < 4 * t
two_bits zero zero t e h k l = omega (arith, l)
two_bits zero (suc zero) t e h k l = omega (arith, l)
two_bits (suc zero) zero t e h k l = omega (arith, l)
two_bits (suc zero) (suc zero) t e h k l = omega (arith, l)
two_bits (suc (suc c)) d t e h k l = absurd (omega arith)
two_bits c (suc (suc d)) t e h k l = absurd (omega arith)

clock_bit-lt : (a b : ℕ) → clock_bit a b < 2
clock_bit-lt zero b = omega arith
clock_bit-lt (suc a) b = omega (arith, ap (λ t. t * (1 - b)) none)
  where
    none : 1 - suc a ≡ 0
    none = omega arith

encode_bits-lt : (n prev x : ℕ) → encode_bits n prev x < 2 ^ (n + n)
encode_bits-lt zero prev x = omega arith
encode_bits-lt (suc n) prev x =
    let d = x / 2 ^ n % 2 in
    let bound =
      two_bits (clock_bit prev d) d (2 ^ (n + n)) (encode_bits n d x) (clock_bit-lt prev d)
        (omega arith) (encode_bits-lt n d x) in
    omega (
      arith,
      bound,
      ap (λ t. clock_bit prev d * 2 ^ t) (one_more n),
      ap (λ t. clock_bit prev d * t) (pow-suc 2 (n + n)),
      power (suc n + suc n) (n + n) (omega arith),
    )
  where
    one_more : (n : ℕ) → n + n + 1 ≡ suc (n + n)
    one_more n = omega arith

    power : (l k : ℕ) → l ≡ suc (suc k) → 2 ^ l ≡ 4 * 2 ^ k
    power l k e = ap (λ t. 2 ^ t) e ∙ omega (arith, pow-suc 2 k, pow-suc 2 (suc k))

-- The top clock bit is the only one that depends on the word before.
cleared-encode_bits : (pr d : ℕ) → cleared pr (encode_bits 16 0 d) ≡ encode_bits 16 (pr % 2) d
cleared-encode_bits pr d = elim (cleared_cases pr (encode_bits 16 0 d) (encode_bits-lt 16 0 d)) [
  | inl even_one ↦ even_one.1 ∙ ap (λ t. encode_bits 16 t d) (sym even_one.0)
  | inr odd_one ↦
      odd_one.1
      ∙ top (d / 2 ^ 15 % 2) (encode_bits 15 (d / 2 ^ 15 % 2) d) (omega arith)
          (encode_bits-lt 15 (d / 2 ^ 15 % 2) d)
      ∙ ap (λ t. encode_bits 16 t d) (sym odd_one.0)
]
  where
    top :
        (b e : ℕ)
        → b < 2
        → e < 2 ^ 30
        → (clock_bit 0 b * 2 ^ 31 + b * 2 ^ 30 + e) % 2 ^ 31
          ≡ clock_bit 1 b * 2 ^ 31 + b * 2 ^ 30 + e
    top zero e k h = omega arith
    top (suc zero) e k h = omega arith
    top (suc (suc b)) e k h = absurd (omega arith)

-- The data bits of what is stored are those of the word.
data_of-cleared : (pr w : ℕ) → w < 2 ^ 32 → data_of 16 (cleared pr w) ≡ data_of 16 w
data_of-cleared pr w h = elim (cleared_cases pr w h) [
  | inl even_one ↦ ap (data_of 16) even_one.1
  | inr odd_one ↦ ap (data_of 16) odd_one.1 ∙ high (w / 2 ^ 31) refl
]
  where
    high : (b : ℕ) → w / 2 ^ 31 ≡ b → data_of 16 (w % 2 ^ 31) ≡ data_of 16 w
    high zero e = ap (data_of 16) (omega (arith, e))
    high (suc zero) e =
        sym (ap (data_of 16) (omega (arith, e)) ∙ data_of_top 15 (w % 2 ^ 31) (omega arith))
    high (suc (suc b)) e = absurd (omega (arith, e, h))

-- Of a long word below 2 ^ 32, `emit_long` puts out the sixteen data bits by the rule of MFM, behind
-- the last data bit before them; it keeps the word for the next one, with the same lowest bit.
pub emit_long-encode_bits :
    (e : Emitter) (l : ℕ)
    → l < 2 ^ 32
    → ((emit_long e l).longs ≡ encode_bits 16 (e.pr % 2) (data_bits 16 l) ∷ e.longs)
      × ((emit_long e l).pr % 2 ≡ l % 2)
unfolding emit_long emit_raw
emit_long-encode_bits e l h = (
  ap (λ w. w ∷ e.longs)
      (ap (cleared e.pr) (clocked-word_of l h ∙ word_of-encode_bits 16 l h)
        ∙ cleared-encode_bits e.pr (data_bits 16 l)),
  omega (arith, clocked-word_of l h, word_of-suc 15 l h),
)

-- The data bits that are read from a long word of a track.
pub data_of-emit_long : (pr l : ℕ) → l < 2 ^ 32 → data_of 16 (cleared pr (clocked l)) ≡ data_of 16 l
data_of-emit_long pr l h =
    data_of-cleared pr (clocked l) (omega (arith, clocked-word_of l h, word_of-lt 16 l))
    ∙ ap (data_of 16) (clocked-word_of l h)
    ∙ data_of-word_of 16 l h

-- Even and odd bits, joined.
pub data_of-halves : (n x : ℕ) → x < cells n → 2 * data_of n (x / 2) + data_of n x ≡ x
data_of-halves zero x h = omega (arith, data_of_bound 0 (x / 2), data_of_bound 0 x)
data_of-halves (suc n) x h = omega (
  arith,
  data_of-suc n (x / 2),
  data_of-suc n x,
  data_of-halves n (x / 4) (omega arith),
  ap (data_of n) eighth,
)
  where
    eighth : x / 2 / 4 ≡ x / 4 / 2
    eighth = omega arith

pub join-data_of : (p q : ℕ) → join p q ≡ 2 * data_of 16 p + data_of 16 q
unfolding join data_of
join-data_of p q =
    ap (λ t. bit_or t (data_of 16 q)) (fits p)
    ∙ bit_or_comm (2 * data_of 16 p) (data_of 16 q)
    ∙ bit_or-data_of 16 q p
    ∙ omega arith
  where
    fits : (t : ℕ) → u32 (data_of 16 t * 2) ≡ 2 * data_of 16 t
    fits t = omega (arith, data_of_bound 16 t)

-- The data bits of a word, byte by byte.
data_of_byte :
    (n x : ℕ)
    → data_of (suc (suc (suc (suc n)))) x ≡ 256 * data_of n (x / 256) + data_of 4 (x % 256)
data_of_byte n x = omega (
  arith,
  data_of-suc (suc (suc (suc n))) x,
  data_of-suc (suc (suc n)) (x / 4),
  data_of-suc (suc n) (x / 4 / 4),
  data_of-suc n (x / 4 / 4 / 4),
  ap (data_of n) whole,
  data_of-suc 3 (x % 256),
  data_of-suc 2 (x % 256 / 4),
  data_of-suc 1 (x % 256 / 4 / 4),
  data_of-suc 0 (x % 256 / 4 / 4 / 4),
  data_of_bound 0 (x % 256 / 4 / 4 / 4 / 4),
)
  where
    whole : x / 4 / 4 / 4 / 4 ≡ x / 256
    whole = omega arith

pub data_of_bytes :
    (x : ℕ)
    → data_of 16 x
      ≡ data_of 4 (x % 256)
        + 256 * data_of 4 (x / 256 % 256)
        + 2 ^ 16 * data_of 4 (x / 256 / 256 % 256)
        + 2 ^ 24 * data_of 4 (x / 256 / 256 / 256 % 256)
data_of_bytes x = omega (
  arith,
  data_of_byte 12 x,
  data_of_byte 8 (x / 256),
  data_of_byte 4 (x / 256 / 256),
  data_of_byte 0 (x / 256 / 256 / 256),
  data_of_bound 0 (x / 256 / 256 / 256 / 256),
)
