-- ===== src/Amiga/Checksum.antt =====
-- The checksums of an AmigaDOS sector: masks and shifts go through `^`.
use flashfloppy_testbed.Prelude.{
  ℕ, zero, suc, ◌+◌, ◌*◌, ◌/◌, ◌%◌, ◌≡◌, ◌∙◌, refl, sym, ap, ap₂, arith, List, [], ◌∷◌, ◌++◌, map,
  replicate, bit_xor,
}
use flashfloppy_testbed.Bits.Xor.{
  bit_xor_digit, bit_xor_half, bit_xor_comm, bit_xor_assoc, zero-bit_xor, bit_xor-zero,
}
use flashfloppy_testbed.Bits.Fields.{bit_xor_double}
use flashfloppy_testbed.Mem.{Mem}
use flashfloppy_testbed.Amiga.{
  be32, even, checksum_loop, amigados_checksum, amigados_mfm_checksum, amigados_dat_checksum,
}
use flashfloppy_testbed.Amiga.Cells.{data_of, data_of-suc, data_of_bound}

-- The `n` big-endian long words from `p` on.
abbrev pub longs : Mem → ℕ → ℕ → List ℕ
longs m p zero = []
longs m p (suc n) = be32 m p ∷ longs m (p + 4) n

abbrev pub xor_all : ℕ → List ℕ → ℕ
xor_all c [] = c
xor_all c (x ∷ xs) = xor_all (bit_xor c x) xs

checksum_loop-xor_all : (m : Mem) (p c n : ℕ) → checksum_loop m p c n ≡ xor_all c (longs m p n)
unfolding checksum_loop
checksum_loop-xor_all m p c zero = refl
checksum_loop-xor_all m p c (suc n) = checksum_loop-xor_all m (p + 4) (bit_xor c (be32 m p)) n

data_of-bit_xor : (n a b : ℕ) → data_of n (bit_xor a b) ≡ bit_xor (data_of n a) (data_of n b)
data_of-bit_xor zero a b = none (bit_xor a b) ∙ sym (ap₂ bit_xor (none a) (none b) ∙ zero-bit_xor 0)
  where
    none : (t : ℕ) → data_of 0 t ≡ 0
    none t = omega (arith, data_of_bound 0 t)
data_of-bit_xor (suc n) a b =
    data_of-suc n (bit_xor a b)
    ∙ ap₂ (λ s t. 4 * data_of n s + t) quarter parity
    ∙ ap (λ s. 4 * s + (a + b) % 2) (data_of-bit_xor n (a / 4) (b / 4))
    ∙ sym (
        ap₂ bit_xor (data_of-suc n a) (data_of-suc n b)
        ∙ pairs (data_of n (a / 4)) (data_of n (b / 4)))
  where
    quarter : bit_xor a b / 4 ≡ bit_xor (a / 4) (b / 4)
    quarter =
        omega
          (arith, bit_xor_half a b, bit_xor_half (a / 2) (b / 2), ap₂ bit_xor (twice a) (twice b))
      where
        twice : (t : ℕ) → t / 2 / 2 ≡ t / 4
        twice t = omega arith

    parity : bit_xor a b % 2 ≡ (a + b) % 2
    parity = omega (arith, bit_xor_digit a b)

    pairs : (u v : ℕ) → bit_xor (4 * u + a % 2) (4 * v + b % 2) ≡ 4 * bit_xor u v + (a + b) % 2
    pairs u v =
        bit_xor_digit (4 * u + a % 2) (4 * v + b % 2)
        ∙ ap₂ (λ s t. bit_xor s t * 2 + (4 * u + a % 2 + (4 * v + b % 2)) % 2) (half u a) (half v b)
        ∙ omega (arith, bit_xor_double u v)
      where
        half : (t c : ℕ) → (4 * t + c % 2) / 2 ≡ t * 2
        half t c = omega arith

data_of-xor_all :
    (n c : ℕ) (xs : List ℕ) → data_of n (xor_all c xs) ≡ xor_all (data_of n c) (map (data_of n) xs)
data_of-xor_all n c [] = refl
data_of-xor_all n c (x ∷ xs) =
    data_of-xor_all n (bit_xor c x) xs
    ∙ ap (λ t. xor_all t (map (data_of n) xs)) (data_of-bit_xor n c x)

xor_all-append : (c : ℕ) (xs ys : List ℕ) → xor_all c (xs ++ ys) ≡ xor_all (xor_all c xs) ys
xor_all-append c [] ys = refl
xor_all-append c (x ∷ xs) ys = xor_all-append (bit_xor c x) xs ys

xor_all_start : (c : ℕ) (xs : List ℕ) → xor_all c xs ≡ bit_xor c (xor_all 0 xs)
xor_all_start c [] = sym (bit_xor-zero c)
xor_all_start c (x ∷ xs) =
    xor_all_start (bit_xor c x) xs
    ∙ bit_xor_assoc c x (xor_all 0 xs)
    ∙ ap (bit_xor c) (sym (xor_all_start x xs) ∙ ap (λ t. xor_all t xs) (sym (zero-bit_xor x)))

xor_all-even : (c : ℕ) (xs : List ℕ) → xor_all (c / 2) (map even xs) ≡ xor_all c xs / 2
unfolding even
xor_all-even c [] = refl
xor_all-even c (x ∷ xs) =
    ap (λ t. xor_all t (map even xs)) (sym (bit_xor_half c x)) ∙ xor_all-even (bit_xor c x) xs

xor_all-zeros : (n c : ℕ) → xor_all c (replicate n 0) ≡ c
xor_all-zeros zero c = refl
xor_all-zeros (suc n) c = ap (λ t. xor_all t (replicate n 0)) (bit_xor-zero c) ∙ xor_all-zeros n c

pub data_of-twice : (n x : ℕ) → data_of n (data_of n x) ≡ data_of n x
data_of-twice zero x = omega (arith, data_of_bound 0 (data_of 0 x), data_of_bound 0 x)
data_of-twice (suc n) x =
    data_of-suc n (data_of (suc n) x)
    ∙ ap (λ t. 4 * data_of n t + data_of (suc n) x % 2) quarter
    ∙ omega (arith, data_of-suc n x, data_of-twice n (x / 4))
  where
    quarter : data_of (suc n) x / 4 ≡ data_of n (x / 4)
    quarter = omega (arith, data_of-suc n x)

-- The checksum of a block whose data bits are those of a list.
pub amigados_mfm_checksum-xor_all :
    (m : Mem) (p n : ℕ) (ls : List ℕ)
    → map (data_of 16) (longs m p n) ≡ map (data_of 16) ls
    → amigados_mfm_checksum m p n ≡ data_of 16 (xor_all 0 ls)
unfolding amigados_mfm_checksum amigados_checksum data_of
amigados_mfm_checksum-xor_all m p n ls e =
    ap (data_of 16) (checksum_loop-xor_all m p 0 n)
    ∙ data_of-xor_all 16 0 (longs m p n)
    ∙ ap (xor_all (data_of 16 0)) e
    ∙ sym (data_of-xor_all 16 0 ls)

-- The sum of the info word, of which the even bits come first, and of a label of zeros.
pub xor_all-info :
    (info n : ℕ) → xor_all 0 (info / 2 ∷ info ∷ replicate n 0) ≡ bit_xor info (info / 2)
xor_all-info info n =
    xor_all-zeros n (bit_xor (bit_xor 0 (info / 2)) info)
    ∙ ap (λ t. bit_xor t info) (zero-bit_xor (info / 2))
    ∙ bit_xor_comm (info / 2) info

-- The sum of the even bits and of the odd bits is what `amigados_dat_checksum` computes from the data.
pub amigados_dat_checksum-xor_all :
    (src : Mem) (b : ℕ)
    → data_of 16 (xor_all 0 (map even (longs src b 128) ++ longs src b 128))
      ≡ amigados_dat_checksum src b 512
unfolding amigados_dat_checksum amigados_checksum data_of
amigados_dat_checksum-xor_all src b = ap (data_of 16) (
    xor_all-append 0 (map even (longs src b 128)) (longs src b 128)
    ∙ ap (λ t. xor_all t (longs src b 128)) (xor_all-even 0 (longs src b 128))
    ∙ xor_all_start (xor_all 0 (longs src b 128) / 2) (longs src b 128)
    ∙ bit_xor_comm (xor_all 0 (longs src b 128) / 2) (xor_all 0 (longs src b 128))
    ∙ ap (λ t. bit_xor t (t / 2)) (sym (checksum_loop-xor_all src b 0 128)))
