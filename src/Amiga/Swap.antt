-- ===== src/Amiga/Swap.antt =====
-- Masks act on the bytes of a long word one by one, so that it does not matter on which side of a
-- byte swap they are applied.
use flashfloppy_testbed.Prelude.{ℕ, ◌+◌, ◌*◌, ◌/◌, ◌%◌, ◌^◌, ◌<◌, ◌≡◌, ◌∙◌, sym, ap, arith}
use flashfloppy_testbed.Mem.{Mem, IsMem}
use flashfloppy_testbed.Mfm.{rev32}
use flashfloppy_testbed.Util.Memory.{load32}
use flashfloppy_testbed.Amiga.{be32, join, get_long}
use flashfloppy_testbed.Amiga.Cells.{data_of, data_of_bound}
use flashfloppy_testbed.Amiga.Long.{data_of_bytes, join-data_of, data_of-halves}

-- A long word of four bytes, the lowest first.
abbrev pub of_bytes : ℕ → ℕ → ℕ → ℕ → ℕ
of_bytes a b c d = a + b * 256 + c * 2 ^ 16 + d * 2 ^ 24

pub rev32-of_bytes :
    (a b c d : ℕ)
    → a < 256
    → b < 256
    → c < 256
    → d < 256
    → rev32 (of_bytes a b c d) ≡ of_bytes d c b a
unfolding rev32
rev32-of_bytes a b c d h k l i = omega arith

pub data_of-of_bytes :
    (a b c d : ℕ)
    → a < 256
    → b < 256
    → c < 256
    → d < 256
    → data_of 16 (of_bytes a b c d)
      ≡ of_bytes (data_of 4 a) (data_of 4 b) (data_of 4 c) (data_of 4 d)
data_of-of_bytes a b c d h k l i = omega (
  arith,
  data_of_bytes (of_bytes a b c d),
  ap (data_of 4) byte0,
  ap (data_of 4) byte1,
  ap (data_of 4) byte2,
  ap (data_of 4) byte3,
)
  where
    byte0 : of_bytes a b c d % 256 ≡ a
    byte0 = omega arith

    byte1 : of_bytes a b c d / 256 % 256 ≡ b
    byte1 = omega arith

    byte2 : of_bytes a b c d / 256 / 256 % 256 ≡ c
    byte2 = omega arith

    byte3 : of_bytes a b c d / 256 / 256 / 256 % 256 ≡ d
    byte3 = omega arith

abbrev join_bytes : ℕ → ℕ → ℕ
join_bytes a b = 2 * data_of 4 a + data_of 4 b

pub be32-of_bytes :
    (m : Mem) (p : ℕ) → IsMem m → be32 m p ≡ of_bytes (m (p + 3)) (m (p + 2)) (m (p + 1)) (m p)
unfolding be32 load32
be32-of_bytes m p h =
    rev32-of_bytes (m p) (m (p + 1)) (m (p + 2)) (m (p + 3)) (h p) (h (p + 1)) (h (p + 2))
      (h (p + 3))

-- Swapped twice.
pub rev32-be32 : (m : Mem) (p : ℕ) → IsMem m → rev32 (be32 m p) ≡ load32 m p
unfolding load32
rev32-be32 m p h =
    ap rev32 (be32-of_bytes m p h)
    ∙ rev32-of_bytes (m (p + 3)) (m (p + 2)) (m (p + 1)) (m p) (h (p + 3)) (h (p + 2)) (h (p + 1))
        (h p)

pub be32-lt : (m : Mem) (p : ℕ) → IsMem m → be32 m p < 2 ^ 32
be32-lt m p h = omega (arith, be32-of_bytes m p h, h p, h (p + 1), h (p + 2), h (p + 3))

data_of-load32 :
    (m : Mem) (p : ℕ)
    → IsMem m
    → data_of 16 (load32 m p)
      ≡ of_bytes
          (data_of 4 (m p))
          (data_of 4 (m (p + 1)))
          (data_of 4 (m (p + 2)))
          (data_of 4 (m (p + 3)))
unfolding load32
data_of-load32 m p h =
    data_of-of_bytes (m p) (m (p + 1)) (m (p + 2)) (m (p + 3)) (h p) (h (p + 1)) (h (p + 2))
      (h (p + 3))

data_of-be32 :
    (m : Mem) (p : ℕ)
    → IsMem m
    → data_of 16 (be32 m p)
      ≡ of_bytes
          (data_of 4 (m (p + 3)))
          (data_of 4 (m (p + 2)))
          (data_of 4 (m (p + 1)))
          (data_of 4 (m p))
data_of-be32 m p h =
    ap (data_of 16) (be32-of_bytes m p h)
    ∙ data_of-of_bytes (m (p + 3)) (m (p + 2)) (m (p + 1)) (m p) (h (p + 3)) (h (p + 2)) (h (p + 1))
        (h p)

-- Two long words joined.
module _ (m : Mem) (p q : ℕ) (h : IsMem m) where
  joined :
      join (load32 m p) (load32 m q)
      ≡ of_bytes
          (join_bytes (m p) (m q))
          (join_bytes (m (p + 1)) (m (q + 1)))
          (join_bytes (m (p + 2)) (m (q + 2)))
          (join_bytes (m (p + 3)) (m (q + 3)))
  joined =
      omega
        (arith, join-data_of (load32 m p) (load32 m q), data_of-load32 m p h, data_of-load32 m q h)

  pub rev32-join :
      rev32 (join (load32 m p) (load32 m q)) ≡ 2 * data_of 16 (be32 m p) + data_of 16 (be32 m q)
  rev32-join =
      ap rev32 joined
      ∙ rev32-of_bytes (join_bytes (m p) (m q)) (join_bytes (m (p + 1)) (m (q + 1)))
          (join_bytes (m (p + 2)) (m (q + 2))) (join_bytes (m (p + 3)) (m (q + 3)))
          (small (m p) (m q)) (small (m (p + 1)) (m (q + 1))) (small (m (p + 2)) (m (q + 2)))
          (small (m (p + 3)) (m (q + 3)))
      ∙ omega (arith, data_of-be32 m p h, data_of-be32 m q h)
    where
      small : (a b : ℕ) → join_bytes a b < 256
      small a b = omega (arith, data_of_bound 4 a, data_of_bound 4 b)

  -- The other way.
  pub join-load32 :
      (v : ℕ)
      → 2 * data_of 16 (be32 m p) + data_of 16 (be32 m q) ≡ v
      → join (load32 m p) (load32 m q) ≡ rev32 v
  join-load32 v e =
      joined
      ∙ sym (
          rev32-of_bytes (join_bytes (m (p + 3)) (m (q + 3))) (join_bytes (m (p + 2)) (m (q + 2)))
            (join_bytes (m (p + 1)) (m (q + 1))) (join_bytes (m p) (m q))
            (small (m (p + 3)) (m (q + 3))) (small (m (p + 2)) (m (q + 2)))
            (small (m (p + 1)) (m (q + 1))) (small (m p) (m q)))
      ∙ ap rev32 (omega (arith, data_of-be32 m p h, data_of-be32 m q h, e))
    where
      small : (a b : ℕ) → join_bytes a b < 256
      small a b = omega (arith, data_of_bound 4 a, data_of_bound 4 b)

-- `get_long`, in the data bits of the two long words.
pub get_long-data_of :
    (m : Mem) (p : ℕ)
    → IsMem m
    → get_long m p ≡ 2 * data_of 16 (be32 m p) + data_of 16 (be32 m (p + 4))
unfolding get_long
get_long-data_of m p h = rev32-join m p (p + 4) h

-- The long word whose even and odd bits stand at `p` with their clock bits.
pub get_long-joined :
    (m : Mem) (p x : ℕ)
    → IsMem m
    → x < 2 ^ 32
    → data_of 16 (be32 m p) ≡ data_of 16 (x / 2)
    → data_of 16 (be32 m (p + 4)) ≡ data_of 16 x
    → get_long m p ≡ x
get_long-joined m p x h small e f =
    omega (arith, get_long-data_of m p h, e, f, data_of-halves 16 x small)
