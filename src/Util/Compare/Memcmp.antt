-- ===== src/Util/Compare/Memcmp.antt =====
-- `memcmp` decides equality of two ranges and orders them by their first difference.
use flashfloppy_testbed.Prelude.{ℕ, zero, suc, ◌+◌, ◌<◌, ◌≡◌, ◌≢◌, refl, ap, arith, ◌==◌}
use flashfloppy_testbed.Prelude.{List, [], ◌∷◌, Bool, true, false, if◌then◌else◌}
use flashfloppy_testbed.Prelude.Int.{sub_ℕ, is_zero}
use flashfloppy_testbed.Mem.{Mem, bytes}
use flashfloppy_testbed.Util.Strings.Scan.{IsString}
use flashfloppy_testbed.Util.Compare.{strncmp, memcmp}

-- Lists of the same shape, compared element by element.
abbrev pub same_bytes : List ℕ → List ℕ → Bool
same_bytes [] [] = true
same_bytes [] (y ∷ ys) = false
same_bytes (x ∷ xs) [] = false
same_bytes (x ∷ xs) (y ∷ ys) = if x == y then same_bytes xs ys else false

pub same_bytes_refl : (xs : List ℕ) → same_bytes xs xs ≡ true
same_bytes_refl [] = refl
same_bytes_refl (x ∷ xs) = ground (arith, same_bytes_refl xs)

pub eq_of_same_bytes : (xs ys : List ℕ) → same_bytes xs ys ≡ true → xs ≡ ys
eq_of_same_bytes [] [] h = refl
eq_of_same_bytes [] (y ∷ ys) h = cc
eq_of_same_bytes (x ∷ xs) [] h = cc
eq_of_same_bytes (x ∷ xs) (y ∷ ys) h = ground (arith, eq_of_same_bytes xs ys)

-- `memcmp` is zero exactly when the ranges hold the same bytes.
pub memcmp-same_bytes :
    (n : ℕ) (m1 : Mem) (s1 : ℕ) (m2 : Mem) (s2 : ℕ)
    → is_zero (memcmp m1 s1 m2 s2 n) ≡ same_bytes (bytes m1 s1 n) (bytes m2 s2 n)
unfolding memcmp
memcmp-same_bytes zero m1 s1 m2 s2 = refl
memcmp-same_bytes (suc n) m1 s1 m2 s2 = ground (arith, memcmp-same_bytes n m1 (s1 + 1) m2 (s2 + 1))

-- At the first difference `memcmp` returns the difference of the two bytes.
pub memcmp_first :
    (k n : ℕ) (m1 : Mem) (s1 : ℕ) (m2 : Mem) (s2 : ℕ)
    → k < n
    → ((i : ℕ) → i < k → m1 (s1 + i) ≡ m2 (s2 + i))
    → m1 (s1 + k) ≢ m2 (s2 + k)
    → memcmp m1 s1 m2 s2 n ≡ sub_ℕ (m1 (s1 + k)) (m2 (s2 + k))
unfolding memcmp
memcmp_first k zero m1 s1 m2 s2 l same ne = absurd (omega arith)
memcmp_first zero (suc n) m1 s1 m2 s2 l same ne =
    ground (arith, ap m1 (plus_zero s1), ap m2 (plus_zero s2))
  where
    plus_zero : (u : ℕ) → u ≡ u + 0
    plus_zero u = omega arith
memcmp_first (suc k) (suc n) m1 s1 m2 s2 l same ne = ground (
  arith,
  same 0 (omega arith),
  ap m1 (plus_zero s1),
  ap m2 (plus_zero s2),
  ap m1 (shift s1 k),
  ap m2 (shift s2 k),
  memcmp_first k n m1 (s1 + 1) m2 (s2 + 1) (omega arith)
      (λ i o. ground (arith, same (suc i) (omega arith), ap m1 (shift s1 i), ap m2 (shift s2 i)))
      (λ e. ne (ground (arith, e, ap m1 (shift s1 k), ap m2 (shift s2 k)))),
)
  where
    plus_zero : (u : ℕ) → u ≡ u + 0
    plus_zero u = omega arith

    shift : (u i : ℕ) → u + 1 + i ≡ u + suc i
    shift u i = omega arith

-- Up to the terminating zero of the first string, `strncmp` is zero exactly when the bytes are the
-- same, that zero included.
pub strncmp-same_bytes :
    (k n : ℕ) (m1 : Mem) (s1 : ℕ) (m2 : Mem) (s2 : ℕ)
    → IsString m1 s1 k
    → k < n
    → is_zero (strncmp m1 s1 m2 s2 n) ≡ same_bytes (bytes m1 s1 (suc k)) (bytes m2 s2 (suc k))
unfolding strncmp
strncmp-same_bytes k zero m1 s1 m2 s2 h l = absurd (omega arith)
strncmp-same_bytes zero (suc n) m1 s1 m2 s2 h l = ground (arith, h)
strncmp-same_bytes (suc k) (suc n) m1 s1 m2 s2 h l =
    ground (arith, h.0, strncmp-same_bytes k n m1 (s1 + 1) m2 (s2 + 1) h.1 (omega arith))
