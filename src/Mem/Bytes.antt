-- ===== src/Mem/Bytes.antt =====
-- Ranges of memory as lists, and how a write changes them.
use flashfloppy_testbed.Prelude.{ℕ, zero, suc, ◌+◌, ◌≤◌, ◌<◌, ◌≡◌, ◌⊎◌, inl, refl, ap, ap₂, arith}
use flashfloppy_testbed.Prelude.{List, [], ◌∷◌, ◌++◌, length, All, ◌∙◌}
use flashfloppy_testbed.Mem.{Mem, IsMem, bytes, words, store, store8}

pub length-bytes : (m : Mem) (p n : ℕ) → length (bytes m p n) ≡ n
length-bytes m p zero = refl
length-bytes m p (suc n) = ap suc (length-bytes m (p + 1) n)

pub bytes-IsByte : (m : Mem) (p n : ℕ) → IsMem m → All (λ x. x < 256) (bytes m p n)
bytes-IsByte m p zero h = tt
bytes-IsByte m p (suc n) h = (h p, bytes-IsByte m (p + 1) n h)

-- Two memories that agree on a range have the same bytes there.
pub bytes_ext :
    (m m' : Mem) (p n : ℕ) → ((a : ℕ) → p ≤ a → a < p + n → m a ≡ m' a) → bytes m p n ≡ bytes m' p n
bytes_ext m m' p zero h = refl
bytes_ext m m' p (suc n) h =
    ap₂ ◌∷◌ (h p (omega arith) (omega arith))
      (bytes_ext m m' (p + 1) n (λ a l u. h a (omega arith) (omega arith)))

pub words_ext :
    (m m' : Mem) (p n : ℕ)
    → ((a : ℕ) → p ≤ a → a < p + (n + n) → m a ≡ m' a)
    → words m p n ≡ words m' p n
words_ext m m' p zero h = refl
words_ext m m' p (suc n) h =
    ap₂ ◌∷◌ (ground (arith, h p (omega arith) (omega arith), h (p + 1) (omega arith) (omega arith)))
      (words_ext m m' (p + 2) n (λ a l u. h a (omega arith) (omega arith)))

suc-add : (n k : ℕ) → suc (n + k) ≡ suc n + k
suc-add n k = omega arith

pub bytes-append :
    (m : Mem) (p n k q : ℕ) → p + n ≡ q → bytes m p n ++ bytes m q k ≡ bytes m p (n + k)
bytes-append m p zero k q e = ground (arith, e)
bytes-append m p (suc n) k q e =
    ap (λ t. m p ∷ t) (bytes-append m (p + 1) n k q (omega arith)) ∙ ap (bytes m p) (suc-add n k)

-- A write leaves what is outside its range alone.
pub store_outside :
    (m : Mem) (p : ℕ) (xs : List ℕ) (a : ℕ) → (a < p) ⊎ (p + length xs ≤ a) → store m p xs a ≡ m a
unfolding store
store_outside m p [] a h = refl
store_outside m p (x ∷ xs) a h = ground (arith, store_outside (store8 m p x) (p + 1) xs a)

pub store-IsMem : (m : Mem) (p : ℕ) (xs : List ℕ) → IsMem m → IsMem (store m p xs)
unfolding store
store-IsMem m p [] h = h
store-IsMem m p (x ∷ xs) h = store-IsMem (store8 m p x) (p + 1) xs (λ a. ground (arith, h a))

-- The bytes just written are read back.
pub bytes-store :
    (m : Mem) (p : ℕ) (xs : List ℕ)
    → All (λ x. x < 256) xs
    → bytes (store m p xs) p (length xs) ≡ xs
unfolding store
bytes-store m p [] h = refl
bytes-store m p (x ∷ xs) h =
    ap₂ ◌∷◌ (ground (arith, h.0, store_outside (store8 m p x) (p + 1) xs p (inl (omega arith))))
      (bytes-store (store8 m p x) (p + 1) xs h.1)
