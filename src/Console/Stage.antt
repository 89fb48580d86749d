-- ===== src/Console/Stage.antt =====
-- What `vprintk` puts into the ring.
use mathlib.Core.List.{append-nil, append_assoc}
use flashfloppy_testbed.Prelude.{
  ℕ, zero, suc, ◌+◌, ◌-◌, ◌%◌, ◌^◌, ◌<◌, ◌≤◌, ◌≡◌, ◌≢◌, ◌∙◌, refl, sym, ap, ap₂, arith,
}
use flashfloppy_testbed.Prelude.{
  List, [], ◌∷◌, ◌++◌, length, All, true, false, Bool-cases, inl, inr, ◌==◌, ==_iff, if◌then◌else◌,
}
use flashfloppy_testbed.Bits.And.{bit_and_mask}
use flashfloppy_testbed.Console.{Console, mask, used, put, put_char, stage}

-- The characters waiting from `c` on.
abbrev pub waiting : (ℕ → ℕ) → ℕ → ℕ → List ℕ
waiting ring c zero = []
waiting ring c (suc n) = ring (c % 2048) ∷ waiting ring (c + 1) n

abbrev pub pending : Console → List ℕ
pending s = waiting s.ring s.cons (used s)

-- The text with the usual line ends.
abbrev pub with_line_ends : List ℕ → List ℕ
with_line_ends [] = []
with_line_ends (c ∷ cs) =
    let rest = with_line_ends cs in
    if c == 0x0d then rest else if c == 0x0a then 0x0d ∷ 0x0a ∷ rest else c ∷ rest

-- The counters are of 32 bits.
abbrev pub IsConsole : Console → Type 0
IsConsole s = (s.cons < 2 ^ 32) × (s.prod < 2 ^ 32)

pub mask_lem : (x : ℕ) → mask x ≡ x % 2048
unfolding mask
mask_lem x = bit_and_mask 11 x

waiting-snoc :
    (n : ℕ) (ring : ℕ → ℕ) (c p x : ℕ)
    → n < 2048
    → p % 2048 ≡ (c + n) % 2048
    → waiting (λ i. if i == p % 2048 then x else ring i) c (suc n) ≡ waiting ring c n ++ (x ∷ [])
waiting-snoc zero ring c p x h e = ground (arith, e)
waiting-snoc (suc n) ring c p x h e =
    ap₂ ◌∷◌ (ground (arith, e)) (waiting-snoc n ring (c + 1) p x (omega arith) (omega (arith, e)))

module _ (s : Console) (c : ℕ) (good : IsConsole s) where
  put-used : used s < 2 ^ 32 - 1 → used (put s c) ≡ suc (used s)
  unfolding put
  put-used h = omega arith

  put-pending : used s < 2048 → pending (put s c) ≡ pending s ++ (c ∷ [])
  unfolding put
  put-pending h =
      ap (waiting (put s c).ring s.cons) (put-used (omega arith))
      ∙ ap (λ k. waiting (λ i. if i == k then c else s.ring i) s.cons (suc (used s)))
          (mask_lem s.prod)
      ∙ waiting-snoc (used s) s.ring s.cons s.prod c h (omega (arith, good.0, good.1))

  put-IsConsole : IsConsole (put s c)
  unfolding put
  put-IsConsole = (good.0, omega arith)

empty_of_length : (xs : List ℕ) → length xs ≤ 0 → xs ≡ []
empty_of_length [] h = refl
empty_of_length (x ∷ xs) h = absurd (omega arith)

-- What `vprintk` appends of a text that fits.
abbrev Fits : Console → List ℕ → Type 0
Fits s cs = used s + length (with_line_ends cs) ≤ 2047

-- The ring when the text has been staged.
abbrev Staged : Console → List ℕ → Type 0
Staged s cs = pending (stage s cs) ≡ pending s ++ with_line_ends cs

module _ (s : Console) (c : ℕ) (cs : List ℕ) (good : IsConsole s)
    (later : (r : Console)
      → IsConsole r
      → Fits r cs
      → pending (stage r cs) ≡ pending r ++ with_line_ends cs) where
  staged_return :
      (c == 0x0d) ≡ true
      → Fits s (c ∷ cs)
      → pending (stage (put_char s c) cs) ≡ pending s ++ with_line_ends (c ∷ cs)
  unfolding put_char
  staged_return e = rw e (λ (h : Fits s cs). later s good h)

  staged_newline :
      (c == 0x0d) ≡ false
      → (c == 0x0a) ≡ true
      → Fits s (c ∷ cs)
      → pending (stage (put_char s c) cs) ≡ pending s ++ with_line_ends (c ∷ cs)
  unfolding put_char
  staged_newline e f =
      rw (e, f)
        (λ (h : used s + length (0x0d ∷ 0x0a ∷ with_line_ends cs) ≤ 2047).
          let first = put-used s 0x0d good (omega arith) in
          let second = put-used (put s 0x0d) c (put-IsConsole s 0x0d good) (omega (arith, first)) in
          later (put (put s 0x0d) c) (put-IsConsole (put s 0x0d) c (put-IsConsole s 0x0d good))
            (omega (arith, first, second))
          ∙ ap (λ l. l ++ with_line_ends cs)
              (put-pending (put s 0x0d) c (put-IsConsole s 0x0d good) (omega (arith, first))
                ∙ ap₂ (λ (l : List ℕ) (d : ℕ). l ++ (d ∷ []))
                    (put-pending s 0x0d good (omega arith)) ((==_iff c 0x0a).0 f))
          ∙ append_assoc (pending s ++ (0x0d ∷ [])) (0x0a ∷ []) (with_line_ends cs)
          ∙ append_assoc (pending s) (0x0d ∷ []) (0x0a ∷ with_line_ends cs))

  staged_other :
      (c == 0x0d) ≡ false
      → (c == 0x0a) ≡ false
      → Fits s (c ∷ cs)
      → pending (stage (put_char s c) cs) ≡ pending s ++ with_line_ends (c ∷ cs)
  unfolding put_char
  staged_other e f =
      rw (e, f)
        (λ (h : used s + length (c ∷ with_line_ends cs) ≤ 2047).
          let first = put-used s c good (omega arith) in
          later (put s c) (put-IsConsole s c good) (omega (arith, first))
          ∙ ap (λ l. l ++ with_line_ends cs) (put-pending s c good (omega arith))
          ∙ append_assoc (pending s) (c ∷ []) (with_line_ends cs))

-- A text that fits, with its line ends, is appended whole to what waits in the ring.
pub stage-pending :
    (cs : List ℕ) (s : Console)
    → IsConsole s
    → used s + length (with_line_ends cs) ≤ 2047
    → pending (stage s cs) ≡ pending s ++ with_line_ends cs
unfolding stage
stage-pending [] s good h = sym (append-nil (pending s))
stage-pending (c ∷ cs) s good h = elim (Bool-cases (used s == 2048 - 1)) [
  | inl full ↦ rw full (
      sym (append-nil (pending s))
      ∙ ap (λ l. pending s ++ l)
          (sym (
            empty_of_length (with_line_ends (c ∷ cs))
              (omega (arith, h, (==_iff (used s) 2047).0 full)))))
  | inr room ↦ rw room (elim (Bool-cases (c == 0x0d)) [
    | inl cr ↦ staged_return s c cs good (stage-pending cs) cr h
    | inr other ↦ elim (Bool-cases (c == 0x0a)) [
      | inl lf ↦ staged_newline s c cs good (stage-pending cs) other lf h
      | inr plain ↦ staged_other s c cs good (stage-pending cs) other plain h
    ]
  ])
]

-- No CR and no LF.
abbrev pub IsPlain : List ℕ → Type 0
IsPlain cs = All (λ c. (c ≢ 0x0d) × (c ≢ 0x0a)) cs

plain_put : (s : Console) (c : ℕ) → (c ≢ 0x0d) × (c ≢ 0x0a) → put_char s c ≡ put s c
unfolding put_char
plain_put s c h = ground (arith, h.0, h.1)

-- Beyond the size of the ring the loop's test holds no character back.
unbounded :
    (cs : List ℕ) (s : Console)
    → IsConsole s
    → IsPlain cs
    → 2048 ≤ used s
    → used s + length cs < 2 ^ 32
    → used (stage s cs) ≡ used s + length cs
unfolding stage
unbounded [] s good plain h fits = omega arith
unbounded (c ∷ cs) s good plain h fits =
    let not_full : (used s == 2048 - 1) ≡ false = ground arith in
    let next = put-used s c good (omega arith) in
    rw (not_full, plain_put s c plain.0)
      (unbounded cs (put s c) (put-IsConsole s c good) plain.1 (omega (arith, next))
          (omega (arith, next))
        ∙ omega (arith, next))

-- With 2046 characters waiting, a LF takes two places and the test for a full ring is stepped over:
-- every further character of a plain text is staged, over what waits.
pub stage_overrun :
    (s : Console) (cs : List ℕ)
    → IsConsole s
    → IsPlain cs
    → used s ≡ 2046
    → 2048 + length cs < 2 ^ 32
    → used (stage s (0x0a ∷ cs)) ≡ 2048 + length cs
unfolding stage put_char
stage_overrun s cs good plain h fits =
    let not_full : (used s == 2048 - 1) ≡ false = ground arith in
    let first = put-used s 0x0d good (omega arith) in
    let second = put-used (put s 0x0d) 0x0a (put-IsConsole s 0x0d good) (omega (arith, first)) in
    rw not_full (
      unbounded cs (put (put s 0x0d) 0x0a)
        (put-IsConsole (put s 0x0d) 0x0a (put-IsConsole s 0x0d good)) plain
        (omega (arith, first, second)) (omega (arith, first, second))
      ∙ omega (arith, first, second))
