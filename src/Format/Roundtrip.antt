-- ===== src/Format/Roundtrip.antt =====
-- A number that `vsnprintf` prints, read back by `strtol`.
use flashfloppy_testbed.Prelude.{
  ℕ, zero, suc, ◌-◌, ◌/◌, ◌%◌, ◌^◌, ◌<◌, ◌≤◌, ◌≡◌, ◌∙◌, refl, sym, ap, arith,
}
use flashfloppy_testbed.Prelude.{
  List, [], ◌∷◌, ◌++◌, length, replicate, leb, ◌==◌, not, ◌&&◌, if◌then◌else◌, Bool, true, false,
  Bool-cases, inl, inr,
}
use flashfloppy_testbed.Prelude.{reversed}
use flashfloppy_testbed.Prelude.Int.{ℤ}
use native.Mathlib.Nat.{mod-lt}
use flashfloppy_testbed.Mem.{u32}
use flashfloppy_testbed.Util.Strings.{tolower, isspace}
use flashfloppy_testbed.Util.Strtol.{
  digit_value, is_digit, strtol_digits, strtol_prefix, strtol_sign, skip_space, negate, strtol,
}
use flashfloppy_testbed.Format.{
  Flags, digit_char, digits_of, narrow, tmp_digits, decrement, number_text, shortfall,
}
use flashfloppy_testbed.Format.Digits.{strtol_digits-digits_of}

-- Hexadecimal digits all of them.
IsNumeral : List ℕ → Type 0
IsNumeral [] = Unit
IsNumeral (c ∷ cs) = (is_digit 16 (digit_value (tolower c)) ≡ true) × IsNumeral cs

digit_char-is_digit :
    (upper : Bool) (d : ℕ)
    → d < 16
    → is_digit 16 (digit_value (tolower (digit_char upper d))) ≡ true
unfolding digit_value tolower
digit_char-is_digit true d h = ground arith
digit_char-is_digit false d h = ground arith

reversed-IsNumeral : (cs acc : List ℕ) → IsNumeral cs → IsNumeral acc → IsNumeral (reversed cs acc)
unfolding IsNumeral
reversed-IsNumeral [] acc h k = k
reversed-IsNumeral (c ∷ cs) acc h k = reversed-IsNumeral cs (c ∷ acc) h.1 (h.0, k)

digits_of-IsNumeral :
    (n base : ℕ) (upper : Bool) (x : ℕ)
    → 0 < base
    → base ≤ 16
    → IsNumeral (digits_of n base upper x)
unfolding digits_of IsNumeral
digits_of-IsNumeral zero base upper x h k = tt
digits_of-IsNumeral (suc n) base upper x h k = elim (Bool-cases (x == 0)) [
  | inl none_left ↦ rw none_left tt
  | inr more ↦ rw more (
    digit_char-is_digit upper (x % base) (omega (arith, mod-lt x h)),
    digits_of-IsNumeral n base upper (x / base) h k,
  )
]

zeros-IsNumeral : (n : ℕ) (cs : List ℕ) → IsNumeral cs → IsNumeral (replicate n 48 ++ cs)
unfolding IsNumeral digit_value tolower
zeros-IsNumeral zero cs h = h
zeros-IsNumeral (suc n) cs h = (refl, zeros-IsNumeral n cs h)

-- A leading zero changes nothing.
zero_digit :
    (base c : ℕ) (cs : List ℕ)
    → 0 < base
    → (tolower c == 48) ≡ true
    → strtol_digits base 0 (c ∷ cs) ≡ strtol_digits base 0 cs
unfolding strtol_digits digit_value
zero_digit base c cs h k =
    let is_zero : tolower c ≡ 48 = ground (arith, k) in
    let fits : leb base 0 ≡ false = ground arith in
    rw (is_zero, fits) (ap (λ v. strtol_digits base v cs) (omega arith))

strtol_digits-zeros :
    (base n : ℕ) (cs : List ℕ)
    → 0 < base
    → strtol_digits base 0 (replicate n 48 ++ cs) ≡ strtol_digits base 0 cs
unfolding tolower
strtol_digits-zeros base zero cs h = refl
strtol_digits-zeros base (suc n) cs h =
    zero_digit base 48 (replicate n 48 ++ cs) h refl ∙ strtol_digits-zeros base n cs h

skip_space-spaces : (n : ℕ) (cs : List ℕ) → skip_space (replicate n 32 ++ cs) ≡ skip_space cs
unfolding skip_space isspace
skip_space-spaces zero cs = refl
skip_space-spaces (suc n) cs = skip_space-spaces n cs

-- Digits are neither space nor sign, and hold no 'x'.
module _ (base : ℕ) (two : 2 ≤ base) where
  digit_tests :
      (c : ℕ)
      → is_digit 16 (digit_value (tolower c)) ≡ true
      → (isspace c ≡ false)
        × ((tolower c == 45) ≡ false)
        × ((tolower c == 43) ≡ false)
        × ((tolower c == 120) ≡ false)
  unfolding digit_value tolower isspace
  digit_tests c h = (ground (arith, h), ground (arith, h), ground (arith, h), ground (arith, h))

  some_base : (base == 0) ≡ false
  some_base = ground arith

  strtol_prefix-IsNumeral :
      (cs : List ℕ) → IsNumeral cs → strtol_prefix base cs ≡ strtol_digits base 0 cs
  unfolding strtol_prefix IsNumeral
  strtol_prefix-IsNumeral [] h = rw some_base refl
  strtol_prefix-IsNumeral (c ∷ []) h = elim (Bool-cases (tolower c == 48)) [
    | inl z ↦ rw (some_base, z) (sym (zero_digit base c [] (omega arith) z))
    | inr z ↦ rw (some_base, z) refl
  ]
  strtol_prefix-IsNumeral (c ∷ d ∷ cs) h = elim (Bool-cases (tolower c == 48)) [
    | inl z ↦
        rw (some_base, z, (digit_tests d h.1.0).3)
          (sym (zero_digit base c (d ∷ cs) (omega arith) z))
    | inr z ↦ rw (some_base, z) refl
  ]

  strtol-IsNumeral : (cs : List ℕ) → IsNumeral cs → strtol cs base ≡ strtol_digits base 0 cs
  unfolding strtol skip_space strtol_sign IsNumeral
  strtol-IsNumeral [] h = strtol_prefix-IsNumeral [] h
  strtol-IsNumeral (c ∷ cs) h =
      let tests = digit_tests c h.0 in
      rw (tests.0, tests.1, tests.2) (strtol_prefix-IsNumeral (c ∷ cs) h)

  strtol-minus :
      (cs : List ℕ) → IsNumeral cs → strtol (45 ∷ cs) base ≡ negate (strtol_digits base 0 cs)
  unfolding strtol skip_space strtol_sign isspace tolower
  strtol-minus cs h = ap negate (strtol_prefix-IsNumeral cs h)

  -- What is behind the sign and the spaces.
  digits_back :
      (upper : Bool) (x : ℕ)
      → base ≤ 16
      → x < 2 ^ 32
      → strtol_digits base 0 (reversed (tmp_digits base upper x) []) ≡ (x, [])
  unfolding tmp_digits tolower strtol_digits
  digits_back upper x h k = elim (Bool-cases (x == 0)) [
    | inl none_left ↦
        rw none_left
          (zero_digit base 48 [] (omega arith) refl ∙ ap (λ v. (v, [])) (ground (arith, none_left)))
    | inr more ↦ rw more (strtol_digits-digits_of 32 base x upper [] two (omega arith) k k)
  ]

  numeral : (upper : Bool) (x : ℕ) → base ≤ 16 → IsNumeral (reversed (tmp_digits base upper x) [])
  unfolding tmp_digits IsNumeral digit_value tolower
  numeral upper x h = elim (Bool-cases (x == 0)) [
    | inl none_left ↦ rw none_left (refl, tt)
    | inr more ↦ rw more (
        reversed-IsNumeral (digits_of 32 base upper x) []
          (digits_of-IsNumeral 32 base upper x (omega arith) h) tt)
  ]

abbrev pad_char : Bool → ℕ
pad_char zeropad = if zeropad then 48 else 32

-- The digits behind their pads, and with a sign.
module _ (base : ℕ) (two : 2 ≤ base) (sixteen : base ≤ 16) (upper : Bool) (x : ℕ)
    (small : x < 2 ^ 32) where
  back_text : List ℕ
  back_text = reversed (tmp_digits base upper x) []

  zeros_back : (n : ℕ) → strtol_digits base 0 (replicate n 48 ++ back_text) ≡ (x, [])
  unfolding back_text
  zeros_back n =
      strtol_digits-zeros base n back_text (omega arith)
      ∙ digits_back base two upper x sixteen small

  pads_back :
      (n : ℕ) (zeropad : Bool) → strtol (replicate n (pad_char zeropad) ++ back_text) base ≡ (x, [])
  unfolding strtol back_text
  pads_back n true =
      strtol-IsNumeral base two (replicate n 48 ++ back_text)
        (zeros-IsNumeral n back_text (numeral base two upper x sixteen))
      ∙ zeros_back n
  pads_back n false =
      ap (strtol_sign base) (skip_space-spaces n back_text)
      ∙ strtol-IsNumeral base two back_text (numeral base two upper x sixteen)
      ∙ digits_back base two upper x sixteen small

  minus_back :
      (n : ℕ) (zeropad : Bool)
      → strtol
          ((if zeropad then 45 ∷ [] else [])
            ++ (replicate n (pad_char zeropad)
                ++ ((if not zeropad then 45 ∷ [] else []) ++ back_text)))
          base
        ≡ negate (x, [])
  unfolding strtol back_text
  minus_back n true =
      strtol-minus base two (replicate n 48 ++ back_text)
        (zeros-IsNumeral n back_text (numeral base two upper x sixteen))
      ∙ ap negate (zeros_back n)
  minus_back n false =
      ap (strtol_sign base) (skip_space-spaces n (45 ∷ back_text))
      ∙ strtol-minus base two back_text (numeral base two upper x sixteen)
      ∙ ap negate (digits_back base two upper x sixteen small)

-- The text of a number, of any width, with or without leading zeros and with or without a sign, is
-- read back by `strtol` in the same base, from 2 to 16, as that number, and nothing is left over. The
-- number is a 32-bit pattern that is printed without a prefix and without a conversion to a shorter
-- type.
pub strtol-number_text :
    (f : Flags) (width : ℤ) (base value : ℕ)
    → f.alternate ≡ false
    → f.char ≡ false
    → f.short ≡ false
    → 2 ≤ base
    → base ≤ 16
    → value < 2 ^ 32
    → strtol (number_text f width base value) base ≡ (value, [])
unfolding number_text narrow back_text
strtol-number_text f width base value no_prefix no_char no_short two h k =
    rw (no_prefix, no_char, no_short)
      (elim (Bool-cases (f.sign && leb (2 ^ 31) value)) [
        | inl negative ↦ rw negative (
            minus_back base two h f.upper (u32 (2 ^ 32 - value)) (omega arith)
              (shortfall (decrement width)
                (length (tmp_digits base f.upper (u32 (2 ^ 32 - value)))))
              f.zeropad
            ∙ ap (λ v. (v, [])) (ground (arith, negative)))
        | inr positive ↦ rw positive (
            pads_back base two h f.upper value k
              (shortfall width (length (tmp_digits base f.upper value))) f.zeropad)
      ])
