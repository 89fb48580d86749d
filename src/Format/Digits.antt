-- ===== src/Format/Digits.antt =====
-- The digits that `vsnprintf` prints, read back by the loop of `strtol`.
use flashfloppy_testbed.Prelude.{
  ℕ, zero, suc, ◌+◌, ◌*◌, ◌/◌, ◌%◌, ◌^◌, ◌<◌, ◌≤◌, ◌≡◌, ◌∙◌, refl, ap, arith,
}
use flashfloppy_testbed.Prelude.{
  List, ◌∷◌, leb, ◌==◌, Bool, true, false, Bool-cases, inl, inr, some,
}
use native.Mathlib.Nat.{mod-lt, div-add-mod', div-lt_iff_lt-mul, div-le_self, pow-suc}
use flashfloppy_testbed.Mem.{u32}
use flashfloppy_testbed.Util.Strings.{tolower}
use flashfloppy_testbed.Util.Strtol.{digit_value, strtol_digits}
use flashfloppy_testbed.Format.{digit_char, digits_of}
use flashfloppy_testbed.Prelude.{reversed}

digit_value-digit_char :
    (upper : Bool) (d : ℕ) → d < 36 → digit_value (tolower (digit_char upper d)) ≡ some d
unfolding digit_value tolower
digit_value-digit_char true d h = ground arith
digit_value-digit_char false d h = ground arith

-- One digit.
read_digit :
    (base v d : ℕ) (upper : Bool) (acc : List ℕ)
    → d < base
    → base < 37
    → strtol_digits base v (digit_char upper d ∷ acc) ≡ strtol_digits base (u32 (v * base + d)) acc
unfolding strtol_digits
read_digit base v d upper acc h k =
    let value = digit_value-digit_char upper d (omega arith) in
    let fits : leb base d ≡ false = ground arith in rw (value, fits) refl

halved : (base n x : ℕ) → 2 ≤ base → x < 2 ^ suc n → x / base < 2 ^ n
halved base n x h k =
    (div-lt_iff_lt-mul {k = base} {x = x} {y = 2 ^ n} (omega arith)).1
      (omega (arith, pow-suc 2 n, double (2 ^ n) base h))
  where
    double : (t b : ℕ) → 2 ≤ b → 2 * t ≤ t * b
    double t b l = grind arith

pub strtol_digits-digits_of :
    (n base x : ℕ) (upper : Bool) (acc : List ℕ)
    → 2 ≤ base
    → base < 37
    → x < 2 ^ n
    → x < 2 ^ 32
    → strtol_digits base 0 (reversed (digits_of n base upper x) acc) ≡ strtol_digits base x acc
unfolding digits_of
strtol_digits-digits_of zero base x upper acc h k l small =
    ap (λ v. strtol_digits base v acc) (omega arith)
strtol_digits-digits_of (suc n) base x upper acc h k l small = elim (Bool-cases (x == 0)) [
  | inl none_left ↦ rw none_left (ap (λ v. strtol_digits base v acc) (ground (arith, none_left)))
  | inr more ↦ rw more (
      strtol_digits-digits_of n base (x / base) upper (digit_char upper (x % base) ∷ acc) h k
        (halved base n x h l) (omega (arith, div-le_self x base))
      ∙ read_digit base (x / base) (x % base) upper acc (mod-lt x (omega arith)) k
      ∙ ap (λ v. strtol_digits base v acc) (whole base x small))
]
  where
    whole : (b x : ℕ) → x < 2 ^ 32 → u32 (x / b * b + x % b) ≡ x
    whole b x l = omega (arith, div-add-mod' x b)
