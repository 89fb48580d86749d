-- ===== src/Led/Decimal.antt =====
-- src/led_7seg.c: `led_7seg_write_decimal`, over the formatted printing of src/string.c.
use flashfloppy_testbed.Prelude.{
  Bool-cases, inl, inr, true, false, ◌&&◌, ==_iff, all_below, all_below-lt, ap₂, ℕ, ◌+◌, ◌/◌, ◌%◌,
  ◌<◌, ◌≡◌, refl, ap, arith, List, [], ◌∷◌, take, Bool, ◌==◌, if◌then◌else◌, Option, none, some,
}
use flashfloppy_testbed.Format.{num, plain, formatted, digits_of}
use flashfloppy_testbed.Led.{Lines, led_7seg_write_string}

-- "%03u" or "%02u"
abbrev pub decimal_format : Bool → List ℕ
decimal_format three = 37 ∷ 48 ∷ (if three then 51 else 50) ∷ 117 ∷ []

abbrev pub written : Lines → Option (List ℕ) → Option Lines
written l none = none
written l (some msg) = some (led_7seg_write_string (take 3 msg) l)

-- `led_7seg_write_decimal`. Into the four bytes of `msg`, `snprintf` puts at most three characters.
unfoldable pub led_7seg_write_decimal : ℕ → ℕ → Lines → Option Lines
led_7seg_write_decimal nr_digits val l =
    let three = nr_digits == 3 in
    written l
      (formatted (decimal_format three) plain (num (val % (if three then 1000 else 100)) ∷ []))

abbrev same : List ℕ → List ℕ → Bool
same [] [] = true
same [] (y ∷ ys) = false
same (x ∷ xs) [] = false
same (x ∷ xs) (y ∷ ys) = (x == y) && same xs ys

same_text : Option (List ℕ) → List ℕ → Bool
same_text none ys = false
same_text (some xs) ys = same xs ys

same_lem : (xs ys : List ℕ) → same xs ys ≡ true → xs ≡ ys
same_lem [] [] h = refl
same_lem [] (y ∷ ys) h = ground (arith, h)
same_lem (x ∷ xs) [] h = ground (arith, h)
same_lem (x ∷ xs) (y ∷ ys) h =
    ap₂ ◌∷◌ ((==_iff x y).0 (ground (arith, h))) (same_lem xs ys (ground (arith, h)))

same_text_lem : (t : Option (List ℕ)) (ys : List ℕ) → same_text t ys ≡ true → t ≡ some ys
unfolding same_text
same_text_lem none ys h = ground (arith, h)
same_text_lem (some xs) ys h = ap some (same_lem xs ys h)

-- The decimal digits of a number, three or two of them.
abbrev pub decimal_digits : Bool → ℕ → List ℕ
decimal_digits three x =
    if three
    then (48 + x / 100) ∷ (48 + x / 10 % 10) ∷ (48 + x % 10) ∷ []
    else (48 + x / 10) ∷ (48 + x % 10) ∷ []

two_checked :
    all_below 100 (λ x.
      same_text (formatted (decimal_format false) plain (num x ∷ [])) (decimal_digits false x))
    ≡ true
unfolding all_below same_text formatted digits_of
two_checked = refl

three_checked :
    all_below 1000
      (λ x. same_text (formatted (decimal_format true) plain (num x ∷ [])) (decimal_digits true x))
    ≡ true
unfolding all_below same_text formatted digits_of
three_checked = refl

decimal_text :
    (three : Bool) (x : ℕ)
    → x < (if three then 1000 else 100)
    → formatted (decimal_format three) plain (num x ∷ []) ≡ some (decimal_digits three x)
decimal_text true x h =
    same_text_lem (formatted (decimal_format true) plain (num x ∷ [])) (decimal_digits true x)
      (all_below-lt 1000 _ x three_checked h)
decimal_text false x h =
    same_text_lem (formatted (decimal_format false) plain (num x ∷ [])) (decimal_digits false x)
      (all_below-lt 100 _ x two_checked h)

-- `led_7seg_write_decimal` shows the last decimal digits of its value, with leading zeros: three
-- when `nr_digits` is 3, else two.
pub led_7seg_write_decimal-decimal_digits :
    (nr_digits val : ℕ) (l : Lines)
    → led_7seg_write_decimal nr_digits val l
      ≡ some (
          led_7seg_write_string
            (if nr_digits == 3
              then decimal_digits true (val % 1000)
              else decimal_digits false (val % 100))
            l)
unfolding led_7seg_write_decimal
led_7seg_write_decimal-decimal_digits nr_digits val l = elim (Bool-cases (nr_digits == 3)) [
  | inl three ↦ rw three (ap (written l) (decimal_text true (val % 1000) (omega arith)))
  | inr two ↦ rw two (ap (written l) (decimal_text false (val % 100) (omega arith)))
]
