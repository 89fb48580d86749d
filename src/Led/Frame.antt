-- ===== src/Led/Frame.antt =====
-- What a receiver makes of the bytes that the driver sends.
use flashfloppy_testbed.Prelude.{
  ℕ, zero, suc, ◌+◌, ◌*◌, ◌/◌, ◌%◌, ◌^◌, ◌<◌, ◌≤◌, ◌≡◌, ◌∙◌, refl, sym, ap, ap₂, arith,
}
use flashfloppy_testbed.Prelude.{[], ◌∷◌, ◌++◌, Bool, true, false, ◌==◌, if◌then◌else◌, bit_or}
use flashfloppy_testbed.Bits.And.{bit_or_fields, bit_or-zero, zero-bit_or}
use flashfloppy_testbed.Led.{
  dat, clk, Lines, head_level, rest_levels, write_round, write_rounds, tm1651_write,
}
use flashfloppy_testbed.Led.Receiver.{Receiver, shift_in, hear, heard, hear_all-snoc}

-- A bit has been clocked in.
abbrev clocked : Bool → Receiver → Receiver
clocked d s = shift_in (record s { dat_line = d; clk_line = false })

hear-round :
    (d : Bool) (s : Receiver)
    → s.active ≡ true
    → hear (hear (hear s (clk false)) (dat d)) (clk true) ≡ clocked d s
unfolding hear
hear-round true s h = ground (arith, h)
hear-round false s h = ground (arith, h)

hear-last :
    (s : Receiver)
    → s.active ≡ true
    → hear (hear (hear (hear s (clk false)) (dat true)) (dat false)) (clk true) ≡ clocked false s
unfolding hear
hear-last s h = ground (arith, h)

-- A whole byte has been clocked in, with the ninth bit behind it.
abbrev pub byte_in : Receiver → ℕ → Receiver
byte_in s x = record s {
  dat_line = false;
  clk_line = true;
  weight = 1;
  value = 0;
  frame = s.frame ++ (x ∷ []);
}

abbrev top : ℕ → ℕ
top zero = 1
top (suc n) = 2 * top n

unroll : (h b w : ℕ) → (2 * h + b) * w ≡ b * w + h * (2 * w)
unroll h b w = grind arith

last_value : (v q : ℕ) (w : ℕ) → q < 1 → v + q * w ≡ v
last_value v zero w h = omega arith
last_value v (suc q) w h = absurd (omega arith)

not_ninth : (w t : ℕ) → w * (2 * t) ≡ 256 → (w == 256) ≡ false
not_ninth w t e = ground (arith, ap (λ (u : ℕ). u * (2 * t)) {x = w} {y = 256})

-- One bit, not the ninth.
shifted :
    (d : Bool) (s : Receiver) (w v : ℕ)
    → (w == 256) ≡ false
    → s.weight ≡ w
    → s.value ≡ v
    → ((clocked d s).active ≡ s.active)
      × ((clocked d s).weight ≡ 2 * w)
      × ((clocked d s).value ≡ (if d then v + w else v))
      × ((x : ℕ) → byte_in (clocked d s) x ≡ byte_in s x)
shifted d s w v e f g =
    (ground (arith, e, f), ground (arith, e, f), ground (arith, e, f, g), λ x. ground (arith, e, f))

regroup : (w t : ℕ) → 2 * w * t ≡ w * (2 * t)
regroup w t = grind arith

times_bit : (b w : ℕ) → b < 2 → b * w ≡ (if b == 1 then w else 0)
times_bit zero w h = omega arith
times_bit (suc zero) w h = omega arith
times_bit (suc (suc b)) w h = absurd (omega arith)

combine :
    (q v w y : ℕ) → y % 2 ≡ q % 2 → (if y % 2 == 1 then v + w else v) + q / 2 * (2 * w) ≡ v + q * w
combine q v w y e =
    ground (
      arith,
      unroll (q / 2) (q % 2) w,
      ap (λ t. t * w) (whole q),
      times_bit (q % 2) w (omega arith),
    )
  where
    whole : (n : ℕ) → 2 * (n / 2) + n % 2 ≡ n
    whole n = omega arith

ninth : (s : Receiver) (x : ℕ) → s.weight ≡ 256 → s.value ≡ x → clocked false s ≡ byte_in s x
ninth s x e f = ground (arith, e, f)

top_pos : (n : ℕ) → 0 < top n
top_pos zero = omega arith
top_pos (suc n) = omega (arith, top_pos n)

module _ (r : Receiver) where
  heard-round :
      (y : ℕ) (fail : Bool) (l : Lines)
      → (y == 1) ≡ false
      → (heard r l).active ≡ true
      → heard r (write_round y fail l).1 ≡ clocked (y % 2 == 1) (heard r l)
  unfolding write_round hear
  heard-round y fail l e h = rw e (simp hear_all-snoc (hear-round (y % 2 == 1) (heard r l) h))

  heard-last :
      (fail : Bool) (l : Lines)
      → (heard r l).active ≡ true
      → heard r (write_round 1 fail l).1 ≡ clocked false (heard r l)
  unfolding write_round hear
  heard-last fail l h = simp hear_all-snoc (hear-last (heard r l) h)

  heard-rounds :
      (n y q w v : ℕ) (fail : Bool) (l : Lines)
      → y ≡ top n + q
      → q < top n
      → w * top n ≡ 256
      → (heard r l).active ≡ true
      → (heard r l).weight ≡ w
      → (heard r l).value ≡ v
      → heard r (write_rounds (suc n) y fail l).1 ≡ byte_in (heard r l) (v + q * w)
  unfolding write_rounds
  heard-rounds zero y q w v fail l e c k act wt val =
      let only : y ≡ 1 = omega arith in
      let end : (y / 2 == 0) ≡ true = ground arith in
      rw end (
        ap (λ n. heard r (write_round n fail l).1) only
        ∙ heard-last fail l act
        ∙ ninth (heard r l) (v + q * w) (omega (arith, wt)) (val ∙ sym (last_value v q w c)))
  heard-rounds (suc n) y q w v fail l e c k act wt val =
      let on : (y / 2 == 0) ≡ false = ground (arith, top_pos n) in
      let not_last : (y == 1) ≡ false = ground (arith, top_pos n) in
      let heard' = heard-round y fail l not_last act in
      let d = y % 2 == 1 in
      let step = shifted d (heard r l) w v (not_ninth w (top n) k) wt val in
      rw on (
        heard-rounds n (y / 2) (q / 2) (2 * w) (if d then v + w else v) (write_round y fail l).0
          (write_round y fail l).1 (omega arith) (omega arith) (regroup w (top n) ∙ k)
          (ap (λ (s : Receiver). s.active) heard' ∙ step.0 ∙ act)
          (ap (λ (s : Receiver). s.weight) heard' ∙ step.1)
          (ap (λ (s : Receiver). s.value) heard' ∙ step.2)
        ∙ ap (λ s. byte_in s ((if d then v + w else v) + q / 2 * (2 * w))) heard'
        ∙ step.3 _
        ∙ ap (byte_in (heard r l)) (combine q v w y (omega arith)))

-- Only the last round looks at the line.
round_levels :
    (y : ℕ) (fail : Bool) (l : Lines)
    → ((write_round y fail l).0 ≡ (if y == 1 then head_level l.levels else fail))
      × ((write_round y fail l).1.levels ≡ (if y == 1 then rest_levels l.levels else l.levels))
unfolding write_round
round_levels y fail l = ground arith

rounds_levels :
    (n y : ℕ) (fail : Bool) (l : Lines)
    → top n ≤ y
    → y < top (suc n)
    → ((write_rounds (suc n) y fail l).0 ≡ head_level l.levels)
      × ((write_rounds (suc n) y fail l).1.levels ≡ rest_levels l.levels)
unfolding write_rounds
rounds_levels zero y fail l c k =
    let only : (y == 1) ≡ true = ground arith in
    let end : (y / 2 == 0) ≡ true = ground arith in ground (arith, end, only, round_levels y fail l)
rounds_levels (suc n) y fail l c k =
    let more : (y == 1) ≡ false = ground (arith, top_pos n) in
    let on : (y / 2 == 0) ≡ false = ground (arith, top_pos n) in
    let one = round_levels y fail l in
    let rest =
      rounds_levels n (y / 2) (write_round y fail l).0 (write_round y fail l).1 (omega arith)
        (omega arith) in
    let same : (write_round y fail l).1.levels ≡ l.levels = rw more at one.1 in
    rw on (rest.0 ∙ ap head_level same, rest.1 ∙ ap rest_levels same)

ninth_bit : (x : ℕ) → x < 256 → bit_or x 0x100 ≡ top 8 + x
ninth_bit x h =
    ap (λ a. bit_or a 0x100) (plain x)
    ∙ bit_or_fields 8 0 x 1 0 h (omega arith)
    ∙ ap₂ (λ (a b : ℕ). a * 2 ^ 8 + b) (zero-bit_or 1) (bit_or-zero x)
    ∙ omega arith
  where
    plain : (a : ℕ) → a ≡ 0 * 2 ^ 8 + a
    plain a = omega arith

-- A byte on the line, for a receiver between two bytes of a frame.
pub heard-tm1651_write :
    (r : Receiver) (x : ℕ) (l : Lines)
    → x < 256
    → (heard r l).active ≡ true
    → (heard r l).weight ≡ 1
    → (heard r l).value ≡ 0
    → (heard r (tm1651_write x l).1 ≡ byte_in (heard r l) x)
      × ((tm1651_write x l).0 ≡ head_level l.levels)
      × ((tm1651_write x l).1.levels ≡ rest_levels l.levels)
unfolding tm1651_write
heard-tm1651_write r x l h act wt val =
    let levels =
      rounds_levels 8 (bit_or x 0x100) false l (omega (arith, ninth_bit x h))
        (omega (arith, ninth_bit x h)) in
    (
      heard-rounds r 8 (bit_or x 0x100) x 1 0 false l (ninth_bit x h) h refl act wt val
          ∙ ap (byte_in (heard r l)) (omega arith),
      levels.0,
      levels.1,
    )
