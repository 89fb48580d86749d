-- ===== src/Led/Message.antt =====
-- Whole commands: frames, and what is tried again.
use flashfloppy_testbed.Prelude.{
  ℕ, zero, suc, ◌-◌, ◌<◌, ◌≡◌, ◌∙◌, refl, sym, ap, ap₂, arith, get_or, map,
}
use flashfloppy_testbed.Prelude.{
  List, [], ◌∷◌, ◌++◌, All, Bool, true, false, if◌then◌else◌, Bool-cases, inl, inr,
}
use mathlib.Core.Path.{subst}
use mathlib.Core.List.{append_assoc, append-nil}
use flashfloppy_testbed.Led.{
  Lines, head_level, rest_levels, tm1651_write, tm1651_start, tm1651_stop, write_all, attempt,
  attempts, tm1651_update_display, put_text, segments, digits, letters, led_7seg_write_string,
}
use flashfloppy_testbed.Led.Receiver.{Receiver, hear, heard, hear_all-snoc}
use flashfloppy_testbed.Led.Frame.{byte_in, heard-tm1651_write}

-- Of some bytes, with these levels at their ninth bits: those sent, up to the first that nobody
-- acknowledges by a low level, whether there is one, and the levels that are left.
abbrev pub delivered : List ℕ → List Bool → List ℕ
delivered [] ls = []
delivered (x ∷ xs) ls = x ∷ (if head_level ls then [] else delivered xs (rest_levels ls))

abbrev pub refused : List ℕ → List Bool → Bool
refused [] ls = false
refused (x ∷ xs) ls = if head_level ls then true else refused xs (rest_levels ls)

abbrev pub left_over : List ℕ → List Bool → List Bool
left_over [] ls = ls
left_over (x ∷ xs) ls = if head_level ls then rest_levels ls else left_over xs (rest_levels ls)

-- The frames of at most `n` attempts, the last of them the first that is acknowledged throughout.
abbrev pub tries : ℕ → List ℕ → List Bool → List (List ℕ)
tries zero xs ls = []
tries (suc n) xs ls = delivered xs ls ∷ (if refused xs ls then tries n xs (left_over xs ls) else [])

abbrev pub gave_up : ℕ → List ℕ → List Bool → Bool
gave_up zero xs ls = true
gave_up (suc n) xs ls = if refused xs ls then gave_up n xs (left_over xs ls) else false

-- Between frames, both lines are up or only CLK is down.
abbrev pub IsIdle : Receiver → Type 0
IsIdle s = (s.dat_line ≡ true) × (s.active ≡ false)

abbrev opened : Receiver → List ℕ → Receiver
opened s xs = record s {
  dat_line = false;
  clk_line = true;
  active = true;
  weight = 1;
  value = 0;
  frame = xs;
}

-- A frame has just been closed.
abbrev closed : Receiver → List ℕ → Receiver
closed s xs = record s {
  dat_line = true;
  clk_line = true;
  active = false;
  weight = 2;
  value = 0;
  frame = xs;
  frames = s.frames ++ (xs ∷ []);
}

module _ (r : Receiver) where
  heard-tm1651_start :
      (l : Lines) → IsIdle (heard r l) → heard r (tm1651_start l) ≡ opened (heard r l) []
  unfolding tm1651_start hear
  heard-tm1651_start l h = simp hear_all-snoc (ground (arith, h.0, h.1))

  heard-write_all :
      (xs ys : List ℕ) (s : Receiver) (l : Lines)
      → All (λ x. x < 256) xs
      → heard r l ≡ opened s ys
      → (heard r (write_all xs l).1 ≡ opened s (ys ++ delivered xs l.levels))
        × ((write_all xs l).0 ≡ refused xs l.levels)
        × ((write_all xs l).1.levels ≡ left_over xs l.levels)
  unfolding write_all
  heard-write_all [] ys s l h e = (e ∙ ap (opened s) (sym (append-nil ys)), refl, refl)
  heard-write_all (x ∷ xs) ys s l h e =
      let one =
        heard-tm1651_write r x l h.0 (ap (λ (t : Receiver). t.active) e)
          (ap (λ (t : Receiver). t.weight) e) (ap (λ (t : Receiver). t.value) e) in
      let now : heard r (tm1651_write x l).1 ≡ opened s (ys ++ (x ∷ [])) =
        one.0 ∙ ap (λ t. byte_in t x) e in
      let rest = heard-write_all xs (ys ++ (x ∷ [])) s (tm1651_write x l).1 h.1 now in
      let levels : (tm1651_write x l).1.levels ≡ rest_levels l.levels = one.2 in
      elim (Bool-cases (head_level l.levels)) [
        | inl nack ↦ rw (nack, one.1, nack) (now, refl, levels)
        | inr ack ↦
            rw (ack, one.1, ack)
              (
                rest.0
                    ∙ ap (opened s) (
                        append_assoc ys (x ∷ []) _ ∙ ap (λ ls. ys ++ (x ∷ delivered xs ls)) levels),
                rest.1 ∙ ap (refused xs) levels,
                rest.2 ∙ ap (left_over xs) levels,
              )
      ]

  heard-tm1651_stop :
      (xs : List ℕ) (s : Receiver) (l : Lines)
      → heard r l ≡ opened s xs
      → heard r (tm1651_stop l) ≡ closed s xs
  unfolding tm1651_stop hear
  heard-tm1651_stop xs s l e = simp hear_all-snoc (rw e refl)

  heard-attempt :
      (xs : List ℕ) (l : Lines)
      → All (λ x. x < 256) xs
      → IsIdle (heard r l)
      → ((heard r (attempt xs l).1).frames ≡ (heard r l).frames ++ (delivered xs l.levels ∷ []))
        × IsIdle (heard r (attempt xs l).1)
        × ((attempt xs l).0 ≡ refused xs l.levels)
        × ((attempt xs l).1.levels ≡ left_over xs l.levels)
  unfolding attempt tm1651_stop tm1651_start
  heard-attempt xs l h idle =
      let sent = heard-write_all xs [] (heard r l) (tm1651_start l) h (heard-tm1651_start l idle) in
      let end =
        heard-tm1651_stop (delivered xs l.levels) (heard r l) (write_all xs (tm1651_start l)).1
          sent.0 in
      (
        ap (λ (t : Receiver). t.frames) end,
        (ap (λ (t : Receiver). t.dat_line) end, ap (λ (t : Receiver). t.active) end),
        sent.1,
        sent.2,
      )

  -- A receiver that is between frames hears as many frames as the driver makes attempts: each has the
  -- bytes up to the first that is not acknowledged, and the driver stops behind the first that is
  -- acknowledged throughout, or after `n` (three, in each of its commands), when it reports failure.
  pub attempts-tries :
      (n : ℕ) (xs : List ℕ) (l : Lines)
      → All (λ x. x < 256) xs
      → IsIdle (heard r l)
      → ((heard r (attempts n xs l).1).frames ≡ (heard r l).frames ++ tries n xs l.levels)
        × IsIdle (heard r (attempts n xs l).1)
        × ((attempts n xs l).0 ≡ gave_up n xs l.levels)
  unfolding attempts
  attempts-tries zero xs l h idle = (sym (append-nil (heard r l).frames), idle, refl)
  attempts-tries (suc n) xs l h idle =
      let one = heard-attempt xs l h idle in
      let rest = attempts-tries n xs (attempt xs l).1 h one.1 in
      elim (Bool-cases (refused xs l.levels)) [
        | inl failed ↦
            rw (one.2, failed)
              (
                rest.0
                    ∙ ap₂ (λ (f : List (List ℕ)) (ls : List Bool). f ++ tries n xs ls) one.0 one.3
                    ∙ append_assoc (heard r l).frames (delivered xs l.levels ∷ []) _,
                rest.1,
                rest.2 ∙ ap (gave_up n xs) one.3,
              )
        | inr fine ↦ rw (one.2, fine) (one.0, one.1, refl)
      ]

put_text_lem :
    (n : ℕ) (cs : List ℕ) (i : ℕ)
    → i < n
    → get_or (put_text n cs) i 0 ≡ get_or (map segments cs) i 0
unfolding put_text
put_text_lem zero cs i h = absurd (omega arith)
put_text_lem (suc n) [] zero h = refl
put_text_lem (suc n) [] (suc i) h = put_text_lem n [] i (omega arith)
put_text_lem (suc n) (c ∷ cs) zero h = refl
put_text_lem (suc n) (c ∷ cs) (suc i) h = put_text_lem n cs i (omega arith)

get_or-lt : (xs : List ℕ) (i : ℕ) → All (λ x. x < 256) xs → get_or xs i 0 < 256
get_or-lt [] i h = omega arith
get_or-lt (x ∷ xs) zero h = h.0
get_or-lt (x ∷ xs) (suc i) h = get_or-lt xs i h.1

segments-lt : (c : ℕ) → segments c < 256
unfolding segments
segments-lt c =
    let d = get_or-lt digits (c - 48) (omega arith) in
    let s = get_or-lt letters (c - 97) (omega arith) in
    let t = get_or-lt letters (c - 65) (omega arith) in ground (arith, d, s, t)

segments-IsByte : (cs : List ℕ) → All (λ x. x < 256) (map segments cs)
segments-IsByte [] = tt
segments-IsByte (c ∷ cs) = (segments-lt c, segments-IsByte cs)

-- The digit `i` of a display that shows a text.
abbrev pub shown : List ℕ → ℕ → ℕ
shown cs i = get_or (map segments cs) i 0

-- `led_7seg_write_string` sends the address 0xc0, the segments of the first three characters, zeros
-- where the text is shorter, and a zero, in up to three frames as `attempts` does.
pub led_7seg_write_string-tries :
    (r : Receiver) (cs : List ℕ) (l : Lines)
    → IsIdle (heard r l)
    → ((heard r (led_7seg_write_string cs l)).frames
        ≡ (heard r l).frames
          ++ tries 3 (0xc0 ∷ shown cs 0 ∷ shown cs 1 ∷ shown cs 2 ∷ 0x00 ∷ []) l.levels)
      × IsIdle (heard r (led_7seg_write_string cs l))
unfolding led_7seg_write_string tm1651_update_display
led_7seg_write_string-tries r cs l idle =
    let sent =
      attempts-tries r 3 (0xc0 ∷ shown cs 0 ∷ shown cs 1 ∷ shown cs 2 ∷ 0x00 ∷ []) l
        (omega arith, (small 0, (small 1, (small 2, (omega arith, tt))))) idle in
    (
      ap (λ xs. (heard r (attempts 3 xs l).1).frames) same ∙ sent.0,
      subst (λ xs. IsIdle (heard r (attempts 3 xs l).1)) (sym same) sent.1,
    )
  where
    small : (i : ℕ) → shown cs i < 256
    small i = get_or-lt (map segments cs) i (segments-IsByte cs)

    same :
        0xc0
          ∷ get_or (put_text 3 cs) 0 0
          ∷ get_or (put_text 3 cs) 1 0
          ∷ get_or (put_text 3 cs) 2 0
          ∷ 0x00
          ∷ []
        ≡ 0xc0 ∷ shown cs 0 ∷ shown cs 1 ∷ shown cs 2 ∷ 0x00 ∷ []
    same =
        ap₂ (λ (a : ℕ) (bs : List ℕ). 0xc0 ∷ a ∷ bs) (put_text_lem 3 cs 0 (omega arith))
          (ap₂ (λ (a b : ℕ). a ∷ b ∷ 0x00 ∷ []) (put_text_lem 3 cs 1 (omega arith))
            (put_text_lem 3 cs 2 (omega arith)))
