-- ===== src/Led/Tests.antt =====
-- Concrete runs, and the theorems at concrete inputs: a display that acknowledges, but for the first
-- byte of the first attempt.
use flashfloppy_testbed.Prelude.{
  ℕ, ◌≡◌, refl, arith, List, [], ◌∷◌, ◌++◌, true, false, some, ◌==◌, ◌%◌, if◌then◌else◌,
}
use flashfloppy_testbed.Led.{Lines, attempts, tm1651_send_cmd, led_7seg_write_string}
use flashfloppy_testbed.Led.Decimal.{
  decimal_digits, led_7seg_write_decimal, led_7seg_write_decimal-decimal_digits,
}
use flashfloppy_testbed.Led.Receiver.{Receiver, heard}
use flashfloppy_testbed.Led.Message.{
  IsIdle, tries, gave_up, shown, attempts-tries, led_7seg_write_string-tries,
}

abbrev display : Receiver
display = record {
  dat_line = true;
  clk_line = true;
  active = false;
  weight = 1;
  value = 0;
  frame = [];
  frames = [];
}

abbrev lines : Lines
lines = record { events = []; levels = true ∷ false ∷ false ∷ false ∷ false ∷ false ∷ [] }

attempts-tries_example :
    ((heard display (attempts 3 (0x40 ∷ []) lines).1).frames
      ≡ [] ++ tries 3 (0x40 ∷ []) lines.levels)
    × IsIdle (heard display (attempts 3 (0x40 ∷ []) lines).1)
    × ((attempts 3 (0x40 ∷ []) lines).0 ≡ gave_up 3 (0x40 ∷ []) lines.levels)
attempts-tries_example = attempts-tries display 3 (0x40 ∷ []) lines (omega arith, tt) (refl, refl)

-- "F1"
abbrev text : List ℕ
text = 70 ∷ 49 ∷ []

led_7seg_write_string-tries_example :
    ((heard display (led_7seg_write_string text lines)).frames
      ≡ [] ++ tries 3 (0xc0 ∷ shown text 0 ∷ shown text 1 ∷ shown text 2 ∷ 0x00 ∷ []) lines.levels)
    × IsIdle (heard display (led_7seg_write_string text lines))
led_7seg_write_string-tries_example = led_7seg_write_string-tries display text lines (refl, refl)

f1_frames :
    tries 3 (0xc0 ∷ shown text 0 ∷ shown text 1 ∷ shown text 2 ∷ 0x00 ∷ []) lines.levels
    ≡ (0xc0 ∷ []) ∷ (0xc0 ∷ 0x71 ∷ 0x06 ∷ 0x00 ∷ 0x00 ∷ []) ∷ []
unfolding flashfloppy_testbed.Led.segments
f1_frames = refl

led_7seg_write_decimal-decimal_digits_example :
    led_7seg_write_decimal 0 1234 lines
    ≡ some (
        led_7seg_write_string
          (if 0 == 3 then decimal_digits true (1234 % 1000) else decimal_digits false (1234 % 100))
          lines)
led_7seg_write_decimal-decimal_digits_example = led_7seg_write_decimal-decimal_digits 0 1234 lines
