-- ===== src/Led.antt =====
-- src/led_7seg.c: the TM1651 driver of a seven-segment display, on two lines that it moves by hand.
pub mod Receiver
pub mod Frame
pub mod Message
pub mod Decimal
mod Tests
use flashfloppy_testbed.Prelude.{
  ℕ, zero, suc, ◌+◌, ◌-◌, ◌*◌, ◌/◌, ◌%◌, ◌^◌, List, [], ◌∷◌, ◌++◌, get_or,
}
use flashfloppy_testbed.Prelude.{Bool, true, false, not, ◌&&◌, ◌==◌, leb, if◌then◌else◌, bit_or}

-- What the driver does to its lines: it drives one low (`false`) or lets it be pulled up, and waits.
pub data Event : Type 0 where
  dat clk : Bool → Event
  wait : ℕ → Event

-- The events so far, and the levels that reads of the DAT line will give, in order. With nobody on
-- the line it is pulled up.
pub record Lines : Type 0 where
  pub events : List Event
  pub levels : List Bool

abbrev pub emit : Event → Lines → Lines
emit e l = record { events = l.events ++ (e ∷ []); levels = l.levels }

abbrev pub head_level : List Bool → Bool
head_level [] = true
head_level (x ∷ xs) = x

abbrev pub rest_levels : List Bool → List Bool
rest_levels [] = []
rest_levels (x ∷ xs) = xs

-- `CYCLE`
abbrev pub cycle : ℕ
cycle = 8

-- One round of `tm1651_write`: "ACK" is read in the last one.
unfoldable pub write_round : ℕ → Bool → Lines → Bool × Lines
write_round y fail l =
    let low = emit (wait (cycle / 4)) (emit (clk false) l) in
    let put = emit (wait (cycle / 8)) (emit (dat (y % 2 == 1)) low) in
    let acked : Lines = record { events = put.events; levels = rest_levels put.levels } in
    let held = if y == 1 then emit (dat false) acked else put in
    let high = emit (clk true) (emit (wait (cycle / 8)) held) in
    (if y == 1 then head_level put.levels else fail, emit (wait (cycle / 2)) high)

-- `do { ... } while (y >>= 1)`, for at most so many rounds.
unfoldable pub write_rounds : ℕ → ℕ → Bool → Lines → Bool × Lines
write_rounds zero y fail l = (fail, l)
write_rounds (suc n) y fail l =
    let (fail', l') = write_round y fail l in
    let rest = write_rounds n (y / 2) fail' l' in if y / 2 == 0 then (fail', l') else rest

unfoldable pub tm1651_write : ℕ → Lines → Bool × Lines
unfolding write_rounds
tm1651_write x l = write_rounds 9 (bit_or x 0x100) false l

unfoldable pub tm1651_start : Lines → Lines
tm1651_start l =
    let low = emit (wait (cycle / 2)) (emit (clk false) l) in
    let high = emit (wait (cycle / 4)) (emit (clk true) low) in
    emit (wait (cycle / 4)) (emit (dat false) high)

unfoldable pub tm1651_stop : Lines → Lines
tm1651_stop l =
    let low = emit (wait (cycle / 2)) (emit (clk false) l) in
    let high = emit (wait (cycle / 4)) (emit (clk true) low) in
    emit (wait (cycle / 4)) (emit (dat true) high)

-- `a || b || ...`: the bytes, up to the first that is not acknowledged.
unfoldable pub write_all : List ℕ → Lines → Bool × Lines
write_all [] l = (false, l)
write_all (x ∷ xs) l =
    let (fail, l') = tm1651_write x l in
    let rest = write_all xs l' in if fail then (true, l') else rest

unfoldable pub attempt : List ℕ → Lines → Bool × Lines
attempt xs l = let (fail, l') = write_all xs (tm1651_start l) in (fail, tm1651_stop l')

-- `for (retry = 0; fail && (retry < 3); retry++)`
unfoldable pub attempts : ℕ → List ℕ → Lines → Bool × Lines
attempts zero xs l = (true, l)
attempts (suc n) xs l =
    let (fail, l') = attempt xs l in
    let rest = attempts n xs l' in if fail then rest else (false, l')

unfoldable pub tm1651_send_cmd : ℕ → Lines → Bool × Lines
tm1651_send_cmd cmd l = attempts 3 (cmd ∷ []) l

-- `d` being three bytes
unfoldable pub tm1651_update_display : List ℕ → Lines → Lines
tm1651_update_display d l =
    (attempts 3 (0xc0 ∷ get_or d 0 0 ∷ get_or d 1 0 ∷ get_or d 2 0 ∷ 0x00 ∷ []) l).1

unfoldable pub tm1651_init : Lines → Bool × Lines
tm1651_init l = tm1651_send_cmd 0x40 (emit (clk true) (emit (dat true) l))

abbrev pub letters : List ℕ
letters =
    0x77 ∷ 0x7c ∷ 0x58 ∷ 0x5e ∷ 0x79 ∷ 0x71 ∷ 0x6f ∷ 0x74 ∷ 0x04 ∷ 0x0e ∷ 0x08 ∷ 0x38 ∷ 0x40 ∷ 0x54
    ∷ 0x5c ∷ 0x73 ∷ 0x67 ∷ 0x50 ∷ 0x6d ∷ 0x78 ∷ 0x1c ∷ 0x09 ∷ 0x41 ∷ 0x76 ∷ 0x6e ∷ 0x00 ∷ []

abbrev pub digits : List ℕ
digits = 0x3f ∷ 0x06 ∷ 0x5b ∷ 0x4f ∷ 0x66 ∷ 0x6d ∷ 0x7d ∷ 0x07 ∷ 0x7f ∷ 0x6f ∷ []

unfoldable pub led_7seg_display_setting : Bool → Lines → Lines
led_7seg_display_setting enable l = (tm1651_send_cmd (if enable then 0x88 + 1 else 0x80) l).1

-- The segments for a character.
unfoldable pub segments : ℕ → ℕ
segments c =
    if leb 48 c && leb c 57
    then get_or digits (c - 48) 0
    else if leb 97 c && leb c 122
    then get_or letters (c - 97) 0
    else if leb 65 c && leb c 90
    then get_or letters (c - 65) 0
    else if c == 45
    then 0x40
    else 0

-- The loop of `led_7seg_write_string` over a text without its terminating zero: `d`, whose entries
-- from `i` on are still zero.
unfoldable pub put_text : ℕ → List ℕ → List ℕ
put_text zero cs = []
put_text (suc left) [] = 0 ∷ put_text left []
put_text (suc left) (c ∷ cs) = segments c ∷ put_text left cs

unfoldable pub led_7seg_write_string : List ℕ → Lines → Lines
unfolding put_text
led_7seg_write_string cs l = tm1651_update_display (put_text 3 cs) l

unfoldable pub led_7seg_init : Lines → Lines
led_7seg_init l = led_7seg_display_setting true (led_7seg_write_string [] (tm1651_init l).1)
