-- ===== src/Led/Receiver.antt =====
-- A TM1651 on the two lines, by its rule: DAT falling under a high CLK starts a frame, rising it ends
-- one; between, a rising CLK shifts in a bit, the lowest first, and every ninth bit is passed over.
use flashfloppy_testbed.Prelude.{ℕ, ◌+◌, ◌*◌, ◌≡◌, refl, List, [], ◌∷◌, ◌++◌}
use flashfloppy_testbed.Prelude.{Bool, true, false, not, ◌&&◌, ◌==◌, if◌then◌else◌}
use flashfloppy_testbed.Led.{Event, dat, clk, wait, Lines, emit}

-- The lines, whether a frame is open, the weight of the next bit (256 for the ninth), the byte and
-- the frame so far, and the frames that were completed.
pub record Receiver : Type 0 where
  pub dat_line : Bool
  pub clk_line : Bool
  pub active : Bool
  pub weight : ℕ
  pub value : ℕ
  pub frame : List ℕ
  pub frames : List (List ℕ)

abbrev pub shift_in : Receiver → Receiver
shift_in r =
    if r.weight == 256
    then record r { clk_line = true; weight = 1; value = 0; frame = r.frame ++ (r.value ∷ []) }
    else record r {
      clk_line = true;
      weight = 2 * r.weight;
      value = if r.dat_line then r.value + r.weight else r.value;
    }

abbrev pub open_frame : Receiver → Receiver
open_frame r = record r { dat_line = false; active = true; weight = 1; value = 0; frame = [] }

abbrev pub close_frame : Receiver → Receiver
close_frame r = record r { dat_line = true; active = false; frames = r.frames ++ (r.frame ∷ []) }

unfoldable pub hear : Receiver → Event → Receiver
hear r (wait n) = r
hear r (clk x) = if x && (not r.clk_line && r.active) then shift_in r else record r { clk_line = x }
hear r (dat false) =
    if r.clk_line && r.dat_line then open_frame r else record r { dat_line = false }
hear r (dat true) =
    if r.clk_line && (not r.dat_line && r.active)
    then close_frame r
    else record r { dat_line = true }

abbrev pub hear_all : Receiver → List Event → Receiver
hear_all r [] = r
hear_all r (e ∷ es) = hear_all (hear r e) es

-- What a receiver has heard on the lines since they were set up.
abbrev pub heard : Receiver → Lines → Receiver
heard r l = hear_all r l.events

pub hear_all-snoc :
    (es : List Event) (r : Receiver) (e : Event)
    → hear_all r (es ++ (e ∷ [])) ≡ hear (hear_all r es) e
hear_all-snoc [] r e = refl
hear_all-snoc (x ∷ es) r e = hear_all-snoc es (hear r x) e

pub heard-emit : (r : Receiver) (e : Event) (l : Lines) → heard r (emit e l) ≡ hear (heard r l) e
heard-emit r e l = hear_all-snoc l.events r e
