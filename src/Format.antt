-- ===== src/Format.antt =====
-- src/string.c: `vsnprintf`. The characters that it puts out are a list, which is then stored. The
-- arguments that `va_arg` takes are a list too: numbers, and strings without their terminating zero.
pub mod Store
pub mod Digits
pub mod Roundtrip
mod Tests
use flashfloppy_testbed.Prelude.{
  ℕ, zero, suc, ◌+◌, ◌-◌, ◌*◌, ◌/◌, ◌%◌, ◌^◌, List, [], ◌∷◌, ◌++◌, length, replicate, reversed,
}
use flashfloppy_testbed.Prelude.{
  Bool, true, false, not, ◌&&◌, ◌||◌, ◌==◌, ltb, leb, if◌then◌else◌, Option, none, some,
}
use flashfloppy_testbed.Prelude.Int.{ℤ, pos, negsuc, signed32}
use flashfloppy_testbed.Mem.{Mem, u8, u16, u32, store8}

-- The flags; BASE is set when the conversion is known.
pub record Flags : Type 0 where
  pub upper : Bool
  pub sign : Bool
  pub alternate : Bool
  pub zeropad : Bool
  pub char : Bool
  pub short : Bool

abbrev pub no_flags : Flags
no_flags = record {
  upper = false;
  sign = false;
  alternate = false;
  zeropad = false;
  char = false;
  short = false;
}

pub data Arg : Type 0 where
  num : ℕ → Arg
  text : List ℕ → Arg

-- Where the scan of the format is: outside a directive, at `more`, in the digits of a width, or
-- behind an 'h'.
pub data Mode : Type 0 where
  plain : Mode
  directive number half : Flags → ℤ → Mode

-- `width--` and what `while (width-- > n)` counts
abbrev pub decrement : ℤ → ℤ
decrement (pos zero) = negsuc 0
decrement (pos (suc n)) = pos n
decrement (negsuc n) = negsuc (suc n)

abbrev pub shortfall : ℤ → ℕ → ℕ
shortfall (pos w) n = w - n
shortfall (negsuc w) n = 0

-- `x` as a `char` (which is unsigned), a `short` or what it is
unfoldable pub narrow : Flags → ℕ → ℕ
narrow f x =
    if f.char
    then u8 x
    else if f.short
    then (if f.sign && leb (2 ^ 15) (u16 x) then u32 (u16 x + (2 ^ 32 - 2 ^ 16)) else u16 x)
    else x

abbrev pub digit_char : Bool → ℕ → ℕ
digit_char upper d = if ltb d 10 then 48 + d else if upper then 55 + d else 87 + d

-- `for (q = tmp; x; q++, x /= base)`, lowest digit first; 32 bits have at most 32 digits.
unfoldable pub digits_of : ℕ → ℕ → Bool → ℕ → List ℕ
digits_of zero base upper x = []
digits_of (suc n) base upper x =
    let rest = digits_of n base upper (x / base) in
    if x == 0 then [] else digit_char upper (x % base) ∷ rest

-- `tmp` up to `q`
unfoldable pub tmp_digits : ℕ → Bool → ℕ → List ℕ
tmp_digits base upper x = if x == 0 then 48 ∷ [] else digits_of 32 base upper x

abbrev pub prefix : Flags → ℕ → List ℕ
prefix f base =
    if f.alternate
    then (if base == 8 then 48 ∷ [] else if base == 16 then 48 ∷ 120 ∷ [] else [])
    else []

abbrev pub less_prefix : List ℕ → ℤ → ℤ
less_prefix [] w = w
less_prefix (x ∷ xs) w = less_prefix xs (decrement w)

-- A number.
unfoldable pub number_text : Flags → ℤ → ℕ → ℕ → List ℕ
unfolding narrow tmp_digits
number_text f width base value =
    let x = narrow f value in
    let negative = f.sign && leb (2 ^ 31) x in
    let magnitude = if negative then u32 (2 ^ 32 - x) else x in
    let w = less_prefix (prefix f base) (if negative then decrement width else width) in
    let tmp = tmp_digits base f.upper magnitude in
    let pads = replicate (shortfall w (length tmp)) (if f.zeropad then 48 else 32) in
    (if negative && f.zeropad then 45 ∷ [] else [])
    ++ (prefix f base
        ++ (pads ++ ((if negative && not f.zeropad then 45 ∷ [] else []) ++ reversed tmp [])))

-- A string, with spaces behind it.
unfoldable pub string_text : ℤ → List ℕ → List ℕ
string_text width cs = cs ++ replicate (shortfall width (length cs)) 32

abbrev pub then_text : List ℕ → Option (List ℕ) → Option (List ℕ)
then_text cs none = none
then_text cs (some rest) = some (cs ++ rest)

-- What the rest of the format puts out, in a mode, of the arguments that are left.
abbrev pub Rest : Type 0
Rest = Mode → List Arg → Option (List ℕ)

-- `none` is a read beyond the arguments.
unfoldable pub put_number : Flags → ℤ → ℕ → List Arg → Rest → Option (List ℕ)
unfolding number_text
put_number f width base (num x ∷ args) rest =
    then_text (number_text f width base x) (rest plain args)
put_number f width base (text cs ∷ args) rest = none
put_number f width base [] rest = none

unfoldable pub put_string : ℤ → List Arg → Rest → Option (List ℕ)
unfolding string_text
put_string width (text cs ∷ args) rest = then_text (string_text width cs) (rest plain args)
put_string width (num x ∷ args) rest = none
put_string width [] rest = none

unfoldable pub put_char : List Arg → Rest → Option (List ℕ)
put_char (num x ∷ args) rest = then_text (u8 x ∷ []) (rest plain args)
put_char (text cs ∷ args) rest = none
put_char [] rest = none

unfoldable pub take_width : Flags → List Arg → Rest → Option (List ℕ)
take_width f (num x ∷ args) rest = rest (directive f (signed32 x)) args
take_width f (text cs ∷ args) rest = none
take_width f [] rest = none

-- The `switch`.
unfoldable pub convert : Flags → ℤ → ℕ → List Arg → Rest → Option (List ℕ)
unfolding put_number put_string put_char take_width
convert f w c args rest =
    if c == b'*'
    then take_width f args rest
    else if c == b'#'
    then rest (directive (record f { alternate = true }) w) args
    else if c == b'0'
    then rest (directive (record f { zeropad = true }) w) args
    else if leb b'1' c && leb c b'9'
    then rest (number f (pos (c - 48))) args
    else if c == b'h'
    then rest (half f w) args
    else if c == b'o'
    then put_number f w 8 args rest
    else if c == b'd' || c == b'i'
    then put_number (record f { sign = true }) w 10 args rest
    else if c == b'u'
    then put_number f w 10 args rest
    else if c == b'X'
    then put_number (record f { upper = true }) w 16 args rest
    else if c == b'x' || c == b'p'
    then put_number f w 16 args rest
    else if c == b's'
    then put_string w args rest
    else if c == b'c'
    then put_char args rest
    else then_text (c ∷ []) (rest plain args)

-- `width = width*10 + c-'0'`
abbrev pub wider : ℤ → ℕ → ℤ
wider (pos w) c = pos (w * 10 + (c - 48))
wider (negsuc w) c = negsuc w

unfoldable pub format_char : Mode → ℕ → List Arg → Rest → Option (List ℕ)
unfolding convert
format_char plain c args rest =
    if c == b'%'
    then rest (directive no_flags (pos 0)) args
    else then_text (c ∷ []) (rest plain args)
format_char (directive f w) c args rest = convert f w c args rest
format_char (number f w) c args rest =
    if leb b'0' c && leb c b'9' then rest (number f (wider w c)) args else convert f w c args rest
format_char (half f w) c args rest =
    if c == b'h'
    then rest (directive (record f { char = true }) w) args
    else convert (record f { short = true }) w c args rest

-- All characters that a format puts out. A format that ends in a directive is read beyond its end:
-- `none`.
unfoldable pub formatted : List ℕ → Mode → List Arg → Option (List ℕ)
unfolding format_char
formatted [] plain args = some []
formatted [] (directive f w) args = none
formatted [] (number f w) args = none
formatted [] (half f w) args = none
formatted (c ∷ fmt) mode args = format_char mode c args (formatted fmt)

-- `do_putch` for each character, `p` and `end` being addresses.
unfoldable pub put_chars : Mem → ℕ → ℕ → List ℕ → Mem
put_chars m p end [] = m
put_chars m p end (c ∷ cs) = put_chars (if ltb p end then store8 m p c else m) (p + 1) end cs

-- The terminating zero.
unfoldable pub terminate : Mem → ℕ → ℕ → ℕ → Mem
terminate m str p end =
    if leb p end then store8 m p 0 else if leb str end then store8 m end 0 else m

abbrev pub store_text : Mem → ℕ → ℕ → Option (List ℕ) → Option (Mem × ℕ)
store_text m str size none = none
store_text m str size (some cs) =
    let p = str + length cs in
    let end = str + size - 1 in some (terminate (put_chars m str end cs) str p end, length cs)

-- `vsnprintf`: the memory and the return value.
unfoldable pub vsnprintf : Mem → ℕ → ℕ → List ℕ → List Arg → Option (Mem × ℕ)
vsnprintf m str size format args = store_text m str size (formatted format plain args)
