-- ===== src/Format/Tests.antt =====
-- Concrete runs, and the theorems at concrete inputs.
use flashfloppy_testbed.Prelude.{
  ℕ, ◌-◌, ◌≡◌, refl, arith, List, [], ◌∷◌, ◌++◌, length, take, ◌==◌, if◌then◌else◌, true, some,
}
use flashfloppy_testbed.Prelude.Int.{pos}
use flashfloppy_testbed.Mem.{Mem, store}
use flashfloppy_testbed.Util.Strtol.{strtol}
use flashfloppy_testbed.Format.{
  Arg, num, text, Flags, no_flags, plain, formatted, vsnprintf, number_text,
}
use flashfloppy_testbed.Format.Store.{vsnprintf-store}
use flashfloppy_testbed.Format.Roundtrip.{strtol-number_text}

abbrev empty : Mem
empty a = 0

-- "a%05d%s", -42 and "bc"
abbrev format : List ℕ
format = 97 ∷ 37 ∷ 48 ∷ 53 ∷ 100 ∷ 37 ∷ 115 ∷ []

abbrev args : List Arg
args = num 0xffffffd6 ∷ text (98 ∷ 99 ∷ []) ∷ []

-- "a-0042bc"
abbrev printed : List ℕ
printed = 97 ∷ 45 ∷ 48 ∷ 48 ∷ 52 ∷ 50 ∷ 98 ∷ 99 ∷ []

prints : formatted format plain args ≡ some printed
unfolding formatted flashfloppy_testbed.Format.digits_of
prints = refl

-- Cut to seven characters.
vsnprintf-store_example :
    vsnprintf empty 0x100 8 format args
    ≡ some (
      (if 8 == 0 then empty else store empty 0x100 (take (8 - 1) printed ++ (0 ∷ []))),
      length printed,
    )
vsnprintf-store_example = vsnprintf-store empty 0x100 8 format args printed (omega arith) prints

abbrev padded : Flags
padded = record no_flags { sign = true; zeropad = true }

strtol-number_text_example : strtol (number_text padded (pos 6) 10 0xffffffd6) 10 ≡ (0xffffffd6, [])
strtol-number_text_example =
    strtol-number_text padded (pos 6) 10 0xffffffd6 refl refl refl (omega arith) (omega arith)
      (omega arith)

-- With base 0, "0x1f" is zero, and stops at the 'x'.
hex_prefix : strtol (48 ∷ 120 ∷ 49 ∷ 102 ∷ []) 0 ≡ (0, 120 ∷ 49 ∷ 102 ∷ [])
unfolding strtol flashfloppy_testbed.Util.Strings.isspace flashfloppy_testbed.Util.Strings.tolower
    flashfloppy_testbed.Util.Strtol.strtol_prefix
hex_prefix = refl

-- `%hhd` of -1
byte_minus :
    formatted (37 ∷ 104 ∷ 104 ∷ 100 ∷ []) plain (num 0xffffffff ∷ []) ≡ some (50 ∷ 53 ∷ 53 ∷ [])
unfolding formatted flashfloppy_testbed.Format.digits_of
byte_minus = refl
