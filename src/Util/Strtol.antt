-- ===== src/Util/Strtol.antt =====
-- src/util.c: `strtol` on the characters of a string, whose terminating zero is the end of the list.
-- A `long` is its 32-bit pattern.
use flashfloppy_testbed.Prelude.{
  ℕ, ◌+◌, ◌-◌, ◌*◌, ◌^◌, List, [], ◌∷◌, Bool, false, not, ◌&&◌, ◌==◌, leb, if◌then◌else◌, Option,
  none, some,
}
use flashfloppy_testbed.Mem.{u32}
use flashfloppy_testbed.Util.Strings.{tolower, isspace}

-- `while (isspace(*p)) p++;`
unfoldable pub skip_space : List ℕ → List ℕ
skip_space [] = []
skip_space (c ∷ cs) = let rest = skip_space cs in if isspace c then rest else c ∷ cs

-- "Convert c to a digit", `c` being lower case already
unfoldable pub digit_value : ℕ → Option ℕ
digit_value c =
    if leb b'0' c && leb c b'9'
    then some (c - 48)
    else if leb b'a' c && leb c b'z'
    then some (c - 87)
    else none

abbrev pub is_digit : ℕ → Option ℕ → Bool
is_digit base none = false
is_digit base (some d) = not (leb base d)

abbrev pub value_or_zero : Option ℕ → ℕ
value_or_zero none = 0
value_or_zero (some d) = d

-- The loop over the digits: `val`, and `p`.
unfoldable pub strtol_digits : ℕ → ℕ → List ℕ → ℕ × List ℕ
unfolding digit_value
strtol_digits base val [] = (val, [])
strtol_digits base val (c ∷ cs) =
    let d = digit_value (tolower c) in
    let rest = strtol_digits base (u32 (val * base + value_or_zero d)) cs in
    if is_digit base d then rest else (val, c ∷ cs)

-- "Optional base prefix", with what follows it; `base` is not 0 behind the first of the two tests, so
-- that the second never makes it 16.
unfoldable pub strtol_prefix : ℕ → List ℕ → ℕ × List ℕ
strtol_prefix base [] = strtol_digits (if base == 0 then 10 else base) 0 []
strtol_prefix base (c ∷ []) =
    if tolower c == b'0'
    then strtol_digits (if base == 0 then 8 else base) 0 []
    else strtol_digits (if base == 0 then 10 else base) 0 (c ∷ [])
strtol_prefix base (c ∷ d ∷ cs) =
    let octal = if base == 0 then 8 else base in
    let hex = if octal == 0 then 16 else octal in
    if tolower c == b'0'
    then (if tolower d == b'x'
        then (if hex == 16 then strtol_digits hex 0 cs else (0, d ∷ cs))
        else strtol_digits octal 0 (d ∷ cs))
    else strtol_digits (if base == 0 then 10 else base) 0 (c ∷ d ∷ cs)

abbrev pub negate : ℕ × List ℕ → ℕ × List ℕ
negate (val, cs) = (u32 (2 ^ 32 - val), cs)

-- "Optional sign prefix"
unfoldable pub strtol_sign : ℕ → List ℕ → ℕ × List ℕ
strtol_sign base [] = strtol_prefix base []
strtol_sign base (c ∷ cs) =
    if tolower c == b'-'
    then negate (strtol_prefix base cs)
    else if tolower c == b'+'
    then strtol_prefix base cs
    else strtol_prefix base (c ∷ cs)

-- `strtol`: the value, and the characters from `*endptr` on.
unfoldable pub strtol : List ℕ → ℕ → ℕ × List ℕ
unfolding skip_space strtol_sign
strtol cs base = strtol_sign base (skip_space cs)
