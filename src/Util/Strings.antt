-- ===== src/Util/Strings.antt =====
-- src/util.c: strings and characters. A loop up to a terminating zero has fuel, and `none` is a loop
-- that has not met it yet.
pub mod Scan
use flashfloppy_testbed.Prelude.{
  ℕ, zero, suc, ◌+◌, ◌-◌, ◌*◌, ◌/◌, ◌%◌, ◌^◌, Bool, true, false, not, ◌&&◌, ◌||◌, ◌==◌,
}
use flashfloppy_testbed.Prelude.{leb, ltb, if◌then◌else◌, Option, none, some}
use flashfloppy_testbed.Mem.{Mem, store8, u32}

-- `strlen`, `len` counted already
unfoldable pub strlen : Mem → ℕ → ℕ → ℕ → Option ℕ
strlen m s len zero = none
strlen m s len (suc n) =
    let rest = strlen m (s + 1) (len + 1) n in if m s == 0 then some len else rest

-- `strnlen`
unfoldable pub strnlen : Mem → ℕ → ℕ → ℕ
strnlen m s zero = 0
strnlen m s (suc maxlen) = let rest = strnlen m (s + 1) maxlen in if m s == 0 then 0 else suc rest

-- `strchr`: the inner `none` is NULL
unfoldable pub strchr : Mem → ℕ → ℕ → ℕ → Option (Option ℕ)
strchr m s c zero = none
strchr m s c (suc n) =
    let rest = strchr m (s + 1) c n in
    if m s == 0 then some none else if m s == c then some (some s) else rest

-- `strrchr`, `p` being the last match so far
unfoldable pub strrchr : Mem → ℕ → ℕ → Option ℕ → ℕ → Option (Option ℕ)
strrchr m s c p zero = none
strrchr m s c p (suc n) =
    let rest = strrchr m (s + 1) c (if m s == c then some s else p) n in
    if m s == 0 then some p else rest

-- `while ((*p++ = *q++) != '\0')`
unfoldable pub strcpy : Mem → ℕ → ℕ → ℕ → Option Mem
strcpy m dest src zero = none
strcpy m dest src (suc n) =
    let stored = store8 m dest (m src) in
    let rest = strcpy stored (dest + 1) (src + 1) n in if m src == 0 then some stored else rest

-- `tolower`, `toupper`, `isspace`
unfoldable pub tolower : ℕ → ℕ
tolower c = if leb 65 c && leb c 90 then c + (97 - 65) else c

unfoldable pub toupper : ℕ → ℕ
toupper c = if leb 97 c && leb c 122 then c - (97 - 65) else c

unfoldable pub isspace : ℕ → Bool
isspace c = c == 32 || c == 9 || c == 10 || c == 13 || c == 12 || c == 11
