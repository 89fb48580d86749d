-- ===== src/Amiga/Tests.antt =====
-- Concrete runs, and the theorems at concrete inputs: a sector of zeros on a track of eleven.
use flashfloppy_testbed.Prelude.{
  ℕ, ◌-◌, ◌%◌, ◌≡◌, arith, List, [], ◌∷◌, get_or, Bool, true, ltb, ◌&&◌,
}
use flashfloppy_testbed.Mem.{Mem}
use flashfloppy_testbed.Mfm.Spec.{encode_bits, data_bits}
use flashfloppy_testbed.Amiga.Write.{Emitter, emit_long}
use flashfloppy_testbed.Amiga.Checksum.{longs}
use flashfloppy_testbed.Amiga.Long.{emit_long-encode_bits}

abbrev zeros : Mem
zeros a = 0

abbrev start : Emitter
start = record { pr = 0; longs = [] }

-- The sync and the header of sector 0 of track 1.
abbrev header : List ℕ
header =
    68 ∷ 137 ∷ 68 ∷ 137 ∷ 85 ∷ 42 ∷ 170 ∷ 165 ∷ 85 ∷ 41 ∷ 42 ∷ 169 ∷ 42 ∷ 170 ∷ 170 ∷ 170 ∷ 170
    ∷ 170 ∷ 170 ∷ 170 ∷ 170 ∷ 170 ∷ 170 ∷ 170 ∷ 170 ∷ 170 ∷ 170 ∷ 170 ∷ 170 ∷ 170 ∷ 170 ∷ 170 ∷ 170
    ∷ 170 ∷ 170 ∷ 170 ∷ 170 ∷ 170 ∷ 170 ∷ 170 ∷ 170 ∷ 170 ∷ 170 ∷ 170 ∷ 170 ∷ 170 ∷ 170 ∷ 170 ∷ 170
    ∷ 169 ∷ 42 ∷ 164 ∷ 170 ∷ 170 ∷ 170 ∷ 170 ∷ 170 ∷ 170 ∷ 170 ∷ 170 ∷ []

abbrev below : List ℕ → Bool
below [] = true
below (x ∷ xs) = ltb x 256 && below xs

abbrev sector : Mem
sector a = get_or header (a - 0x1000) 0xaa

emit_long-encode_bits_example :
    ((emit_long start 0x12345678).longs ≡ encode_bits 16 (0 % 2) (data_bits 16 0x12345678) ∷ [])
    × ((emit_long start 0x12345678).pr % 2 ≡ 0x12345678 % 2)
emit_long-encode_bits_example = emit_long-encode_bits start 0x12345678 (omega arith)
