-- ===== src/Util/Tests.antt =====
-- Concrete runs, and the theorems at concrete inputs.
use flashfloppy_testbed.Prelude.{◌≡◌, refl, arith, [], ◌∷◌}
use flashfloppy_testbed.Prelude.{inr}
use flashfloppy_testbed.Mem.{Mem, IsMem, bytes, store, u8}
use flashfloppy_testbed.Util.Memory.{memset, memcpy, memmove}
use flashfloppy_testbed.Util.Memory.Copy.{IsCopied, memcpy-IsCopied}
use flashfloppy_testbed.Util.Strings.Scan.{IsString}

-- every address holds its low byte
abbrev counting : Mem
counting a = u8 a

counting-IsMem : IsMem counting
counting-IsMem a = omega arith

-- 32 bytes and a rest, from an aligned address
fast_memset : bytes (memset counting 4 0x14e 34) 36 4 ≡ 0x4e ∷ 0x4e ∷ 38 ∷ 39 ∷ []
unfolding memset flashfloppy_testbed.Util.Memory.whole_blocks
    flashfloppy_testbed.Util.Memory.memset_loop flashfloppy_testbed.Mem.store8
    flashfloppy_testbed.Util.Memory.memset_fast flashfloppy_testbed.Util.Memory.store_same
    flashfloppy_testbed.Util.Memory.store32
fast_memset = refl

memcpy-IsCopied_example : IsCopied counting (memcpy counting 64 0 40) 64 0 40
memcpy-IsCopied_example =
    memcpy-IsCopied counting 64 0 40 counting-IsMem (omega arith) (inr (omega arith))

-- the three bytes below 256 and the zero behind them
three : IsString counting 253 3
three = (
  λ e. absurd (omega (arith, e)),
  (λ e. absurd (omega (arith, e)), (λ e. absurd (omega (arith, e)), refl)),
)
