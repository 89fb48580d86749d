-- ===== src/Crc/Tests.antt =====
-- Concrete runs, and the theorems at concrete inputs.
use flashfloppy_testbed.Prelude.{◌+◌, ◌≡◌, ◌↔◌, refl, arith, ◌-◌}
use flashfloppy_testbed.Prelude.{◌==◌, if◌then◌else◌}
use flashfloppy_testbed.Mem.{Mem, IsMem, bytes, u8}
use flashfloppy_testbed.Crc.{crc_byte, crc16_ccitt}
use flashfloppy_testbed.Crc.Spec.{divide}
use flashfloppy_testbed.Crc.Refine.{crc16_ccitt-divide}
use flashfloppy_testbed.Crc.Residue.{crc16_ccitt_residue_iff}

-- "123456789" from address 100 on
abbrev digits_text : Mem
digits_text a = u8 (a - 100 + 0x31)

digits_text-IsMem : IsMem digits_text
digits_text-IsMem a = omega arith

-- the check value of CRC-CCITT with start 0xffff
check_value : crc16_ccitt digits_text 100 9 0xffff ≡ 0x29b1
unfolding crc16_ccitt crc_byte
check_value = refl

crc16_ccitt-divide_example :
    crc16_ccitt digits_text 100 9 0xffff ≡ divide (bytes digits_text 100 9) 0xffff
crc16_ccitt-divide_example =
    crc16_ccitt-divide digits_text 100 9 0xffff digits_text-IsMem (omega arith)

crc16_ccitt_residue_iff_example :
    (crc16_ccitt digits_text 100 9 0xffff ≡ 0) ↔ (crc16_ccitt digits_text 100 7 0xffff ≡ 0x3839)
crc16_ccitt_residue_iff_example =
    crc16_ccitt_residue_iff digits_text 100 7 0xffff digits_text-IsMem (omega arith)

-- the same text with one byte wrong
abbrev spoilt_text : Mem
spoilt_text a = if a == 104 then 0 else digits_text a

spoilt_text-IsMem : IsMem spoilt_text
spoilt_text-IsMem a = ground arith
