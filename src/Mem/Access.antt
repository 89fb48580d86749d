-- ===== src/Mem/Access.antt =====
-- What an access reads after a write.
use flashfloppy_testbed.Prelude.{ℕ, ◌+◌, ◌/◌, ◌%◌, ◌<◌, ◌≡◌, refl, arith, ◌==◌}
use flashfloppy_testbed.Prelude.{if◌then◌else◌}
use flashfloppy_testbed.Mem.{Mem, IsMem, u8, store8, load16, store16, rev16, word_at}

pub store16_lem :
    (m : Mem) (p v a : ℕ)
    → store16 m p v a ≡ (if a == p + 1 then u8 (v / 256) else if a == p then u8 v else m a)
unfolding store16
store16_lem m p v a = refl

pub store8-IsMem : (m : Mem) (p v : ℕ) → IsMem m → IsMem (store8 m p v)
unfolding store8
store8-IsMem m p v h a = ground (arith, h a)

pub store16-IsMem : (m : Mem) (p v : ℕ) → IsMem m → IsMem (store16 m p v)
unfolding store16
store16-IsMem m p v h a = ground (arith, h a)

-- Swapped, a little-endian load is the big-endian word.
pub rev16-load16 : (m : Mem) (p : ℕ) → IsMem m → rev16 (load16 m p) ≡ word_at m p
unfolding rev16 load16
rev16-load16 m p h = omega (arith, h p, h (p + 1))

-- A swapped word that is stored little-endian stands in memory big-endian.
pub store16-rev16 :
    (m : Mem) (p w a : ℕ)
    → w < 65536
    → store16 m p (rev16 w) a ≡ (if a == p + 1 then w % 256 else if a == p then w / 256 else m a)
unfolding store16 rev16
store16-rev16 m p w a h = ground arith
