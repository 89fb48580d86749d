-- ===== src/Amiga/Track.antt =====
-- The sectors of a whole AmigaDOS track, as `amiga_track_write` puts them out, read back by the loop of
-- `amiga_track_read`.
use flashfloppy_testbed.Prelude.{ℕ, zero, suc, ◌+◌, ◌*◌, ◌<◌, ◌≤◌, ◌≡◌, reversed, ◌⊎◌}
use flashfloppy_testbed.Mem.{Mem}
use flashfloppy_testbed.Amiga.Write.{Emitter, emit_long, emit_sector, sector_info}
use flashfloppy_testbed.Amiga.Checksum.{longs}

-- From `p` on there are `n` sectors, the first of them the `i`th, as the rounds of
-- `amiga_track_write` put them out behind `e`, each without the gap before it.
abbrev pub IsTrack : Mem → Mem → ℕ → ℕ → ℕ → ℕ → ℕ → ℕ → Emitter → Type 0
IsTrack m src p b track nsec i zero e = Unit
IsTrack m src p b track nsec i (suc n) e =
    (reversed (longs m p 271) (emit_long e 0).longs
      ≡ (emit_sector src b (sector_info track nsec i) e).longs)
    × IsTrack m src (p + 272 * 4) (b + 512) track nsec (i + 1) n
        (emit_sector src b (sector_info track nsec i) e)

-- `r` holds the `n` sectors of `src` at `dest`, and differs from `m` elsewhere only in the buffer.
pub record IsTrackRead (src m r : Mem) (dest b p n : ℕ) : Type 0 where
  pub inside : (a : ℕ) → a < n * 512 → r (dest + a) ≡ src (b + a)
  pub outside :
      (a : ℕ) → (a < dest) ⊎ (dest + n * 512 ≤ a) → (a < p) ⊎ (p + n * 1088 ≤ a) → r a ≡ m a
