-- ===== src/Amiga/Write.antt =====
-- src/amiga.c: `amiga_track_write`. The buffer is the list of the long words put into it so far, last
-- first, as they are big-endian.
use flashfloppy_testbed.Prelude.{
  ℕ, zero, suc, ◌+◌, ◌-◌, ◌*◌, ◌/◌, ◌^◌, List, [], ◌∷◌, length, bit_and, bit_or, bit_xor,
}
use flashfloppy_testbed.Prelude.{Option, none, some, ◌==◌, if◌then◌else◌}
use flashfloppy_testbed.Mem.{Mem, u32}
use flashfloppy_testbed.Amiga.{be32, data_mask, even, odd, amigados_dat_checksum}

-- `pr`, and what lies before `q`
pub record Emitter : Type 0 where
  pub pr : ℕ
  pub longs : List ℕ

unfoldable pub emit_raw : Emitter → ℕ → Emitter
emit_raw e r = record { pr = r; longs = bit_and r (2 ^ 32 - 1 - u32 (e.pr * 2 ^ 31)) ∷ e.longs }

-- A long word with its clock bits, but for the first.
unfoldable pub clocked : ℕ → ℕ
clocked l =
    bit_or (bit_and l data_mask) (u32 (bit_and (2 ^ 32 - 1 - bit_or (l / 4) l) data_mask * 2))

unfoldable pub emit_long : Emitter → ℕ → Emitter
unfolding emit_raw clocked
emit_long e l = emit_raw e (clocked l)

-- `for (i = 0; i < n; i++) emit_long(0);`
unfoldable pub emit_zeros : ℕ → Emitter → Emitter
emit_zeros zero e = e
emit_zeros (suc n) e = emit_zeros n (emit_long e 0)

-- The two loops over the data of a sector.
unfoldable pub emit_even : Mem → ℕ → ℕ → Emitter → Emitter
emit_even src b zero e = e
emit_even src b (suc n) e = emit_even src (b + 4) n (emit_long e (even (be32 src b)))

unfoldable pub emit_odd : Mem → ℕ → ℕ → Emitter → Emitter
emit_odd src b zero e = e
emit_odd src b (suc n) e = emit_odd src (b + 4) n (emit_long e (odd (be32 src b)))

-- "info word"
unfoldable pub sector_info : ℕ → ℕ → ℕ → ℕ
sector_info track nsec sec =
    bit_or (bit_or (bit_or (u32 (0xff * 2 ^ 24)) (u32 (track * 2 ^ 16))) (u32 (sec * 2 ^ 8)))
      (u32 (nsec + 2 ^ 32 - sec))

-- "Sector header": the gap, the sync, the info word, the label and the two checksums.
unfoldable pub emit_header : Mem → ℕ → ℕ → Emitter → Emitter
unfolding emit_zeros
emit_header src b info e =
    let gap = emit_raw (emit_long e 0) 0x44894489 in
    let label = emit_zeros 8 (emit_long (emit_long gap (even info)) (odd info)) in
    let header = emit_long (emit_long label 0) (odd (bit_xor info (info / 2))) in
    emit_long (emit_long header 0) (odd (amigados_dat_checksum src b 512))

-- One round of the loop over the sectors.
unfoldable pub emit_sector : Mem → ℕ → ℕ → Emitter → Emitter
unfolding emit_header emit_even emit_odd
emit_sector src b info e = emit_odd src b 128 (emit_even src b 128 (emit_header src b info e))

-- The rounds from sector `sec` on.
unfoldable pub emit_sectors : Mem → ℕ → ℕ → ℕ → ℕ → ℕ → Emitter → Emitter
emit_sectors src b track nsec sec zero e = e
emit_sectors src b track nsec sec (suc n) e =
    emit_sectors src (b + 512) track nsec (sec + 1) n
      (emit_sector src b (sector_info track nsec sec) e)

-- The buffer that is written, of `track_bytes / 2` long words; `end - q` of them are left for the gap.
unfoldable pub track_longs : Mem → ℕ → ℕ → ℕ → ℕ → Emitter
unfolding emit_sectors
track_longs src b track nsec track_bytes =
    let sectors =
      emit_sectors src b track nsec 0 nsec (emit_zeros 32 (record { pr = 0; longs = [] })) in
    emit_zeros (track_bytes / 2 - length sectors.longs) sectors

-- `amiga_track_write`: what is given to `floppy_write`, or `none` when the ASSERT fails.
unfoldable pub amiga_track_write : Mem → ℕ → ℕ → ℕ → Option (List ℕ)
amiga_track_write src buf track nsec =
    let track_bytes = 110000 / 32 * 2 in
    if nsec == 11
    then some (track_longs src buf track nsec track_bytes).longs
    else if nsec == 22
    then some (track_longs src buf track nsec (track_bytes * 2)).longs
    else none
