-- ===== src/Amiga/Read.antt =====
-- src/amiga.c: `amiga_track_read`. Each call of `floppy_read` is an element of a list of scans.
use flashfloppy_testbed.Prelude.{
  ℕ, zero, suc, ◌+◌, ◌-◌, ◌*◌, ◌/◌, ◌^◌, List, [], ◌∷◌, ◌++◌, Bool, not,
}
use flashfloppy_testbed.Prelude.{Option, none, some, ◌==◌, leb, if◌then◌else◌}
use flashfloppy_testbed.Mem.{Mem, u8, u32}
use flashfloppy_testbed.Util.Memory.{memcpy, load32, store32}
use flashfloppy_testbed.Mfm.{rev32, mfm_check}
use flashfloppy_testbed.Amiga.{join, get_long, amigados_mfm_checksum}

-- One `floppy_read`: the long words that it puts into the buffer, and `index.count` before it.
pub record Scan : Type 0 where
  pub longs : List ℕ
  pub count : ℕ

pub data Warning : Type 0 where
  late_index : Warning
  bad_sync bad_word : ℕ → Warning
  bad_format bad_track bad_sector bad_togo bad_header bad_data : Warning

abbrev pub warn_on : Bool → Warning → List Warning
warn_on b w = if b then w ∷ [] else []

abbrev pub bad_words : List ℕ → List Warning
bad_words [] = []
bad_words (i ∷ is) = bad_word i ∷ bad_words is

-- What a read leaves in the buffer.
unfoldable pub put_longs : Mem → ℕ → List ℕ → Mem
put_longs m p [] = m
put_longs m p (l ∷ ls) = put_longs (store32 m p (rev32 l)) (p + 4) ls

-- "Scan for the last sector before track gap": the memory, the warnings, and the scans to come.
-- `none` still waits.
unfoldable pub find_last :
    Mem → ℕ → List Warning → List Scan → Option (Mem × List Warning × List Scan)
find_last m p warnings [] = none
find_last m p warnings (s ∷ rest) =
    let warned = warnings ++ warn_on (leb 2 s.count) late_index in
    let read = put_longs m p s.longs in
    let again = find_last read p warned rest in
    if u8 (get_long read (p + 4)) == 1 then some (read, warned, rest) else again

-- The loop that replaces the syncs by words that obey the rule of MFM, from sector `i` on.
unfoldable pub fix_syncs : Mem → ℕ → ℕ → ℕ → Mem × List Warning
fix_syncs m p i zero = (m, [])
fix_syncs m p i (suc n) =
    let at = p + i * 272 * 4 in
    let (fixed, warnings) = fix_syncs (store32 m at (rev32 0x44a944a9)) p (i + 1) n in
    (fixed, warn_on (not (load32 m at == rev32 0x44894489)) (bad_sync i) ++ warnings)

-- "Decode the data", in place.
unfoldable pub decode_data : Mem → ℕ → ℕ → ℕ → Mem
decode_data m p q zero = m
decode_data m p q (suc n) =
    decode_data (store32 m p (join (load32 m p) (load32 m q))) (p + 4) (q + 4) n

-- The warnings of one round: the info longword and the checksums.
unfoldable pub sector_warnings : Mem → ℕ → ℕ → ℕ → ℕ → List Warning
sector_warnings m p track nsec i =
    let info = get_long m (p + 4) in
    warn_on (not (info / 2 ^ 24 == 0xff)) bad_format
    ++ (warn_on (not (u8 (info / 2 ^ 16) == track)) bad_track
        ++ (warn_on (leb nsec (u8 (info / 2 ^ 8))) bad_sector
            ++ (warn_on (not (u8 info == u32 (nsec + 2 ^ 32 - i))) bad_togo
                ++ (warn_on (not (amigados_mfm_checksum m (p + 4) 10 == get_long m (p + 44)))
                      bad_header
                    ++ warn_on (not (amigados_mfm_checksum m (p + 60) 256 == get_long m (p + 52)))
                        bad_data))))

-- The memory behind one round: the data of the sector goes to its place in `buf`.
unfoldable pub sector_data : Mem → ℕ → ℕ → Mem
sector_data m buf p =
    let sec = u8 (get_long m (p + 4) / 2 ^ 8) in
    memcpy (decode_data m (p + 60) (p + 60 + 512) 128) (buf + sec * 512) (p + 60) 512

-- The rounds from the `i`th on; the next sector is 272 long words on.
unfoldable pub read_sectors : Mem → ℕ → ℕ → ℕ → ℕ → ℕ → ℕ → Mem × List Warning
read_sectors m buf p track nsec i zero = (m, [])
read_sectors m buf p track nsec i (suc n) =
    let (read, warnings) =
      read_sectors (sector_data m buf p) buf (p + 272 * 4) track nsec (i + 1) n in
    (read, sector_warnings m p track nsec i ++ warnings)

infixl 5 ◌>>=◌
abbrev ◌>>=◌ : {A B : Type 0} → Option A → (A → Option B) → Option B
none >>= f = none
some a >>= f = f a

-- `amiga_track_read`, with its buffer at `p`.
unfoldable pub amiga_track_read :
    Mem → ℕ → ℕ → ℕ → ℕ → List Scan → Option (Mem × List Warning × List Scan)
unfolding find_last fix_syncs read_sectors
amiga_track_read m p buf track nsec scans = do
  (found, late, rest) ← find_last m p [] scans
  (s, rest') ← first rest
  let (fixed, syncs) = fix_syncs (put_longs found p s.longs) p 0 nsec
  let (read, bad) = read_sectors fixed buf p track nsec 0 nsec
  some (
    read,
    late ++ (syncs ++ (bad_words (mfm_check fixed p (u32 (544 * nsec - 2))) ++ bad)),
    rest',
  )
  where
    first : List Scan → Option (Scan × List Scan)
    first [] = none
    first (s ∷ rest) = some (s, rest)
