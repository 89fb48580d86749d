-- ===== src/Amiga/Block.antt =====
-- The long words that the emitters of `amiga_track_write` put into the buffer.
use flashfloppy_testbed.Prelude.{
  ℕ, zero, suc, ◌+◌, ◌/◌, ◌^◌, ◌<◌, ◌≡◌, ◌∙◌, refl, sym, ap, ap₂, arith, List, [], ◌∷◌, ◌++◌, map,
  replicate, reversed, reversed_injective, length, length-append, length-map, drop, All, All-append,
  bit_xor,
}
use flashfloppy_testbed.Mem.{Mem, IsMem}
use flashfloppy_testbed.Amiga.{be32, even, odd, amigados_dat_checksum}
use flashfloppy_testbed.Amiga.Write.{
  Emitter, clocked, emit_raw, emit_long, emit_zeros, emit_even, emit_odd, emit_header, emit_sector,
}
use flashfloppy_testbed.Amiga.Cells.{data_of, data_of_bound}
use flashfloppy_testbed.Amiga.Long.{cleared, data_of-emit_long}
use flashfloppy_testbed.Amiga.Checksum.{longs, xor_all, amigados_dat_checksum-xor_all}
use flashfloppy_testbed.Amiga.Swap.{be32-lt}
use flashfloppy_testbed.Bits.Xor.{bit_xor-lt}

abbrev emit_all : Emitter → List ℕ → Emitter
emit_all e [] = e
emit_all e (l ∷ ls) = emit_all (emit_long e l) ls

emit_all-append :
    (e : Emitter) (xs ys : List ℕ) → emit_all e (xs ++ ys) ≡ emit_all (emit_all e xs) ys
emit_all-append e [] ys = refl
emit_all-append e (x ∷ xs) ys = emit_all-append (emit_long e x) xs ys

-- What stands in the buffer for a list of long words, behind `pr`.
abbrev pub stored : ℕ → List ℕ → List ℕ
stored pr [] = []
stored pr (l ∷ ls) = cleared pr (clocked l) ∷ stored (clocked l) ls

length-stored : (pr : ℕ) (ls : List ℕ) → length (stored pr ls) ≡ length ls
length-stored pr [] = refl
length-stored pr (l ∷ ls) = ap suc (length-stored (clocked l) ls)

emit_all-stored :
    (e : Emitter) (ls : List ℕ) → (emit_all e ls).longs ≡ reversed (stored e.pr ls) e.longs
unfolding emit_long emit_raw
emit_all-stored e [] = refl
emit_all-stored e (l ∷ ls) = emit_all-stored (emit_long e l) ls

pub data_of-stored :
    (pr : ℕ) (ls : List ℕ)
    → All (λ l. l < 2 ^ 32) ls
    → map (data_of 16) (stored pr ls) ≡ map (data_of 16) ls
data_of-stored pr [] h = refl
data_of-stored pr (l ∷ ls) h =
    ap₂ ◌∷◌ (data_of-emit_long pr l h.0) (data_of-stored (clocked l) ls h.1)

emit_zeros-emit_all : (n : ℕ) (e : Emitter) → emit_zeros n e ≡ emit_all e (replicate n 0)
unfolding emit_zeros
emit_zeros-emit_all zero e = refl
emit_zeros-emit_all (suc n) e = emit_zeros-emit_all n (emit_long e 0)

emit_even-emit_all :
    (src : Mem) (b n : ℕ) (e : Emitter)
    → emit_even src b n e ≡ emit_all e (map even (longs src b n))
unfolding emit_even
emit_even-emit_all src b zero e = refl
emit_even-emit_all src b (suc n) e =
    emit_even-emit_all src (b + 4) n (emit_long e (even (be32 src b)))

emit_odd-emit_all :
    (src : Mem) (b n : ℕ) (e : Emitter) → emit_odd src b n e ≡ emit_all e (longs src b n)
unfolding emit_odd odd
emit_odd-emit_all src b zero e = refl
emit_odd-emit_all src b (suc n) e = emit_odd-emit_all src (b + 4) n (emit_long e (be32 src b))

-- A sector behind its sync.
abbrev pub header_longs : Mem → ℕ → ℕ → List ℕ
header_longs src b info =
    even info
    ∷ info
    ∷ (replicate 8 0 ++ (0 ∷ bit_xor info (info / 2) ∷ 0 ∷ amigados_dat_checksum src b 512 ∷ []))

abbrev pub sector_longs : Mem → ℕ → ℕ → List ℕ
sector_longs src b info = header_longs src b info ++ (map even (longs src b 128) ++ longs src b 128)

emit_header-emit_all :
    (src : Mem) (b info : ℕ) (e : Emitter)
    → emit_header src b info e
      ≡ emit_all (emit_raw (emit_long e 0) 0x44894489) (header_longs src b info)
unfolding emit_header emit_zeros odd
emit_header-emit_all src b info e = refl

emit_sector-emit_all :
    (src : Mem) (b info : ℕ) (e : Emitter)
    → emit_sector src b info e
      ≡ emit_all (emit_raw (emit_long e 0) 0x44894489) (sector_longs src b info)
unfolding emit_sector
emit_sector-emit_all src b info e =
    emit_odd-emit_all src b 128 (emit_even src b 128 (emit_header src b info e))
    ∙ ap (λ t. emit_all t (longs src b 128))
        (emit_even-emit_all src b 128 (emit_header src b info e)
          ∙ ap (λ t. emit_all t (map even (longs src b 128))) (emit_header-emit_all src b info e))
    ∙ sym (
        emit_all-append (emit_all start (header_longs src b info)) (map even (longs src b 128))
          (longs src b 128))
    ∙ sym (
        emit_all-append start (header_longs src b info)
          (map even (longs src b 128) ++ longs src b 128))
  where
    start : Emitter
    start = emit_raw (emit_long e 0) 0x44894489

length-longs : (m : Mem) (p n : ℕ) → length (longs m p n) ≡ n
length-longs m p zero = refl
length-longs m p (suc n) = ap suc (length-longs m (p + 4) n)

length-sector_longs : (src : Mem) (b info : ℕ) → length (sector_longs src b info) ≡ 270
length-sector_longs src b info = omega (
  arith,
  length-append (header_longs src b info) (map even (longs src b 128) ++ longs src b 128),
  length-append (map even (longs src b 128)) (longs src b 128),
  length-map even (longs src b 128),
  length-longs src b 128,
)

longs-lt : (m : Mem) (p n : ℕ) → IsMem m → All (λ l. l < 2 ^ 32) (longs m p n)
longs-lt m p zero h = tt
longs-lt m p (suc n) h = (be32-lt m p h, longs-lt m (p + 4) n h)

even-lt : (ls : List ℕ) → All (λ l. l < 2 ^ 32) ls → All (λ l. l < 2 ^ 32) (map even ls)
unfolding even
even-lt [] h = tt
even-lt (l ∷ ls) h = (omega (arith, h.0), even-lt ls h.1)

sector_longs-lt :
    (src : Mem) (b info : ℕ)
    → IsMem src
    → info < 2 ^ 32
    → All (λ l. l < 2 ^ 32) (sector_longs src b info)
unfolding even
sector_longs-lt src b info h small =
    All-append (λ l. l < 2 ^ 32) (header_longs src b info)
      (map even (longs src b 128) ++ longs src b 128)
      (
        half,
        (
          small,
          All-append (λ l. l < 2 ^ 32) (replicate 8 0)
              (0 ∷ bit_xor info (info / 2) ∷ 0 ∷ amigados_dat_checksum src b 512 ∷ []) (zeros 8)
              (zero_fits, (bit_xor-lt 32 info (info / 2) small half, (zero_fits, (checksum, tt)))),
        ),
      )
      (All-append (λ l. l < 2 ^ 32) (map even (longs src b 128)) (longs src b 128)
        (even-lt (longs src b 128) (longs-lt src b 128 h)) (longs-lt src b 128 h))
  where
    half : info / 2 < 2 ^ 32
    half = omega arith

    zero_fits : 0 < 2 ^ 32
    zero_fits = omega arith

    checksum : amigados_dat_checksum src b 512 < 2 ^ 32
    checksum = omega (
      arith,
      amigados_dat_checksum-xor_all src b,
      data_of_bound 16 (xor_all 0 (map even (longs src b 128) ++ longs src b 128)),
    )

    zeros : (n : ℕ) → All (λ l. l < 2 ^ 32) (replicate n 0)
    zeros zero = tt
    zeros (suc n) = (zero_fits, zeros n)

-- A sector in memory, with the gap before it already in the buffer: the data bits behind its sync are
-- those of the long words that went in.
pub data_of-emit_sector :
    (m src : Mem) (p b info : ℕ) (e : Emitter)
    → IsMem src
    → info < 2 ^ 32
    → reversed (longs m p 271) (emit_long e 0).longs ≡ (emit_sector src b info e).longs
    → map (data_of 16) (longs m (p + 4) 270) ≡ map (data_of 16) (sector_longs src b info)
data_of-emit_sector m src p b info e h small same =
    ap (λ l. map (data_of 16) (drop 1 l)) parts.0
    ∙ data_of-stored 0x44894489 (sector_longs src b info) (sector_longs-lt src b info h small)
  where
    parts :
        (longs m p 271
          ≡ cleared (clocked 0) 0x44894489 ∷ stored 0x44894489 (sector_longs src b info))
        × ((emit_long e 0).longs ≡ (emit_long e 0).longs)
    parts =
        unfold emit_long emit_raw in
        reversed_injective (longs m p 271)
          (cleared (clocked 0) 0x44894489 ∷ stored 0x44894489 (sector_longs src b info))
          (emit_long e 0).longs (emit_long e 0).longs
          (omega (
            arith,
            length-longs m p 271,
            length-stored 0x44894489 (sector_longs src b info),
            length-sector_longs src b info,
          ))
          (same
            ∙ ap (λ (t : Emitter). t.longs) (emit_sector-emit_all src b info e)
            ∙ emit_all-stored (emit_raw (emit_long e 0) 0x44894489) (sector_longs src b info))
