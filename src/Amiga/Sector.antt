-- ===== src/Amiga/Sector.antt =====
-- A sector of an AmigaDOS track that `amiga_track_write` has put into the buffer, read by
-- `amiga_track_read`.
use flashfloppy_testbed.Prelude.{
  ℕ, zero, suc, ◌+◌, ◌-◌, ◌*◌, ◌^◌, ◌<◌, ◌≤◌, ◌≡◌, ◌∙◌, refl, sym, ap, ap₂, arith, ◌∷◌, ◌++◌, map,
  drop, take, get_or, bit_or,
}
use flashfloppy_testbed.Bits.And.{bit_or_sum}
use flashfloppy_testbed.Mem.{Mem, IsMem, u32}
use flashfloppy_testbed.Amiga.{be32, get_long, even}
use flashfloppy_testbed.Amiga.Write.{sector_info}
use flashfloppy_testbed.Amiga.Cells.{data_of}
use flashfloppy_testbed.Amiga.Checksum.{longs}
use flashfloppy_testbed.Amiga.Swap.{get_long-joined}
use flashfloppy_testbed.Amiga.Block.{sector_longs}

pub sector_info_lem :
    (track nsec sec : ℕ)
    → track < 256
    → nsec < 256
    → sec < nsec
    → sector_info track nsec sec ≡ 0xff * 2 ^ 24 + track * 2 ^ 16 + sec * 2 ^ 8 + (nsec - sec)
unfolding sector_info
sector_info_lem track nsec sec h k l =
    ap₂ (λ s t. bit_or (bit_or (bit_or (0xff * 2 ^ 24) s) t) (u32 (nsec + 2 ^ 32 - sec))) track_fits
      sec_fits
    ∙ ap (bit_or (bit_or (bit_or (0xff * 2 ^ 24) (track * 2 ^ 16)) (sec * 2 ^ 8))) togo
    ∙ ap (λ t. bit_or (bit_or t (sec * 2 ^ 8)) (nsec - sec))
        (bit_or_sum 24 0xff (track * 2 ^ 16) (omega arith) ∙ word)
    ∙ ap (λ t. bit_or t (nsec - sec))
        (bit_or_sum 16 (0xff * 2 ^ 8 + track) (sec * 2 ^ 8) (omega arith) ∙ long)
    ∙ bit_or_sum 8 (0xff * 2 ^ 16 + track * 2 ^ 8 + sec) (nsec - sec) (omega arith)
    ∙ omega arith
  where
    track_fits : u32 (track * 2 ^ 16) ≡ track * 2 ^ 16
    track_fits = omega arith

    sec_fits : u32 (sec * 2 ^ 8) ≡ sec * 2 ^ 8
    sec_fits = omega arith

    togo : u32 (nsec + 2 ^ 32 - sec) ≡ nsec - sec
    togo = omega arith

    word : 0xff * 2 ^ 24 + track * 2 ^ 16 ≡ (0xff * 2 ^ 8 + track) * 2 ^ 16
    word = omega arith

    long :
        (0xff * 2 ^ 8 + track) * 2 ^ 16 + sec * 2 ^ 8
        ≡ (0xff * 2 ^ 16 + track * 2 ^ 8 + sec) * 2 ^ 8
    long = omega arith

get_or-longs :
    (f : ℕ → ℕ) (m : Mem) (p n i : ℕ)
    → i < n
    → get_or (map f (longs m p n)) i 0 ≡ f (be32 m (p + 4 * i))
get_or-longs f m p zero i h = absurd (omega arith)
get_or-longs f m p (suc n) zero h = ap (λ t. f (be32 m t)) (omega arith)
get_or-longs f m p (suc n) (suc i) h =
    get_or-longs f m (p + 4) n i (omega arith) ∙ ap (λ t. f (be32 m t)) (omega arith)

pub drop-longs :
    (f : ℕ → ℕ) (m : Mem) (p k n t q : ℕ)
    → t ≡ k + n
    → q ≡ p + 4 * k
    → drop k (map f (longs m p t)) ≡ map f (longs m q n)
drop-longs f m p zero n t q e g = ap₂ (λ s u. map f (longs m s u)) (omega arith) (omega arith)
drop-longs f m p (suc k) n zero q e g = absurd (omega arith)
drop-longs f m p (suc k) n (suc t) q e g =
    drop-longs f m (p + 4) k n t q (omega arith) (omega arith)

pub take-longs :
    (f : ℕ → ℕ) (m : Mem) (p k n : ℕ) → k ≤ n → take k (map f (longs m p n)) ≡ map f (longs m p k)
take-longs f m p zero n h = refl
take-longs f m p (suc k) zero h = absurd (omega arith)
take-longs f m p (suc k) (suc n) h =
    ap (λ l. f (be32 m p) ∷ l) (take-longs f m (p + 4) k n (omega arith))

-- A sector whose data bits are in memory, behind its sync at `p`.
module _ (m src : Mem) (p b info : ℕ) (h : IsMem m) (small : info < 2 ^ 32)
    (held : map (data_of 16) (longs m (p + 4) 270)
      ≡ map (data_of 16) (sector_longs src b info)) where
  held_at :
      (i q : ℕ)
      → i < 270
      → q ≡ p + 4 + 4 * i
      → data_of 16 (be32 m q) ≡ get_or (map (data_of 16) (sector_longs src b info)) i 0
  held_at i q l e =
      ap (λ t. data_of 16 (be32 m t)) e
      ∙ sym (get_or-longs (data_of 16) m (p + 4) 270 i l)
      ∙ ap (λ l. get_or l i 0) held

  pub get_long-info : get_long m (p + 4) ≡ info
  unfolding even
  get_long-info =
      get_long-joined m (p + 4) info h small (held_at 0 (p + 4) (omega arith) (omega arith))
        (held_at 1 (p + 4 + 4) (omega arith) (omega arith))

  pub held_data :
      map (data_of 16) (longs m (p + 60) 256)
      ≡ map (data_of 16) (map even (longs src b 128) ++ longs src b 128)
  held_data =
      sym (drop-longs (data_of 16) m (p + 4) 14 256 270 (p + 60) (omega arith) (omega arith))
      ∙ ap (drop 14) held
