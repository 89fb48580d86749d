-- ===== src/Ibm/Track/Segments.antt =====
-- A track as a list of segments: each has sync bytes, which the drive writes with a missing clock.
use mathlib.Core.List.{append_assoc}
use flashfloppy_testbed.Prelude.{ℕ, ◌+◌, ◌*◌, ◌<◌, ◌≡◌, inl, inr, ◌∙◌, refl, ap, ap₂, sym, arith}
use flashfloppy_testbed.Prelude.{List, [], ◌∷◌, ◌++◌, length, length-append, drop, All}
use flashfloppy_testbed.Mem.{Mem, words, put_words}
use flashfloppy_testbed.Mem.Bytes.{words_ext}
use flashfloppy_testbed.Mem.Words.{
  words-append, words-put_words_inside, put_words_outside, words_split,
}
use flashfloppy_testbed.Mfm.Words.{encode, last_of, encode-append, length-encode}
use flashfloppy_testbed.Ibm.Write.{fix_sync}
use flashfloppy_testbed.Ibm.Write.Cells.{fix_sync-put_words}
use flashfloppy_testbed.Ibm.Track.{fix_syncs}

-- What stands before the three sync bytes, and behind them up to the next segment.
pub record Segment : Type 0 where
  pub before : List ℕ
  pub behind : List ℕ

abbrev pub segment_bytes : List Segment → List ℕ → List ℕ
segment_bytes [] tail = tail
segment_bytes (s ∷ ss) tail = s.before ++ (0xa1 ∷ 0xa1 ∷ 0xa1 ∷ (s.behind ++ segment_bytes ss tail))

-- The bitcells behind the byte `prev`.
abbrev pub segment_cells : ℕ → List Segment → List ℕ → List ℕ
segment_cells prev [] tail = encode prev tail
segment_cells prev (s ∷ ss) tail =
    encode prev s.before
    ++ (0x4489
        ∷ 0x4489
        ∷ 0x4489
        ∷ (encode 0xa1 s.behind ++ segment_cells (last_of 0xa1 s.behind) ss tail))

-- Where the sync bytes are, counted from the segments' start at `off`.
abbrev pub segment_syncs : ℕ → List Segment → List ℕ
segment_syncs off [] = []
segment_syncs off (s ∷ ss) =
    (off + length s.before) ∷ segment_syncs (off + (length s.before + 3 + length s.behind)) ss

fix_sync_below : (m : Mem) (s a : ℕ) → a < s → fix_sync m s a ≡ m a
fix_sync_below m s a h = rw (fix_sync-put_words m s) (
    put_words_outside (0x4489 ∷ 0x4489 ∷ 0x4489 ∷ []) m s a
      (omega arith, (omega arith, (omega arith, tt))) (inl h))

pub fix_syncs_below :
    (ss : List Segment) (m : Mem) (p off a : ℕ)
    → a < p + 2 * off
    → fix_syncs m p (segment_syncs off ss) a ≡ m a
unfolding fix_syncs
fix_syncs_below [] m p off a h = refl
fix_syncs_below (s ∷ ss) m p off a h =
    fix_syncs_below ss (fix_sync m (p + 2 * (off + length s.before))) p
      (off + (length s.before + 3 + length s.behind)) a (omega arith)
    ∙ fix_sync_below m (p + 2 * (off + length s.before)) a (omega arith)

-- The words of one segment and of what follows it, before and after its sync words are fixed.
module _ (m : Mem) (q prev : ℕ) (s : Segment) (rest : List ℕ) (n : ℕ)
    (count : n ≡ length s.before + (3 + (length s.behind + length rest)))
    (read : words m q n ≡ encode prev (s.before ++ (0xa1 ∷ 0xa1 ∷ 0xa1 ∷ (s.behind ++ rest)))) where
  abbrev marks : ℕ
  marks = q + length s.before * 2

  abbrev after : ℕ
  after = marks + 6 + length s.behind * 2

  first_split :
      (words m q (length s.before) ≡ encode prev s.before)
      × (words m marks (3 + (length s.behind + length rest))
          ≡ encode (last_of prev s.before) (0xa1 ∷ 0xa1 ∷ 0xa1 ∷ (s.behind ++ rest)))
  first_split =
      words_split m q (length s.before) (3 + (length s.behind + length rest)) marks n
        (encode prev s.before)
        (encode (last_of prev s.before) (0xa1 ∷ 0xa1 ∷ 0xa1 ∷ (s.behind ++ rest)))
        (sym (length-encode prev s.before)) refl count
        (read ∙ encode-append prev s.before (0xa1 ∷ 0xa1 ∷ 0xa1 ∷ (s.behind ++ rest)))

  behind_marks :
      words m (marks + 6) (length s.behind + length rest)
      ≡ encode 0xa1 s.behind ++ encode (last_of 0xa1 s.behind) rest
  behind_marks =
      ap (drop 3) (
        sym (
          words-append m marks 3 (length s.behind + length rest) (marks + 6)
            (3 + (length s.behind + length rest)) refl refl)
        ∙ first_split.1)
      ∙ encode-append 0xa1 s.behind rest

  second_split :
      (words m (marks + 6) (length s.behind) ≡ encode 0xa1 s.behind)
      × (words m after (length rest) ≡ encode (last_of 0xa1 s.behind) rest)
  second_split =
      words_split m (marks + 6) (length s.behind) (length rest) after
        (length s.behind + length rest) (encode 0xa1 s.behind) (encode (last_of 0xa1 s.behind) rest)
        (sym (length-encode 0xa1 s.behind)) refl refl behind_marks

  abbrev syncs : List ℕ
  syncs = 0x4489 ∷ 0x4489 ∷ 0x4489 ∷ []

  syncs_small : All (λ w. w < 65536) syncs
  syncs_small = (omega arith, (omega arith, (omega arith, tt)))

  abbrev fixed : Mem
  fixed = fix_sync m marks

  fixed_segment :
      words fixed q (length s.before + 3 + length s.behind)
      ≡ encode prev s.before ++ (syncs ++ encode 0xa1 s.behind)
  fixed_segment =
      ap (λ r. words r q (length s.before + 3 + length s.behind)) (fix_sync-put_words m marks)
      ∙ words-put_words_inside m q (length s.before) syncs (length s.behind) marks (marks + 6)
          (length s.before + 3 + length s.behind) syncs_small refl refl refl
      ∙ ap₂ (λ (a b : List ℕ). a ++ (syncs ++ b)) first_split.0 second_split.0

  fixed_rest : words fixed after (length rest) ≡ encode (last_of 0xa1 s.behind) rest
  fixed_rest =
      ap (λ r. words r after (length rest)) (fix_sync-put_words m marks)
      ∙ words_ext (put_words m marks syncs) m after (length rest)
          (λ a l u. put_words_outside syncs m marks a syncs_small (inr (omega arith)))
      ∙ second_split.1

-- Fixing the sync words of all segments in MFM gives the track as the drive delivers it.
pub fix_syncs-segment_cells :
    (ss : List Segment) (m : Mem) (p off q prev : ℕ) (tail : List ℕ) (n : ℕ)
    → q ≡ p + 2 * off
    → n ≡ length (segment_bytes ss tail)
    → words m q n ≡ encode prev (segment_bytes ss tail)
    → words (fix_syncs m p (segment_syncs off ss)) q n ≡ segment_cells prev ss tail
unfolding fix_syncs
fix_syncs-segment_cells [] m p off q prev tail n e f read = read
fix_syncs-segment_cells (s ∷ ss) m p off q prev tail n e f read =
    ap (λ a. words (fix_syncs (fix_sync m a) p later) q n) place
    ∙ words-append (fix_syncs done p later) q span (length rest) next n (omega arith)
        (omega (arith, count))
    ∙ ap₂ ◌++◌
        (words_ext (fix_syncs done p later) done q span
            (λ a l u. fix_syncs_below ss done p (off + span) a (omega (arith, e)))
          ∙ fixed_segment m q prev s rest n count read)
        (fix_syncs-segment_cells ss done p (off + span) next (last_of 0xa1 s.behind) tail
          (length rest) (omega (arith, e)) refl (fixed_rest m q prev s rest n count read))
    ∙ append_assoc (encode prev s.before) (0x4489 ∷ 0x4489 ∷ 0x4489 ∷ encode 0xa1 s.behind) _
  where
    rest : List ℕ
    rest = segment_bytes ss tail

    span : ℕ
    span = length s.before + 3 + length s.behind

    next : ℕ
    next = q + length s.before * 2 + 6 + length s.behind * 2

    later : List ℕ
    later = segment_syncs (off + (length s.before + 3 + length s.behind)) ss

    done : Mem
    done = fix_sync m (q + length s.before * 2)

    place : p + 2 * (off + length s.before) ≡ q + length s.before * 2
    place = omega (arith, e)

    count : n ≡ length s.before + (3 + (length s.behind + length rest))
    count = omega (
      arith,
      f,
      length-append {0} s.before (0xa1 ∷ 0xa1 ∷ 0xa1 ∷ (s.behind ++ rest)),
      length-append {0} s.behind rest,
    )
