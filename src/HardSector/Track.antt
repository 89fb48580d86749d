-- ===== src/HardSector/Track.antt =====
-- A disk with hard sectors that turns evenly: an index for each sector, and one in the middle of the
-- last sector.
use flashfloppy_testbed.Prelude.{
  ℕ, zero, suc, ◌+◌, ◌-◌, ◌/◌, ◌^◌, ◌<◌, ◌≤◌, ◌≡◌, ◌∙◌, refl, ap, ap₂, arith, List, [], ◌∷◌, ◌++◌,
  replicate, Bool, true, false, ◌==◌, if◌then◌else◌, Option, some,
}
use flashfloppy_testbed.Prelude.Int.{pos}
use flashfloppy_testbed.Mem.{u32}
use flashfloppy_testbed.Timer.{time_diff}
use flashfloppy_testbed.HardSector.{
  Watch, watch, next_index, get_index_period, near, astray, then_period, find_period, then_found,
  wait_for_hard_sector_trkstart, warned_too, then_checked, check_periods, check_hard_sector_indexes,
}

-- The times of the index for periods `ps` from `s` on, and the last of them.
abbrev pub stamps : ℕ → List ℕ → List ℕ
stamps s [] = []
stamps s (p ∷ ps) = u32 (s + p) ∷ stamps (u32 (s + p)) ps

abbrev pub after : ℕ → List ℕ → ℕ
after s [] = s
after s (p ∷ ps) = after (u32 (s + p)) ps

next_period :
    (s p : ℕ) (ps : List ℕ)
    → s < 2 ^ 32
    → 0 < p
    → p < 2 ^ 31
    → get_index_period (watch s (stamps s (p ∷ ps)))
      ≡ some (pos p, watch (u32 (s + p)) (stamps (u32 (s + p)) ps))
unfolding get_index_period next_index
next_period s p ps h k l =
    let moved : (u32 (s + p) == s) ≡ false = ground arith in
    rw moved
      (ap (λ j. some (j, watch (u32 (s + p)) (stamps (u32 (s + p)) ps))) (difference s p h l))
  where
    difference : (s p : ℕ) → s < 2 ^ 32 → p < 2 ^ 31 → time_diff s (u32 (s + p)) ≡ pos p
    difference s p h l = ground arith

near_itself : (d : ℕ) → near d (pos d) ≡ true
unfolding near
near_itself d = ground arith

astray_itself : (d : ℕ) → astray d (pos d) ≡ false
unfolding astray
astray_itself d = ground arith

near_half : (d : ℕ) → 7200 ≤ d → near d (pos (d / 2)) ≡ false
unfolding near
near_half d h = ground arith

near_twice : (d : ℕ) → 7200 ≤ d → near (d / 2) (pos d) ≡ false
unfolding near
near_twice d h = ground arith

after-lt : (s : ℕ) (ps : List ℕ) → s < 2 ^ 32 → after s ps < 2 ^ 32
after-lt s [] h = h
after-lt s (p ∷ ps) h = after-lt (u32 (s + p)) ps (omega arith)

find_hit :
    (d i n s p : ℕ) (ps : List ℕ)
    → s < 2 ^ 32
    → 0 < p
    → p < 2 ^ 31
    → near d (pos p) ≡ true
    → find_period d i (suc n) (watch s (stamps s (p ∷ ps)))
      ≡ some (i, watch (u32 (s + p)) (stamps (u32 (s + p)) ps))
unfolding find_period
find_hit d i n s p ps h k l e =
    ap
      (λ r.
        then_period r
          (λ j v. let rest = find_period d (i + 1) n v in if near d j then some (i, v) else rest))
      (next_period s p ps h k l)
    ∙ ap
        (λ b.
          if b
          then some (i, watch (u32 (s + p)) (stamps (u32 (s + p)) ps))
          else find_period d (i + 1) n (watch (u32 (s + p)) (stamps (u32 (s + p)) ps)))
        e

find_miss :
    (d i n s p : ℕ) (ps : List ℕ)
    → s < 2 ^ 32
    → 0 < p
    → p < 2 ^ 31
    → near d (pos p) ≡ false
    → find_period d i (suc n) (watch s (stamps s (p ∷ ps)))
      ≡ find_period d (i + 1) n (watch (u32 (s + p)) (stamps (u32 (s + p)) ps))
unfolding find_period
find_miss d i n s p ps h k l e =
    ap
      (λ r.
        then_period r
          (λ j v. let rest = find_period d (i + 1) n v in if near d j then some (i, v) else rest))
      (next_period s p ps h k l)
    ∙ ap
        (λ b.
          if b
          then some (i, watch (u32 (s + p)) (stamps (u32 (s + p)) ps))
          else find_period d (i + 1) n (watch (u32 (s + p)) (stamps (u32 (s + p)) ps)))
        e

-- So many periods of another length are passed over.
find_misses :
    (k d i j n t s p : ℕ) (ps : List ℕ)
    → s < 2 ^ 32
    → 0 < p
    → p < 2 ^ 31
    → near d (pos p) ≡ false
    → t ≡ k + n
    → j ≡ i + k
    → find_period d i t (watch s (stamps s (replicate k p ++ ps)))
      ≡ find_period d j n (watch (after s (replicate k p)) (stamps (after s (replicate k p)) ps))
find_misses zero d i j n t s p ps h k l e f g =
    let rounds : t ≡ n = omega (arith, f) in
    let from : i ≡ j = omega (arith, g) in
    ap₂ (λ a b. find_period d a b (watch s (stamps s ps))) from rounds
find_misses (suc m) d i j n zero s p ps h k l e f g = absurd (omega (arith, f))
find_misses (suc m) d i j n (suc t) s p ps h k l e f g =
    find_miss d i t s p (replicate m p ++ ps) h k l e
    ∙ find_misses m d (i + 1) j n t (u32 (s + p)) p ps (omega arith) k l e (omega (arith, f))
        (omega (arith, g))

check_even :
    (n d s : ℕ) (ps : List ℕ)
    → s < 2 ^ 32
    → 0 < d
    → d < 2 ^ 31
    → check_periods d n (watch s (stamps s (replicate n d ++ ps)))
      ≡ some (false, watch (after s (replicate n d)) (stamps (after s (replicate n d)) ps))
unfolding check_periods
check_even zero d s ps h k l = refl
check_even (suc n) d s ps h k l =
    ap (λ r. then_period r (λ j v. warned_too (astray d j) (check_periods d n v)))
      (next_period s d (replicate n d ++ ps) h k l)
    ∙ ap₂ warned_too (astray_itself d) (check_even n d (u32 (s + d)) ps (omega arith) k l)

-- An evenly turning disk, of at least two sectors' time of 7200 ticks.
module _ (d sectors : ℕ) (long : 7200 ≤ d) (fits : d < 2 ^ 31) where
  -- Where the search for the start of a track stands behind it.
  abbrev pub found_at : ℕ → ℕ → ℕ → ℕ
  found_at s m k =
      after (after (after s (replicate m (d / 2))) (replicate k d)) (d / 2 ∷ d / 2 ∷ [])

  -- From anywhere on the track, with `m` half sectors and then `k` whole ones ahead until the last
  -- sector, `wait_for_hard_sector_trkstart` returns just behind the last sector, where the track
  -- starts, gives FALSE and does not warn.
  pub wait_for_hard_sector_trkstart-found_at :
      (s m k : ℕ) (ps : List ℕ)
      → s < 2 ^ 32
      → m ≤ 2
      → 0 < k
      → k ≤ sectors
      → wait_for_hard_sector_trkstart d sectors
          (watch s (stamps s (replicate m (d / 2) ++ (replicate k d ++ (d / 2 ∷ d / 2 ∷ ps)))))
        ≡ some (false, false, watch (found_at s m k) (stamps (found_at s m k) ps))
  unfolding wait_for_hard_sector_trkstart
  wait_for_hard_sector_trkstart-found_at s m zero ps h few some_ le = absurd (omega (arith, some_))
  wait_for_hard_sector_trkstart-found_at s m (suc k) ps h few some_ le =
      ap (λ r. then_found r (λ _ w1. then_found (find_period (d / 2) 0 (sectors + 1) w1) ending))
        first
      ∙ ap (λ r. then_found r ending) second
      ∙ ap (λ r. then_period r (λ j w3. some (k == sectors, astray (d / 2) j, w3)))
          (next_period s2 (d / 2) ps (omega arith) (omega arith) (omega arith))
      ∙ ap₂ (λ a b. some (a, b, watch (found_at s m (suc k)) (stamps (found_at s m (suc k)) ps)))
          (ground (arith, le)) (astray_itself (d / 2))
    where
      ending : ℕ → Watch → Option (Bool × Bool × Watch)
      ending i w2 =
          then_period (get_index_period w2) (λ j w3. some (i == sectors, astray (d / 2) j, w3))

      s0 : ℕ
      s0 = after s (replicate m (d / 2))

      s1 : ℕ
      s1 = after (u32 (s0 + d)) (replicate k d)

      s2 : ℕ
      s2 = u32 (s1 + d / 2)

      s0-lt : s0 < 2 ^ 32
      s0-lt = after-lt s (replicate m (d / 2)) h

      s1-lt : s1 < 2 ^ 32
      s1-lt = after-lt (u32 (s0 + d)) (replicate k d) (omega arith)

      first :
          find_period d 0 3 (
            watch s
              (stamps s (replicate m (d / 2) ++ (replicate (suc k) d ++ (d / 2 ∷ d / 2 ∷ ps)))))
          ≡ some (
            m,
            watch (u32 (s0 + d)) (stamps (u32 (s0 + d)) (replicate k d ++ (d / 2 ∷ d / 2 ∷ ps))),
          )
      first =
          find_misses m d 0 m (suc (2 - m)) 3 s (d / 2)
            (replicate (suc k) d ++ (d / 2 ∷ d / 2 ∷ ps)) h (omega arith) (omega arith)
            (near_half d long) (omega (arith, few)) (omega arith)
          ∙ find_hit d m (2 - m) s0 d (replicate k d ++ (d / 2 ∷ d / 2 ∷ ps)) s0-lt (omega arith)
              fits (near_itself d)

      second :
          find_period
            (d / 2)
            0
            (sectors + 1)
            (watch (u32 (s0 + d)) (stamps (u32 (s0 + d)) (replicate k d ++ (d / 2 ∷ d / 2 ∷ ps))))
          ≡ some (k, watch s2 (stamps s2 (d / 2 ∷ ps)))
      second =
          find_misses k (d / 2) 0 k (suc (sectors - k)) (sectors + 1) (u32 (s0 + d)) d
            (d / 2 ∷ d / 2 ∷ ps) (omega arith) (omega arith) fits (near_twice d long)
            (omega (arith, le)) (omega arith)
          ∙ find_hit (d / 2) k (sectors - k) s1 (d / 2) (d / 2 ∷ ps) s1-lt (omega arith)
              (omega arith) (near_itself (d / 2))

  -- From the start of a track, `check_hard_sector_indexes` checks just one track, and does not warn.
  pub check_hard_sector_indexes-after :
      (s : ℕ) (ps : List ℕ)
      → s < 2 ^ 32
      → check_hard_sector_indexes d sectors
          (watch s (stamps s (replicate (sectors - 1) d ++ (d / 2 ∷ d / 2 ∷ ps))))
        ≡ some (
          false,
          watch
              (after (after s (replicate (sectors - 1) d)) (d / 2 ∷ d / 2 ∷ []))
              (stamps (after (after s (replicate (sectors - 1) d)) (d / 2 ∷ d / 2 ∷ [])) ps),
        )
  unfolding check_hard_sector_indexes
  check_hard_sector_indexes-after s ps h =
      ap (λ r. then_checked r (λ b v. warned_too b (check_periods (d / 2) 2 v)))
        (check_even (sectors - 1) d s (d / 2 ∷ d / 2 ∷ ps) h (omega arith) fits)
      ∙ ap (warned_too false) (
          check_even 2 (d / 2) (after s (replicate (sectors - 1) d)) ps
            (after-lt s (replicate (sectors - 1) d) h) (omega arith) (omega arith))
