-- ===== src/Drive/Seek.antt =====
-- Seeking: where the heads of a drive end up.
use flashfloppy_testbed.Prelude.{
  ℕ, zero, suc, ◌+◌, ◌-◌, ◌<◌, ◌≤◌, ◌≡◌, ◌≢◌, ◌⊎◌, inl, inr, ◌∙◌, refl, sym, ap, arith,
}
use flashfloppy_testbed.Prelude.{Bool, ltb, ◌==◌, Bool-cases}
use flashfloppy_testbed.Mem.{u8}
use flashfloppy_testbed.Drive.{
  side, trk0_pin, Bus, Drives, cur_drive, set_cyl, done, delay_ms, step_one_out, step_one_in,
  find_trk0, seek_in, seek_out, recalibrate, floppy_seek,
}

-- What a drive does, `track` being where its heads are: a step moves them by one, outwards not past
-- cylinder 0, which its sensor reports; nothing else that a seek does moves them.
pub record IsDrive {W : Type 0} (b : Bus W) (track : W → ℕ) : Type 0 where
  pub inward : (w : W) → track (step_one_in b w) ≡ track w + 1
  pub outward : (w : W) → track (step_one_out b w) ≡ track w - 1
  pub sensor : (w : W) → b.read trk0_pin w ≡ (track w == 0)
  pub side_still : (x : Bool) (w : W) → track (b.write side x w) ≡ track w
  pub delay_still : (n : ℕ) (w : W) → track (b.delay_ns n w) ≡ track w

module _ {W : Type 0} (b : Bus W) (track : W → ℕ) (d : IsDrive b track) where
  find_trk0-done :
      (fuel : ℕ) (w : W)
      → track w < fuel
      → (w' : W) × (find_trk0 b fuel w ≡ done w') × (track w' ≡ 0)
  unfolding find_trk0
  find_trk0-done zero w h = absurd (omega arith)
  find_trk0-done (suc fuel) w h = elim (Bool-cases (b.read trk0_pin w)) [
    | inl e ↦ (w, rw e refl, ground (arith, d.sensor w))
    | inr e ↦
        let more =
          find_trk0-done fuel (step_one_out b w) (ground (arith, d.sensor w, d.outward w)) in
        (more.0, rw e more.1, more.2)
  ]

  -- The first loop ends at the requested cylinder or further in.
  seek_in-done :
      (fuel cyl at : ℕ) (w : W)
      → cyl < 256
      → at ≡ track w
      → cyl - at < fuel
      → (at' : ℕ) × (w' : W) × (seek_in b fuel cyl at w ≡ done (at', w'))
        × (track w' ≡ at')
        × (cyl ≤ at')
        × ((at' ≡ cyl) ⊎ (at' ≡ at))
  unfolding seek_in
  seek_in-done zero cyl at w c e h = absurd (omega arith)
  seek_in-done (suc fuel) cyl at w c e h = elim (Bool-cases (ltb at cyl)) [
    | inl more ↦
        let rest =
          seek_in-done fuel cyl (u8 (at + 1)) (step_one_in b w) c (ground (arith, d.inward w))
            (ground arith) in
        (rest.0, rest.1, rw more rest.2, rest.3, rest.4, inl (ground (arith, rest.4, rest.5)))
    | inr stop ↦ (at, w, rw stop refl, sym e, ground arith, inr refl)
  ]

  -- The second ends at it, or further out if it started there.
  seek_out-done :
      (fuel cyl at : ℕ) (w : W)
      → cyl ≤ at
      → at ≡ track w
      → at - cyl < fuel
      → (w' : W) × (seek_out b fuel cyl at w ≡ done (cyl, w')) × (track w' ≡ cyl)
  unfolding seek_out
  seek_out-done zero cyl at w c e h = absurd (omega arith)
  seek_out-done (suc fuel) cyl at w c e h = elim (Bool-cases (ltb cyl at)) [
    | inl more ↦
        let rest =
          seek_out-done fuel cyl (at - 1) (step_one_out b w) (ground arith)
            (ground (arith, d.outward w)) (ground arith) in
        (rest.0, rw more rest.1, rest.2)
    | inr stop ↦
        let same : at ≡ cyl = ground arith in
        (w, rw stop (ap (λ n. done (n, w)) same), sym e ∙ same)
  ]

  recalibrate-done :
      (fuel cyl at : ℕ) (w : W)
      → (cyl ≢ 0 → at ≡ track w)
      → track w < fuel
      → (at' : ℕ) × (w' : W) × (recalibrate b fuel cyl at w ≡ done (at', w'))
        × (at' ≡ track w')
        × (at' ≤ track w)
  unfolding recalibrate
  recalibrate-done fuel cyl at w e h = elim (Bool-cases (cyl == 0)) [
    | inl home ↦
        let found = find_trk0-done fuel w h in
        (0, found.0, rw (home, found.1) refl, sym found.2, omega arith)
    | inr other ↦ let same = e (ground arith) in (at, w, rw other refl, same, omega arith)
  ]

  -- A seek to a cylinder below 256 returns, given as many rounds for each of its loops as the larger
  -- of the two cylinders and one more, with the heads at that cylinder and its number in `cyl`. It
  -- needs to know where the heads are, except to go to cylinder 0, which it finds by the sensor.
  pub floppy_seek-done :
      (fuel cyl : ℕ) (side' : Bool) (s : Drives) (w : W)
      → cyl < 256
      → (cyl ≢ 0 → (cur_drive s).cyl ≡ track w)
      → cyl < fuel
      → track w < fuel
      → (w' : W) × (floppy_seek b fuel cyl side' s w ≡ done (set_cyl s cyl, w')) × (track w' ≡ cyl)
  unfolding floppy_seek
  floppy_seek-done fuel cyl side' s w c e f g =
      let sided = b.write side side' w in
      let r =
        recalibrate-done fuel cyl (cur_drive s).cyl sided (λ ne. e ne ∙ sym (d.side_still side' w))
          (omega (arith, d.side_still side' w)) in
      let i = seek_in-done fuel cyl r.0 r.1 c r.3 (omega arith) in
      let o =
        seek_out-done fuel cyl i.0 i.1 i.4 (sym i.3)
          (ground (arith, r.4, i.5, d.side_still side' w)) in
      (delay_ms b 10 o.0, rw (r.2, i.2, o.1) refl, d.delay_still 10000000 o.0 ∙ o.2)
