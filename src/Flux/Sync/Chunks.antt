-- ===== src/Flux/Sync/Chunks.antt =====
-- It makes no difference to a read how the samples are cut into chunks.
use flashfloppy_testbed.Prelude.{ℕ, ◌+◌, ◌-◌, ◌*◌, ◌^◌, ◌≡◌, ◌⊎◌, inl, inr, ◌∙◌, refl, sym, ap}
use flashfloppy_testbed.Prelude.{
  List, [], ◌∷◌, ◌++◌, true, false, ◌==◌, if◌then◌else◌, Bool-cases, Option, none, some,
}
use mathlib.Core.List.{append-nil}
use flashfloppy_testbed.Mem.{u16, u32}
use flashfloppy_testbed.Flux.{Reader, flux_loop, one_flux}
use flashfloppy_testbed.Flux.Sync.{
  Sync, Window, sync_found, shift_flux, sync_loop, wait_sync, fill, read_prep, ReadDone, from_mark,
  read_at, from_wait, sync_start,
}

abbrev pub joined : List (List ℕ) → List ℕ
joined [] = []
joined (c ∷ cs) = c ++ joined cs

-- A loop's result, if it is the whole: the reader, when it is full.
abbrev pub if_full : Reader → Option Reader
if_full r = if r.full then some r else none

flux_loop-append :
    (xs ys : List ℕ) (bc_max cell : ℕ) (s : Reader) (prev : ℕ)
    → s.full ≡ false
    → flux_loop bc_max cell s prev (xs ++ ys) ≡ (
        let (r, p) = flux_loop bc_max cell s prev xs in
        if r.full then (r, p) else flux_loop bc_max cell r p ys)
unfolding flux_loop
flux_loop-append [] ys bc_max cell s prev h = rw h refl
flux_loop-append (x ∷ xs) ys bc_max cell s prev h =
    elim (Bool-cases (one_flux bc_max cell s (u16 (x + 2 ^ 16 - prev))).full) [
      | inl f ↦ rw (f, f) refl
      | inr f ↦ rw f (
          flux_loop-append xs ys bc_max cell (one_flux bc_max cell s (u16 (x + 2 ^ 16 - prev))) x f)
    ]

pub fill-joined :
    (chunks : List (List ℕ)) (bc_max cell : ℕ) (s : Reader) (prev : ℕ)
    → s.full ≡ false
    → fill bc_max cell s prev chunks ≡ if_full (flux_loop bc_max cell s prev (joined chunks)).0
unfolding fill
fill-joined [] bc_max cell s prev h = unfold flux_loop in rw h refl
fill-joined (c ∷ cs) bc_max cell s prev h =
    elim (Bool-cases (flux_loop bc_max cell s prev c).0.full) [
      | inl f ↦ rw (flux_loop-append c (joined cs) bc_max cell s prev h, f, f) refl
      | inr f ↦
          rw (flux_loop-append c (joined cs) bc_max cell s prev h, f)
            (fill-joined cs bc_max cell (flux_loop bc_max cell s prev c).0
              (flux_loop bc_max cell s prev c).1 f)
    ]

sync_loop-append :
    (xs ys : List ℕ) (sync : Sync) (cell : ℕ) (s : Window)
    → sync_loop sync cell s (xs ++ ys) ≡ (
        let (w, left, found) = sync_loop sync cell s xs in
        if found == 0 then sync_loop sync cell w ys else (w, left ++ ys, found))
unfolding sync_loop
sync_loop-append [] ys sync cell s = refl
sync_loop-append (x ∷ xs) ys sync cell s =
    elim (Bool-cases (sync_found sync (shift_flux cell s x).bc_dat == 0)) [
      | inl miss ↦ rw miss (sync_loop-append xs ys sync cell (shift_flux cell s x))
      | inr found ↦ rw (found, found) refl
    ]

-- The wait either finds the mark that the whole run of samples has, and leaves the samples behind it,
-- or there is none.
wait_sync-joined :
    (chunks : List (List ℕ)) (sync : Sync) (cell : ℕ) (s : Window)
    → let (w, left, found) = sync_loop sync cell s (joined chunks) in
      ((wait_sync sync cell s chunks ≡ none) × ((found == 0) ≡ true))
      ⊎ ((rest : List (List ℕ)) × (wait_sync sync cell s chunks ≡ some (w, found, rest))
          × (joined rest ≡ left)
          × ((found == 0) ≡ false))
unfolding wait_sync
wait_sync-joined [] sync cell s = unfold sync_loop in inl (refl, refl)
wait_sync-joined (c ∷ cs) sync cell s = elim (Bool-cases ((sync_loop sync cell s c).2 == 0)) [
  | inl miss ↦
      rw (sync_loop-append c (joined cs) sync cell s, miss)
        (wait_sync-joined cs sync cell (sync_loop sync cell s c).0)
  | inr hit ↦
      rw (sync_loop-append c (joined cs) sync cell s, hit)
        (inr ((sync_loop sync cell s c).1 ∷ cs, refl, refl, hit))
]

-- The reader that starts behind a mark.
abbrev pub marked_reader : ℕ → (ℕ → ℕ) → ℕ → Reader
marked_reader dat buf found = record {
  bc_dat = dat;
  bc_prod = found;
  bc_buf = λ i. if i == 0 then dat else buf i;
  full = false;
}

from_mark-joined :
    (bc_max cell : ℕ) (buf : ℕ → ℕ) (start now found : ℕ) (w : Window) (xs ys : List (List ℕ))
    → joined xs ≡ joined ys
    → from_mark bc_max cell buf start now (w, found, xs)
      ≡ from_mark bc_max cell buf start now (w, found, ys)
unfolding from_mark
from_mark-joined bc_max cell buf start now found w xs ys e =
    ap (read_at (sync_start start now w.bc_prod found)) (
      fill-joined xs bc_max cell (marked_reader w.bc_dat buf found) w.prev refl
      ∙ ap (λ l. if_full (flux_loop bc_max cell (marked_reader w.bc_dat buf found) w.prev l).0) e
      ∙ sym (fill-joined ys bc_max cell (marked_reader w.bc_dat buf found) w.prev refl))

-- The read of one run of samples behind its mark.
abbrev pub whole_read : Sync → ℕ → ℕ → (ℕ → ℕ) → ℕ → ℕ → ℕ → List ℕ → Option ReadDone
whole_read sync bc_max cell buf cnt start now samples =
    let (w, left, found) = sync_loop sync cell (read_prep cnt) samples in
    if found == 0 then none else from_mark bc_max cell buf start now (w, found, left ∷ [])

module _ (nr_words cell : ℕ) (buf : ℕ → ℕ) (cnt start now : ℕ) where
  abbrev bc_max : ℕ
  bc_max = u32 (nr_words * 16)

  pub from_wait-whole_read :
      (sync : Sync) (chunks : List (List ℕ))
      → from_wait bc_max cell buf start now (wait_sync sync cell (read_prep cnt) chunks)
        ≡ whole_read sync bc_max cell buf cnt start now (joined chunks)
  from_wait-whole_read sync chunks = elim (wait_sync-joined chunks sync cell (read_prep cnt)) [
    | inl a ↦ rw (a.0, a.1) refl
    | inr a ↦
        rw (a.1, a.3)
          (from_mark-joined bc_max cell buf start now _ _ a.0 _ (a.2 ∙ sym (append-nil _)))
  ]
