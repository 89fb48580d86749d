-- ===== src/Timer/Queue.antt =====
-- The list of timers: in the order of the time that is left, each timer on it once.
use flashfloppy_testbed.Prelude.{
  ℕ, ◌+◌, ◌-◌, ◌%◌, ◌^◌, ◌≤◌, ◌≡◌, ◌≢◌, ◌∙◌, refl, sym, ap, ap₂, arith,
}
use flashfloppy_testbed.Prelude.{
  List, [], ◌∷◌, All, Bool, true, false, leb, ◌==◌, ==_iff, if◌then◌else◌, Bool-cases, inl, inr,
}
use flashfloppy_testbed.Prelude.Int.{ℤ, lez, lez-signed32}
use flashfloppy_testbed.Mem.{u32}
use flashfloppy_testbed.Timer.{
  Timers, time_diff, timer_is_active, unlink, timer_cancel, link_in, set_deadline, timer_set,
  reprogram_timer,
}

-- The time from `now` to `d` as a signed number, moved to the naturals.
abbrev pub left : ℕ → ℕ → ℕ
left now d = (u32 (d + 2 ^ 32 - now) + 2 ^ 31) % 2 ^ 32

-- No timer on the list has less time left than one before it.
abbrev pub IsOrdered : ℕ → (ℕ → ℕ) → List ℕ → Type 0
IsOrdered now deadline [] = Unit
IsOrdered now deadline (t ∷ ts) =
    All (λ u. left now (deadline t) ≤ left now (deadline u)) ts × IsOrdered now deadline ts

abbrev pub IsDistinct : List ℕ → Type 0
IsDistinct [] = Unit
IsDistinct (t ∷ ts) = All (λ u. u ≢ t) ts × IsDistinct ts

All-map : {P Q : ℕ → Type 0} (xs : List ℕ) → ((x : ℕ) → P x → Q x) → All P xs → All Q xs
All-map [] f h = tt
All-map (x ∷ xs) f h = (f x h.0, All-map xs f h.1)

All-both : (P Q : ℕ → Type 0) (xs : List ℕ) → All P xs → All Q xs → All (λ x. P x × Q x) xs
All-both P Q [] h k = tt
All-both P Q (x ∷ xs) h k = ((h.0, k.0), All-both P Q xs h.1 k.1)

unlink-All : (P : ℕ → Type 0) (timer : ℕ) (ts : List ℕ) → All P ts → All P (unlink timer ts)
unfolding unlink
unlink-All P timer [] h = tt
unlink-All P timer (t ∷ ts) h = elim (Bool-cases (t == timer)) [
  | inl same ↦ rw same h.1
  | inr other ↦ rw other (h.0, unlink-All P timer ts h.1)
]

unlink-IsDistinct : (timer : ℕ) (ts : List ℕ) → IsDistinct ts → IsDistinct (unlink timer ts)
unfolding unlink
unlink-IsDistinct timer [] h = tt
unlink-IsDistinct timer (t ∷ ts) h = elim (Bool-cases (t == timer)) [
  | inl same ↦ rw same h.1
  | inr other ↦ rw other (unlink-All _ timer ts h.0, unlink-IsDistinct timer ts h.1)
]

unlink-IsOrdered :
    (now : ℕ) (deadline : ℕ → ℕ) (timer : ℕ) (ts : List ℕ)
    → IsOrdered now deadline ts
    → IsOrdered now deadline (unlink timer ts)
unfolding unlink
unlink-IsOrdered now deadline timer [] h = tt
unlink-IsOrdered now deadline timer (t ∷ ts) h = elim (Bool-cases (t == timer)) [
  | inl same ↦ rw same h.1
  | inr other ↦ rw other (unlink-All _ timer ts h.0, unlink-IsOrdered now deadline timer ts h.1)
]

-- Once unlinked, a timer is on the list no more.
unlink_absent : (timer : ℕ) (ts : List ℕ) → IsDistinct ts → All (λ t. t ≢ timer) (unlink timer ts)
unfolding unlink
unlink_absent timer [] h = tt
unlink_absent timer (t ∷ ts) h = elim (Bool-cases (t == timer)) [
  | inl same ↦ rw same (All-map ts (λ u ne e. ne (e ∙ sym ((==_iff t timer).0 same))) h.0)
  | inr other ↦ rw other (different t timer other, unlink_absent timer ts h.1)
]
  where
    different : (a b : ℕ) → (a == b) ≡ false → a ≢ b
    different a b e = ground arith

unlink_inactive :
    (timer : ℕ) (ts : List ℕ) → timer_is_active timer ts ≡ false → unlink timer ts ≡ ts
unfolding unlink timer_is_active
unlink_inactive timer [] h = refl
unlink_inactive timer (t ∷ ts) h = ground (arith, unlink_inactive timer ts)

pub timer_cancel-queue :
    (s : Timers) (timer : ℕ) → (timer_cancel s timer).queue ≡ unlink timer s.queue
unfolding timer_cancel
timer_cancel-queue s timer = elim (Bool-cases (timer_is_active timer s.queue)) [
  | inl active ↦ rw active refl
  | inr inactive ↦ rw inactive (sym (unlink_inactive timer s.queue inactive))
]

timer_cancel-deadline : (s : Timers) (timer : ℕ) → (timer_cancel s timer).deadline ≡ s.deadline
unfolding timer_cancel
timer_cancel-deadline s timer = elim (Bool-cases (timer_is_active timer s.queue)) [
  | inl active ↦ rw active refl
  | inr inactive ↦ rw inactive refl
]

reordered :
    (now : ℕ) (d d' : ℕ → ℕ) (ts : List ℕ)
    → All (λ t. d' t ≡ d t) ts
    → IsOrdered now d ts
    → IsOrdered now d' ts
reordered now d d' [] h k = tt
reordered now d d' (t ∷ ts) h k =
    (All-map ts (λ u e. rw (h.0, e.0) e.1) (All-both _ _ ts h.1 k.0), reordered now d d' ts h.1 k.1)

-- The comparison in `timer_set` is that of the time left.
sooner : (now a b : ℕ) → lez (time_diff now a) (time_diff now b) ≡ leb (left now a) (left now b)
sooner now a b =
    lez-signed32 (u32 (a + 2 ^ 32 - now)) (u32 (b + 2 ^ 32 - now)) (omega arith) (omega arith)

module _ (deadline : ℕ → ℕ) (now timer : ℕ) where
  abbrev linked : List ℕ → List ℕ
  linked ts = link_in deadline now (time_diff now (deadline timer)) timer ts

  linked-All : (P : ℕ → Type 0) (ts : List ℕ) → P timer → All P ts → All P (linked ts)
  unfolding link_in
  linked-All P [] h k = (h, tt)
  linked-All P (t ∷ ts) h k =
      elim (Bool-cases (lez (time_diff now (deadline timer)) (time_diff now (deadline t)))) [
        | inl here ↦ rw here (h, k)
        | inr later ↦ rw later (k.0, linked-All P ts h k.1)
      ]

  linked-IsDistinct :
      (ts : List ℕ) → All (λ t. t ≢ timer) ts → IsDistinct ts → IsDistinct (linked ts)
  unfolding link_in
  linked-IsDistinct [] h k = (tt, tt)
  linked-IsDistinct (t ∷ ts) h k =
      elim (Bool-cases (lez (time_diff now (deadline timer)) (time_diff now (deadline t)))) [
        | inl here ↦ rw here (h, k)
        | inr later ↦
            rw later (linked-All _ ts (λ e. h.0 (sym e)) k.0, linked-IsDistinct ts h.1 k.1)
      ]

  linked-IsOrdered : (ts : List ℕ) → IsOrdered now deadline ts → IsOrdered now deadline (linked ts)
  unfolding link_in
  linked-IsOrdered [] k = (tt, tt)
  linked-IsOrdered (t ∷ ts) k =
      elim (Bool-cases (lez (time_diff now (deadline timer)) (time_diff now (deadline t)))) [
        | inl here ↦
            let first : left now (deadline timer) ≤ left now (deadline t) =
              at_most _ _ (sym (sooner now (deadline timer) (deadline t)) ∙ here) in
            rw here ((first, All-map ts (λ u l. omega arith) k.0), k)
        | inr later ↦
            let last : left now (deadline t) ≤ left now (deadline timer) =
              at_least _ _ (sym (sooner now (deadline timer) (deadline t)) ∙ later) in
            rw later (linked-All _ ts last k.0, linked-IsOrdered ts k.1)
      ]
    where
      at_most : (a b : ℕ) → leb a b ≡ true → a ≤ b
      at_most a b e = ground arith

      at_least : (a b : ℕ) → leb a b ≡ false → b ≤ a
      at_least a b e = ground arith

  unlink-linked : (ts : List ℕ) → All (λ t. t ≢ timer) ts → unlink timer (linked ts) ≡ ts
  unfolding link_in unlink
  unlink-linked [] h = ground arith
  unlink-linked (t ∷ ts) h =
      elim (Bool-cases (lez (time_diff now (deadline timer)) (time_diff now (deadline t)))) [
        | inl here ↦ rw here (ground arith)
        | inr later ↦ rw later (ground (arith, h.0, unlink-linked ts h.1))
      ]

  linked_active : (ts : List ℕ) → timer_is_active timer (linked ts) ≡ true
  unfolding link_in timer_is_active
  linked_active [] = ground arith
  linked_active (t ∷ ts) =
      elim (Bool-cases (lez (time_diff now (deadline timer)) (time_diff now (deadline t)))) [
        | inl here ↦ rw here (ground arith)
        | inr later ↦ rw later (ground (arith, linked_active ts))
      ]

-- What `timer_set` leaves: order and uniqueness, the other timers as they were.
pub record IsTimerSet (s r : Timers) (timer deadline now : ℕ) : Type 0 where
  pub ordered : IsOrdered now r.deadline r.queue
  pub distinct : IsDistinct r.queue
  pub active : timer_is_active timer r.queue ≡ true
  pub others : unlink timer r.queue ≡ unlink timer s.queue
  pub deadline_set : r.deadline timer ≡ deadline
  pub deadline_others : (t : ℕ) → t ≢ timer → r.deadline t ≡ s.deadline t

pub reprogram_timer-queue : (s : Timers) (delta : ℤ) → (reprogram_timer s delta).queue ≡ s.queue
unfolding reprogram_timer
reprogram_timer-queue s delta = ground arith

pub reprogram_timer-deadline :
    (s : Timers) (delta : ℤ) → (reprogram_timer s delta).deadline ≡ s.deadline
unfolding reprogram_timer
reprogram_timer-deadline s delta = ground arith

if_reprogrammed :
    (b : Bool) (s : Timers) (delta : ℤ)
    → ((if b then reprogram_timer s delta else s).queue ≡ s.queue)
      × ((if b then reprogram_timer s delta else s).deadline ≡ s.deadline)
if_reprogrammed true s delta = (reprogram_timer-queue s delta, reprogram_timer-deadline s delta)
if_reprogrammed false s delta = (refl, refl)

module _ (s : Timers) (timer deadline now : ℕ) (order : IsOrdered now s.deadline s.queue)
    (once : IsDistinct s.queue) where
  abbrev deadlines : ℕ → ℕ
  deadlines = set_deadline s.deadline timer deadline

  abbrev rest : List ℕ
  rest = unlink timer s.queue

  deadline_of_timer : deadlines timer ≡ deadline
  deadline_of_timer = ground arith

  deadline_of_other : (t : ℕ) → t ≢ timer → deadlines t ≡ s.deadline t
  deadline_of_other t ne = ground arith

  result-queue : (timer_set s timer deadline now).queue ≡ linked deadlines now timer rest
  unfolding timer_set
  result-queue =
      (if_reprogrammed _ _ (time_diff now deadline)).0
      ∙ ap₂
          (λ (d : ℕ → ℕ) (q : List ℕ).
            link_in (set_deadline d timer deadline) now (time_diff now deadline) timer q)
          (timer_cancel-deadline s timer) (timer_cancel-queue s timer)
      ∙ ap (λ d. link_in deadlines now (time_diff now d) timer rest) (sym deadline_of_timer)

  result-deadline : (timer_set s timer deadline now).deadline ≡ deadlines
  unfolding timer_set
  result-deadline =
      (if_reprogrammed _ _ (time_diff now deadline)).1
      ∙ ap (λ (d : ℕ → ℕ). set_deadline d timer deadline) (timer_cancel-deadline s timer)

  absent : All (λ t. t ≢ timer) rest
  absent = unlink_absent timer s.queue once

  -- `timer_set` on a list that is in order, each timer on it once, leaves it so, whether the timer
  -- was on the list or not: the timer is on it with its new deadline, in its place, the others are
  -- as they were, and no other deadline changes.
  pub timer_set-IsTimerSet : IsTimerSet s (timer_set s timer deadline now) timer deadline now
  timer_set-IsTimerSet = record {
    ordered =
        rw (result-queue, result-deadline)
          (linked-IsOrdered deadlines now timer rest (
            reordered now s.deadline deadlines rest (All-map rest deadline_of_other absent)
              (unlink-IsOrdered now s.deadline timer s.queue order)));
    distinct =
        rw result-queue (
          linked-IsDistinct deadlines now timer rest absent (unlink-IsDistinct timer s.queue once));
    active = rw result-queue (linked_active deadlines now timer rest);
    others = rw result-queue (unlink-linked deadlines now timer rest absent);
    deadline_set = rw result-deadline deadline_of_timer;
    deadline_others = λ t ne. rw result-deadline (deadline_of_other t ne);
  }
