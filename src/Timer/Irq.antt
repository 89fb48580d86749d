-- ===== src/Timer/Irq.antt =====
-- `IRQ_timer` runs the callbacks of the timers that are due, and no others.
use flashfloppy_testbed.Prelude.{ℕ, ◌≡◌}
use flashfloppy_testbed.Prelude.{List, [], ◌∷◌, ◌++◌, All, Bool, true, false, Option, none, some}
use flashfloppy_testbed.Prelude.Int.{pos, lez}
use flashfloppy_testbed.Timer.{Timers, time_diff}

-- The deadline is at most the slack away.
abbrev pub is_due : ℕ → ℕ → Bool
is_due now deadline = lez (time_diff now deadline) (pos 12)

-- What an interrupt at `now` leaves, whose callbacks set no timer.
pub record IsIrq (now : ℕ) (s : Timers) (result : Option (Timers × List ℕ)) : Type 0 where
  pub state : Timers
  pub fired : List ℕ
  pub returns : result ≡ some (state, fired)
  pub parts : fired ++ state.queue ≡ s.queue
  pub due : All (λ t. is_due now (s.deadline t) ≡ true) fired
  pub waiting : All (λ t. is_due now (s.deadline t) ≡ false) state.queue
  pub kept : state.deadline ≡ s.deadline

abbrev timers : List ℕ → (ℕ → ℕ) → ℕ → ℕ → Timers
timers q deadline psc arr = record { queue = q; deadline = deadline; psc = psc; arr = arr }

-- One round on a list with a head.
abbrev turn : Bool → Timers → ℕ → Option (Timers × List ℕ) → Option (Timers × List ℕ)
turn b stopped t r = elim b [
  | false ↦ some (stopped, [])
  | true ↦ elim r [ none ↦ none | some x ↦ some (x.0, t ∷ x.1) ]
]
