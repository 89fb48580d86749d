-- ===== src/Time/Now.antt =====
-- The time of 32 bits never loses a wrap of the counter.
use flashfloppy_testbed.Prelude.{
  ℕ, ◌+◌, ◌-◌, ◌*◌, ◌/◌, ◌%◌, ◌^◌, ◌<◌, ◌≤◌, ◌≡◌, ◌∙◌, ap, ap₂, arith, List, [], ◌∷◌,
}
use flashfloppy_testbed.Prelude.{bit_and, bit_or}
use flashfloppy_testbed.Bits.And.{
  bit_and_fields, bit_or_fields, bit_and_full, bit_and-zero, bit_or-zero, zero-bit_or,
}
use flashfloppy_testbed.Time.{time_now, time_stamp_update}

-- What the counter shows, and what `time_stamp` is, `t` ticks after both were all ones.
abbrev pub counter : ℕ → ℕ
counter t = 2 ^ 24 - 1 - t % 2 ^ 24

abbrev pub stamp : ℕ → ℕ
stamp t = 2 ^ 32 - 1 - t % 2 ^ 32

mask_lem : (q r : ℕ) → q < 256 → r < 2 ^ 24 → bit_and (q * 2 ^ 24 + r) 0xff000000 ≡ q * 2 ^ 24
mask_lem q r h k =
    omega (arith, bit_and_fields 24 q r 255 0 k (omega arith), bit_and_full 8 q h, bit_and-zero r)

join_lem : (q stk : ℕ) → stk < 2 ^ 24 → bit_or stk (q * 2 ^ 24) ≡ q * 2 ^ 24 + stk
join_lem q stk k =
    ap₂ bit_or (plain stk) (empty q)
    ∙ bit_or_fields 24 0 stk q 0 k (omega arith)
    ∙ ap₂ (λ (a b : ℕ). a * 2 ^ 24 + b) (zero-bit_or q) (bit_or-zero stk)
  where
    plain : (a : ℕ) → a ≡ 0 * 2 ^ 24 + a
    plain a = omega arith

    empty : (a : ℕ) → a * 2 ^ 24 ≡ a * 2 ^ 24 + 0
    empty a = omega arith

joined :
    (s stk : ℕ)
    → s < 2 ^ 32
    → stk < 2 ^ 24
    → bit_or stk (bit_and s 0xff000000) ≡ s / 2 ^ 24 * 2 ^ 24 + stk
joined s stk h k =
    ap (bit_or stk) (
      ap (λ a. bit_and a 0xff000000) (whole s)
      ∙ mask_lem (s / 2 ^ 24) (s % 2 ^ 24) (omega arith) (omega arith))
    ∙ join_lem (s / 2 ^ 24) stk k
  where
    whole : (a : ℕ) → a ≡ a / 2 ^ 24 * 2 ^ 24 + a % 2 ^ 24
    whole a = omega arith

-- `time_stamp` after an update at each of these times, one after the other.
abbrev pub updated : ℕ → List ℕ → ℕ
updated s [] = s
updated s (t ∷ ts) = updated (time_stamp_update s (counter t)).0 ts

-- From `t0` on to `t` by these updates no step is 2 ^ 24 ticks or more.
abbrev pub IsTimely : ℕ → List ℕ → ℕ → Type 0
IsTimely t0 [] t = (t0 ≤ t) × (t < t0 + 2 ^ 24)
IsTimely t0 (t1 ∷ ts) t = (t0 ≤ t1) × (t1 < t0 + 2 ^ 24) × IsTimely t1 ts t

time_now_lem : (t0 t : ℕ) → t0 ≤ t → t < t0 + 2 ^ 24 → time_now (stamp t0) (counter t) ≡ t % 2 ^ 32
unfolding time_now
time_now_lem t0 t l u = ground (arith, joined (stamp t0) (counter t) (omega arith) (omega arith))

-- An update at `t` leaves the stamp of `t`.
update_lem :
    (t0 t : ℕ) → t0 ≤ t → t < t0 + 2 ^ 24 → (time_stamp_update (stamp t0) (counter t)).0 ≡ stamp t
unfolding time_stamp_update
update_lem t0 t l u = ap (λ now. 2 ^ 32 - 1 - now) (time_now_lem t0 t l u)

-- However often `time_stamp` was updated since it was set at `t0`: where no two updates, nor the last
-- one and `t`, are 2 ^ 24 ticks apart, `time_now` at `t` is the true time, reduced to 32 bits.
pub time_now-updated :
    (ts : List ℕ) (t0 t : ℕ)
    → IsTimely t0 ts t
    → time_now (updated (stamp t0) ts) (counter t) ≡ t % 2 ^ 32
time_now-updated [] t0 t h = time_now_lem t0 t h.0 h.1
time_now-updated (t1 ∷ ts) t0 t h =
    ap (λ s. time_now (updated s ts) (counter t)) (update_lem t0 t1 h.0 h.1)
    ∙ time_now-updated ts t1 t h.2
