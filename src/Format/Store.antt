-- ===== src/Format/Store.antt =====
-- What `vsnprintf` writes: the text, cut to the size it is given, and a zero.
use flashfloppy_testbed.Prelude.{ℕ, zero, suc, ◌+◌, ◌-◌, ◌<◌, ◌≡◌, ◌∙◌, refl, ap, arith}
use flashfloppy_testbed.Prelude.{
  List, [], ◌∷◌, ◌++◌, length, take, ltb, leb, ◌==◌, if◌then◌else◌, false, Bool-cases, inl, inr,
  some,
}
use flashfloppy_testbed.Mem.{Mem, store8, store}
use flashfloppy_testbed.Util.Memory.Store.{store-append}
use flashfloppy_testbed.Format.{Arg, plain, put_chars, terminate, formatted, store_text, vsnprintf}

put_chars-store :
    (cs : List ℕ) (m : Mem) (p end : ℕ) → put_chars m p end cs ≡ store m p (take (end - p) cs)
unfolding put_chars store
put_chars-store [] m p end = nothing (end - p)
  where
    nothing : (n : ℕ) → m ≡ store m p (take n [])
    nothing zero = refl
    nothing (suc n) = refl
put_chars-store (c ∷ cs) m p end = elim (Bool-cases (ltb p end)) [
  | inl room ↦
      let more : end - p ≡ suc (end - (p + 1)) = ground (arith, room) in
      rw (room, more) (put_chars-store cs (store8 m p c) (p + 1) end)
  | inr full ↦
      let stop : end - p ≡ 0 = ground (arith, full) in
      let stop' : end - (p + 1) ≡ 0 = omega arith in
      rw (full, stop)
        (put_chars-store cs m (p + 1) end ∙ ap (λ n. store m (p + 1) (take n cs)) stop')
]

length-take :
    (n : ℕ) (cs : List ℕ) → length (take n cs) ≡ (if leb n (length cs) then n else length cs)
length-take zero cs = ground arith
length-take (suc n) [] = ground arith
length-take (suc n) (c ∷ cs) = ground (arith, length-take n cs)

-- Where the zero is put.
terminated :
    (m : Mem) (str size : ℕ) (cs : List ℕ)
    → terminate m str (str + length cs) (str + suc size - 1)
      ≡ store8 m (str + length (take size cs)) 0
unfolding terminate
terminated m str size cs = ground (arith, length-take size cs)

-- When a format and its arguments give the text `cs`, `vsnprintf` into `size` bytes, at least one,
-- stores as much of it as leaves a place, and a zero behind that; it writes nothing else, and
-- returns the length of the whole text. Given no byte at all, it writes nothing.
pub vsnprintf-store :
    (m : Mem) (str size : ℕ) (format : List ℕ) (args : List Arg) (cs : List ℕ)
    → 0 < str
    → formatted format plain args ≡ some cs
    → vsnprintf m str size format args
      ≡ some ((if size == 0 then m else store m str (take (size - 1) cs ++ (0 ∷ []))), length cs)
unfolding vsnprintf store
vsnprintf-store m str size format args cs pos e =
    ap (store_text m str size) e ∙ ap (λ r. some (r, length cs)) (by_size size)
  where
    last : (n : ℕ) → str + suc n - 1 - str ≡ n
    last n = omega arith

    by_size :
        (n : ℕ)
        → terminate (put_chars m str (str + n - 1) cs) str (str + length cs) (str + n - 1)
          ≡ (if n == 0 then m else store m str (take (n - 1) cs ++ (0 ∷ [])))
    by_size zero =
        unfold terminate in
        let stop : str + 0 - 1 - str ≡ 0 = omega arith in
        let beyond : leb (str + length cs) (str + 0 - 1) ≡ false = ground arith in
        let below : leb str (str + 0 - 1) ≡ false = ground arith in
        rw (beyond, below)
          (put_chars-store cs m str (str + 0 - 1) ∙ ap (λ n. store m str (take n cs)) stop)
    by_size (suc n) =
        let some_size : (suc n == 0) ≡ false = ground arith in
        let one : suc n - 1 ≡ n = omega arith in
        rw (some_size, one)
          (terminated (put_chars m str (str + suc n - 1) cs) str n cs
            ∙ ap (λ r. store8 r (str + length (take n cs)) 0)
                (put_chars-store cs m str (str + suc n - 1)
                  ∙ ap (λ n. store m str (take n cs)) (last n))
            ∙ store-append m str (str + length (take n cs)) (take n cs) (0 ∷ []) refl)
