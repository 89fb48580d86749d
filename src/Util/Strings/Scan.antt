-- ===== src/Util/Strings/Scan.antt =====
-- The string functions on a string of known length.
use flashfloppy_testbed.Prelude.{ℕ, zero, suc, ◌+◌, ◌<◌, ◌≡◌, ◌≢◌, ◌⊎◌, ◌∙◌, sym, ap, arith}
use flashfloppy_testbed.Prelude.{◌==◌, leb, if◌then◌else◌, some, false}
use flashfloppy_testbed.Mem.{Mem, store8, store, bytes}
use flashfloppy_testbed.Mem.Bytes.{bytes_ext}
use flashfloppy_testbed.Util.Strings.{strlen, strnlen, strcpy}

-- The first zero byte from `s` on is `k` bytes away.
abbrev pub IsString : Mem → ℕ → ℕ → Type 0
IsString m s zero = m s ≡ 0
IsString m s (suc k) = (m s ≢ 0) × IsString m (s + 1) k

-- `strlen` of a string returns its length, as soon as the loop has one round more than that.
pub strlen_lem :
    (k n : ℕ) (m : Mem) (s len : ℕ) → IsString m s k → k < n → strlen m s len n ≡ some (len + k)
unfolding strlen
strlen_lem k zero m s len h l = absurd (omega arith)
strlen_lem zero (suc n) m s len h l = ground arith
strlen_lem (suc k) (suc n) m s len h l =
    ground (arith, h.0, strlen_lem k n m (s + 1) (len + 1) h.1 (omega arith))

-- `strnlen` of a string is its length or the bound, whichever is less.
pub strnlen_lem :
    (k maxlen : ℕ) (m : Mem) (s : ℕ)
    → IsString m s k
    → strnlen m s maxlen ≡ (if leb k maxlen then k else maxlen)
unfolding strnlen
strnlen_lem k zero m s h = ground arith
strnlen_lem zero (suc maxlen) m s h = ground arith
strnlen_lem (suc k) (suc maxlen) m s h = ground (arith, h.0, strnlen_lem k maxlen m (s + 1) h.1)

store8_other : (m : Mem) (p v a : ℕ) → a ≢ p → store8 m p v a ≡ m a
unfolding store8
store8_other m p v a ne = ground arith

-- A string is the same where a store does not reach it.
IsString-kept :
    (k : ℕ) (m : Mem) (s p v : ℕ)
    → (p < s) ⊎ (s + k < p)
    → IsString m s k
    → IsString (store8 m p v) s k
IsString-kept zero m s p v o h = store8_other m p v s (omega arith) ∙ h
IsString-kept (suc k) m s p v o h = (
  λ e. h.0 (sym (store8_other m p v s (omega arith)) ∙ e),
  IsString-kept k m (s + 1) p v (omega arith) h.1,
)

-- `strcpy` of a string stores its bytes with the terminating zero, and returns as soon as the loop
-- has one round more than the length, when the two ranges do not overlap.
pub strcpy-store :
    (k n : ℕ) (m : Mem) (dest src : ℕ)
    → IsString m src k
    → (dest + k < src) ⊎ (src + k < dest)
    → k < n
    → strcpy m dest src n ≡ some (store m dest (bytes m src (suc k)))
unfolding strcpy store
strcpy-store k zero m dest src h o l = absurd (omega arith)
strcpy-store zero (suc n) m dest src h o l = ground arith
strcpy-store (suc k) (suc n) m dest src h o l =
    let go : (m src == 0) ≡ false = ground (arith, h.0) in
    rw go (
      strcpy-store k n (store8 m dest (m src)) (dest + 1) (src + 1)
        (IsString-kept k m (src + 1) dest (m src) (omega arith) h.1) (omega arith) (omega arith)
      ∙ ap (λ l. some (store (store8 m dest (m src)) (dest + 1) l))
          (bytes_ext (store8 m dest (m src)) m (src + 1) (suc k)
            (λ a lo up. store8_other m dest (m src) a (omega arith))))
