-- ===== src/Ibm/Read/Search.antt =====
-- `ibm_mfm_search` stops at the first capture that decodes to the wanted header.
use mathlib.Core.Option
use flashfloppy_testbed.Prelude.{ℕ, ◌+◌, ◌<◌, ◌≤◌, ◌≡◌, ◌⊎◌, inl, inr, ◌∙◌, refl, ap, sym, arith}
use mathlib.Core.Option.{some-injective}
use mathlib.Core.Path.{subst}
use flashfloppy_testbed.Prelude.{
  List, [], ◌∷◌, ◌++◌, map, length, All, Bool, false, not, leb, if◌then◌else◌,
}
use flashfloppy_testbed.Prelude.{Option, none, some, Bool-cases}
use flashfloppy_testbed.Mem.{Mem, IsMem, bytes, put_words}
use flashfloppy_testbed.Mem.Words.{put_words-IsMem, words-put_words, put_words_outside}
use flashfloppy_testbed.Util.Compare.Memcmp.{same_bytes}
use flashfloppy_testbed.Mfm.{mfm_to_bin}
use flashfloppy_testbed.Mfm.Spec.{word_data}
use flashfloppy_testbed.Mfm.Decode.{mfm_to_bin-IsDecoded}
use flashfloppy_testbed.Mfm.Words.{bytes-mfm_to_bin}
use flashfloppy_testbed.Ibm.{
  Idam, idam_bytes, Capture, Warning, late_index, warn_on, Found, mismatch,
}
use flashfloppy_testbed.Ibm.{mfm_search_loop, ibm_mfm_search}
use flashfloppy_testbed.Ibm.Layout.{header_block}
use flashfloppy_testbed.Ibm.Read.Header.{mismatch-same_bytes}

-- A capture of `n` words.
abbrev pub IsCapture : ℕ → Capture → Type 0
IsCapture n c = (length c.cells ≡ n) × All (λ w. w < 65536) c.cells

abbrev pub IsIdam : Idam → Type 0
IsIdam idam = All (λ x. x < 256) (idam_bytes idam)

-- The words decode to the header of `idam`: mark, IDAM and CRC.
abbrev pub is_header : Idam → List ℕ → Bool
is_header idam cells = same_bytes (map word_data cells) (header_block (idam_bytes idam))

-- The search without its memory: the warnings, the capture that matched, and the rest.
pub record Match : Type 0 where
  pub warnings : List Warning
  pub hit : Capture
  pub rest : List Capture

abbrev pub first_match : Idam → List Warning → List Capture → Option Match
first_match idam warnings [] = none
first_match idam warnings (c ∷ rest) =
    let warned = warnings ++ warn_on (leb 2 c.count_before) late_index in
    let later = first_match idam warned rest in
    if is_header idam c.cells
    then some (record { warnings = warned; hit = c; rest = rest })
    else later

-- Every round reads ten words; what is captured behind the match is another reader's.
abbrev pub SearchCaptures : Idam → List Capture → Type 0
SearchCaptures idam [] = Unit
SearchCaptures idam (c ∷ rest) =
    IsCapture 10 c × (is_header idam c.cells ≡ false → SearchCaptures idam rest)

abbrev pub match_of : Found → Match
match_of f = record { warnings = f.warnings; hit = f.hit; rest = f.rest }

module _ (m : Mem) (p : ℕ) (c : Capture) (h : IsMem m) (good : IsCapture 10 c) where
  -- the memory behind one round
  abbrev decoded : Mem
  decoded = mfm_to_bin (put_words m p c.cells) p 10

  filled : IsMem (put_words m p c.cells)
  filled = put_words-IsMem c.cells m p h

  pub decoded-IsMem : IsMem decoded
  decoded-IsMem = (mfm_to_bin-IsDecoded (put_words m p c.cells) p 10 filled).is_mem

  pub decoded-bytes : bytes decoded p 10 ≡ map word_data c.cells
  decoded-bytes =
      bytes-mfm_to_bin (put_words m p c.cells) p 10 filled
      ∙ ap (map word_data) (words-put_words c.cells m p 10 good.1 (sym good.0))

  pub decoded_outside : (a : ℕ) → (a < p) ⊎ (p + 20 ≤ a) → decoded a ≡ m a
  decoded_outside a o =
      (mfm_to_bin-IsDecoded (put_words m p c.cells) p 10 filled).outside a (omega arith)
      ∙ put_words_outside c.cells m p a good.1 (omega (arith, good.0))

  pub decoded-mismatch :
      (idam : Idam) → IsIdam idam → mismatch decoded p idam ≡ not (is_header idam c.cells)
  decoded-mismatch idam k =
      mismatch-same_bytes decoded p idam decoded-IsMem k
      ∙ ap (λ (l : List ℕ). not (same_bytes l (header_block (idam_bytes idam)))) decoded-bytes

-- What a search leaves: its result without the memory, and the memory outside its buffer.
pub record IsSearch (m : Mem) (p : ℕ) (expected : Option Match) (result : Option Found)
    : Type 0 where
  pub same : Option.map match_of result ≡ expected
  pub is_mem : (f : Found) → result ≡ some f → IsMem f.mem
  pub outside : (f : Found) → result ≡ some f → (a : ℕ) → (a < p) ⊎ (p + 20 ≤ a) → f.mem a ≡ m a

IsSearch-hit :
    (m : Mem) (p : ℕ) (f : Found)
    → IsMem f.mem
    → ((a : ℕ) → (a < p) ⊎ (p + 20 ≤ a) → f.mem a ≡ m a)
    → IsSearch m p (some (match_of f)) (some f)
IsSearch-hit m p f h o = record {
  same = refl;
  is_mem = λ g e. subst (λ (x : Found). IsMem x.mem) (some-injective f g e) h;
  outside = λ g e a l. subst (λ (x : Found). x.mem a ≡ m a) (some-injective f g e) (o a l);
}

IsSearch-later :
    (m m1 : Mem) (p : ℕ) (expected : Option Match) (result : Option Found)
    → ((a : ℕ) → (a < p) ⊎ (p + 20 ≤ a) → m1 a ≡ m a)
    → IsSearch m1 p expected result
    → IsSearch m p expected result
IsSearch-later m m1 p expected result o s = record {
  same = s.same;
  is_mem = s.is_mem;
  outside = λ f e a l. s.outside f e a l ∙ o a l;
}

loop-IsSearch :
    (captures : List Capture) (m : Mem) (p : ℕ) (idam : Idam) (warnings : List Warning)
    → IsMem m
    → IsIdam idam
    → SearchCaptures idam captures
    → IsSearch m p (first_match idam warnings captures) (mfm_search_loop m p idam warnings captures)
unfolding mfm_search_loop
loop-IsSearch [] m p idam warnings h k good = record {
  same = refl;
  is_mem = λ f e. cc;
  outside = λ f e. cc;
}
loop-IsSearch (c ∷ rest) m p idam warnings h k good = elim (Bool-cases (is_header idam c.cells)) [
  | inl hit ↦
      rw (decoded-mismatch m p c h good.0 idam k, hit)
        (IsSearch-hit m p _ (decoded-IsMem m p c h good.0) (decoded_outside m p c h good.0))
  | inr miss ↦
      rw (decoded-mismatch m p c h good.0 idam k, miss)
        (IsSearch-later m (decoded m p c h good.0) p _ _ (decoded_outside m p c h good.0) (
          loop-IsSearch rest (decoded m p c h good.0) p idam
            (warnings ++ warn_on (leb 2 c.count_before) late_index) (decoded-IsMem m p c h good.0) k
            (good.1 miss)))
]

-- `ibm_mfm_search` ends at the first capture whose words decode to the header (mark, IDAM and CRC),
-- with a warning for each round that began behind a second index pulse, writes only its buffer, and
-- waits on while no capture decodes so.
pub ibm_mfm_search-IsSearch :
    (m : Mem) (p : ℕ) (idam : Idam) (captures : List Capture)
    → IsMem m
    → IsIdam idam
    → SearchCaptures idam captures
    → IsSearch m p (first_match idam [] captures) (ibm_mfm_search m p idam captures)
unfolding ibm_mfm_search
ibm_mfm_search-IsSearch m p idam captures h k good = loop-IsSearch captures m p idam [] h k good
