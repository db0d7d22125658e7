-- ===== src/Strings/Copy.antt =====
-- `strlen`, `strnlen` and `strncpy` on terminated strings.
use cos.Prelude.{
  ℕ, zero, suc, ◌≤◌, ◌≡◌, ◌≢◌, refl, ap, true, false, List, [], ◌∷◌, ◌++◌, arith, length, take,
  drop, ltb, ◌==◌, if◌then◌else◌, done, min, Bool-cases, inl, inr,
}
use cos.Strings.{strncpy, strlen, strnlen}

-- No byte is the terminator.
abbrev pub IsText : List ℕ → Type 0
IsText [] = Unit
IsText (c ∷ cs) = (c ≢ 0) × IsText cs

-- `strlen` is the number of bytes before the terminator.
pub strlen-length : (cs rest : List ℕ) → IsText cs → strlen (cs ++ (0 ∷ rest)) ≡ done (length cs)
unfolding strlen
strlen-length [] rest t = refl
strlen-length (c ∷ cs) rest t = ground (arith, strlen-length cs rest t.1)

-- `strnlen` is that number, but `max` at most, also where no terminator is within `max` bytes.
pub strnlen-min :
    (cs rest : List ℕ) (max : ℕ)
    → IsText cs
    → strnlen (cs ++ (0 ∷ rest)) max ≡ done (min max (length cs))
unfolding strnlen
strnlen-min cs rest zero t = ap done (omega arith)
strnlen-min [] rest (suc max) t = ap done (omega arith)
strnlen-min (c ∷ cs) rest (suc max) t = ground (arith, strnlen-min cs rest max t.1)

-- What `strncpy` leaves in a buffer of at least `n` bytes: the text with its terminator if that
-- fits, else its first `n` bytes and no terminator; the bytes of the buffer behind these stay.
abbrev pub copied : (dest cs : List ℕ) → ℕ → List ℕ
copied dest cs n =
    if ltb (length cs) n then cs ++ (0 ∷ drop (suc (length cs)) dest) else take n cs ++ drop n dest

copied-cons :
    (d c : ℕ) (dest cs : List ℕ) (n : ℕ) → copied (d ∷ dest) (c ∷ cs) (suc n) ≡ c ∷ copied dest cs n
copied-cons d c dest cs n =
    let e : ltb (suc (length cs)) (suc n) ≡ ltb (length cs) n = ground arith in
    elim (Bool-cases (ltb (length cs) n)) [ inl t ↦ rw (e, t) | inr t ↦ rw (e, t) ]

-- `strncpy` of a terminated string into a buffer of at least `n` bytes leaves the text with its
-- terminator if that fits in `n` bytes, else its first `n` bytes and no terminator; the bytes of
-- the buffer behind these stay.
pub strncpy-copied :
    (dest cs rest : List ℕ) (n : ℕ)
    → IsText cs
    → n ≤ length dest
    → strncpy dest (cs ++ (0 ∷ rest)) n ≡ done (copied dest cs n)
unfolding strncpy
strncpy-copied dest cs rest zero t fits = let e : ltb (length cs) 0 ≡ false = ground arith in rw e
strncpy-copied [] cs rest (suc n) t fits = absurd (omega arith)
strncpy-copied (d ∷ dest) [] rest (suc n) t fits =
    let e : ltb 0 (suc n) ≡ true = ground arith in rw e
strncpy-copied (d ∷ dest) (c ∷ cs) rest (suc n) t fits =
    let e : (c == 0) ≡ false = ground arith in
    rw (e, strncpy-copied dest cs rest n t.1 (omega arith), copied-cons d c dest cs n)
