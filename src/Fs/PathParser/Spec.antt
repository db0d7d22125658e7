-- ===== src/Fs/PathParser/Spec.antt =====
-- Paths as texts: what a path means, independently of the parser.
use native.Mathlib.Decide.{ℕ_discrete}
use cos.Prelude.{
  ℕ, ◌+◌, ◌<◌, ◌≡◌, ◌≢◌, refl, true, false, ◌&&◌, Option, none, some, List, [], ◌∷◌, ◌++◌, arith,
  ◌==◌, if◌then◌else◌,
}
use cos.Strings.{isdigit, tonumericdigit}
use cos.Fs.PathParser.{PathRoot, slash, colon}

abbrev pub All {ℓ κ} : {A : Type ℓ} → (A → Type κ) → List A → Type κ
All P [] = Unit
All P (x ∷ xs) = P x × All P xs

-- The text up to the first slash, and what stands behind that slash.
abbrev pub before_slash : List ℕ → List ℕ
before_slash [] = []
before_slash (c ∷ cs) = if c == slash then [] else c ∷ before_slash cs

abbrev pub behind_slash : List ℕ → Option (List ℕ)
behind_slash [] = none
behind_slash (c ∷ cs) = if c == slash then some cs else behind_slash cs

abbrev pub extend : ℕ → List (List ℕ) → List (List ℕ)
extend c [] = (c ∷ []) ∷ []
extend c (p ∷ ps) = (c ∷ p) ∷ ps

-- The text cut at every slash.
unfoldable pub split : List ℕ → List (List ℕ)
split [] = [] ∷ []
split (c ∷ cs) = let ps = split cs in if c == slash then [] ∷ ps else extend c ps

-- The pieces before the first empty one.
abbrev pub leading : List (List ℕ) → List (List ℕ)
leading [] = []
leading ([] ∷ ps) = []
leading ((c ∷ p) ∷ ps) = (c ∷ p) ∷ leading ps

-- What a path stands for: a digit, a colon and a slash, and the pieces behind them up to the first
-- empty one.
unfoldable pub meaning : List ℕ → Option PathRoot
meaning (d ∷ c ∷ s ∷ cs) =
    if isdigit d && (c == colon && s == slash)
    then some (record { drive_no = tonumericdigit d; parts = leading (split cs) })
    else none
meaning _ = none

unfoldable pub split_of_behind : Option (List ℕ) → List (List ℕ)
split_of_behind none = []
split_of_behind (some r) = split r

extend-cons : (c : ℕ) (p : List ℕ) (ps : List (List ℕ)) → extend c (p ∷ ps) ≡ (c ∷ p) ∷ ps
extend-cons c p ps = refl

-- Cutting at the first slash, then the rest.
pub split-before_slash :
    (cs : List ℕ) → split cs ≡ before_slash cs ∷ split_of_behind (behind_slash cs)
unfolding split split_of_behind
split-before_slash [] = refl
split-before_slash (c ∷ cs) = elim (ℕ_discrete c slash) [
  | yes e ↦ let t : (c == slash) ≡ true = ground arith in rw t
  | no ne ↦ let t : (c == slash) ≡ false = ground arith in rw (t, split-before_slash cs)
]

-- Paths written out.
abbrev pub join : List (List ℕ) → List ℕ
join [] = []
join (p ∷ []) = p
join (p ∷ q ∷ ps) = p ++ (slash ∷ join (q ∷ ps))

abbrev pub IsPart : List ℕ → Type 0
IsPart p = (p ≢ []) × All (λ c. (c ≢ 0) × (c ≢ slash)) p

-- A root that a path can name: a drive of one digit, and parts that are not empty and hold no slash
-- and no terminator.
pub record IsRoot (r : PathRoot) : Type 0 where
  pub drive : r.drive_no < 10
  pub parts : All IsPart r.parts

unfoldable pub render : PathRoot → List ℕ
render r = (48 + r.drive_no) ∷ colon ∷ slash ∷ join r.parts
