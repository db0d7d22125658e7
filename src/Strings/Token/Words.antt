-- ===== src/Strings/Token/Words.antt =====
-- The tokens of a string are its words.
use cos.Prelude.{
  ℕ, ◌<◌, ◌≡◌, ◌≢◌, refl, sym, ap, ◌∙◌, arith, true, false, none, some, List, [], ◌∷◌, ◌++◌, ◌==◌,
  length, done,
}
use cos.Strings.Copy.{IsText}
use cos.Strings.Token.{is_delimiter, skip_delimiters, find_end, next_token}

abbrev pub AllDelimiters : (delimiters : List ℕ) → List ℕ → Type 0
AllDelimiters ds [] = Unit
AllDelimiters ds (c ∷ cs) = (is_delimiter ds c ≡ true) × AllDelimiters ds cs

-- A word, or the inside of one: neither a delimiter nor the terminator.
abbrev pub IsWordly : (delimiters : List ℕ) → List ℕ → Type 0
IsWordly ds [] = Unit
IsWordly ds (c ∷ cs) = (c ≢ 0) × (is_delimiter ds c ≡ false) × IsWordly ds cs

-- A word with the delimiters before it.
pub record Piece : Type 0 where
  pub gap : List ℕ
  pub first : ℕ
  pub more : List ℕ

abbrev pub word : Piece → List ℕ
word p = p.first ∷ p.more

abbrev pub words : List Piece → List (List ℕ)
words [] = []
words (p ∷ ps) = word p ∷ words ps

-- A string written as pieces, the delimiters behind them, and the terminator.
abbrev pub written : List Piece → (trail rest : List ℕ) → List ℕ
written [] trail rest = trail ++ (0 ∷ rest)
written (p ∷ ps) trail rest = p.gap ++ (word p ++ written ps trail rest)

abbrev pub IsPiece : (delimiters : List ℕ) → Piece → Type 0
IsPiece ds p = AllDelimiters ds p.gap × IsWordly ds (word p)

-- There is a delimiter between two words.
abbrev pub ArePieces : (delimiters : List ℕ) → List Piece → Type 0
ArePieces ds [] = Unit
ArePieces ds (p ∷ ps) = IsPiece ds p × (0 < length p.gap) × ArePieces ds ps

skip-gap :
    (ds gap cs : List ℕ)
    → AllDelimiters ds gap
    → skip_delimiters ds (gap ++ cs) ≡ skip_delimiters ds cs
unfolding skip_delimiters
skip-gap ds [] cs all = refl
skip-gap ds (g ∷ gap) cs (d, all) = rw d (skip-gap ds gap cs all)

skip-stop :
    (ds : List ℕ) (c : ℕ) (cs : List ℕ)
    → is_delimiter ds c ≡ false
    → skip_delimiters ds (c ∷ cs) ≡ done (c ∷ cs)
unfolding skip_delimiters
skip-stop ds c cs no_delimiter = rw no_delimiter

delimiter-null : (ds : List ℕ) → IsText ds → is_delimiter ds 0 ≡ false
unfolding is_delimiter
delimiter-null [] t = refl
delimiter-null (d ∷ ds) (ne, t) =
    let e : (0 == d) ≡ false = let q : 0 ≢ d = λ z. ne (sym z) in ground arith in
    rw e (delimiter-null ds t)

-- The end of a word at the terminator, and at a delimiter.
find_end-null :
    (ds w rest : List ℕ)
    → IsWordly ds w
    → find_end ds (w ++ (0 ∷ rest)) ≡ done (w ++ (0 ∷ rest), 0 ∷ rest)
unfolding find_end
find_end-null ds [] rest h = refl
find_end-null ds (c ∷ w) rest (nz, no_delimiter, h) =
    let z : (c == 0) ≡ false = ground arith in rw (z, no_delimiter, find_end-null ds w rest h)

find_end-delimiter :
    (ds w : List ℕ) (d : ℕ) (rest : List ℕ)
    → IsWordly ds w
    → d ≢ 0
    → is_delimiter ds d ≡ true
    → find_end ds (w ++ (d ∷ rest)) ≡ done (w ++ (0 ∷ rest), rest)
unfolding find_end
find_end-delimiter ds [] d rest h nz del = let z : (d == 0) ≡ false = ground arith in rw (z, del)
find_end-delimiter ds (c ∷ w) d rest (nz', no_delimiter, h) nz del =
    let z : (c == 0) ≡ false = ground arith in
    rw (z, no_delimiter, find_end-delimiter ds w d rest h nz del)

-- What a call leaves to the next: a delimiter less, if there is one.
abbrev pub tail : List ℕ → List ℕ
tail [] = []
tail (c ∷ cs) = cs

abbrev pub left_pieces : List Piece → List Piece
left_pieces [] = []
left_pieces (p ∷ ps) = record p { gap = tail p.gap } ∷ ps

abbrev pub left_trail : List Piece → (trail : List ℕ) → List ℕ
left_trail [] trail = tail trail
left_trail (p ∷ ps) trail = trail

module _ (ds : List ℕ) (t : IsText ds) where
  delimiter-ne : (d : ℕ) → is_delimiter ds d ≡ true → d ≢ 0
  delimiter-ne d del z =
      let e = delimiter-null ds t in absurd (false-ne (sym e ∙ ap (is_delimiter ds) (sym z) ∙ del))
    where
      false-ne : false ≡ true → ⊥
      false-ne e = cc

  -- The end of the word before the pieces `ps`.
  find_end-word :
      (w : List ℕ) (ps : List Piece) (trail rest : List ℕ)
      → IsWordly ds w
      → ArePieces ds ps
      → AllDelimiters ds trail
      → (junk : List ℕ) × (find_end ds (w ++ written ps trail rest)
          ≡ done (w ++ (0 ∷ junk), written (left_pieces ps) (left_trail ps trail) rest))
  find_end-word w [] [] rest h ps trail = (rest, find_end-null ds w rest h)
  find_end-word w [] (d ∷ trail) rest h ps (del, all) = (
    trail ++ (0 ∷ rest),
    find_end-delimiter ds w d (trail ++ (0 ∷ rest)) h (delimiter-ne d del) del,
  )
  find_end-word w (p ∷ ps) trail rest h ((gap, piece), some_gap, more) all =
      in_gap p.gap gap some_gap (word p ++ written ps trail rest)
    where
      in_gap :
          (g : List ℕ)
          → AllDelimiters ds g
          → 0 < length g
          → (z : List ℕ)
          → (junk : List ℕ) × (find_end ds (w ++ (g ++ z)) ≡ done (w ++ (0 ∷ junk), tail g ++ z))
      in_gap [] a lt z = absurd (omega arith)
      in_gap (d ∷ g) (del, a) lt z =
          (g ++ z, find_end-delimiter ds w d (g ++ z) h (delimiter-ne d del) del)

  -- The next token is the next word, and what is left has the other words.
  pub next_token-word :
      (p : Piece) (ps : List Piece) (trail rest : List ℕ)
      → IsPiece ds p
      → ArePieces ds ps
      → AllDelimiters ds trail
      → (junk : List ℕ) × (next_token ds (written (p ∷ ps) trail rest)
          ≡ done (
            some (word p ++ (0 ∷ junk)),
            some (written (left_pieces ps) (left_trail ps trail) rest),
          ))
  unfolding next_token
  next_token-word p ps trail rest (gap, wordly) pieces all =
      let (junk, run) = find_end-word (word p) ps trail rest wordly pieces all in
      let (nz, no_delimiter, more) = wordly in
      let z : (p.first == 0) ≡ false = ground arith in
      let start =
        skip-gap ds p.gap (word p ++ written ps trail rest) gap
        ∙ skip-stop ds p.first (p.more ++ written ps trail rest) no_delimiter in
      (junk, rw (start, z, run))

  -- At the end there is none, and no position is kept.
  pub next_token-end :
      (trail rest : List ℕ)
      → AllDelimiters ds trail
      → next_token ds (trail ++ (0 ∷ rest)) ≡ done (none, none)
  unfolding next_token
  next_token-end trail rest all =
      rw (skip-gap ds trail (0 ∷ rest) all ∙ skip-stop ds 0 rest (delimiter-null ds t))
