-- ===== src/Strings/Token/Calls.antt =====
-- Calls of `strtok` one after the other, and `basename`.
use cos.Prelude.{ℕ, ◌≡◌, refl, ap, ◌∙◌, Option, none, some, List, [], ◌∷◌, ◌++◌, length, take, done}
use cos.Strings.Copy.{IsText, strlen-length}
use cos.Strings.Token.{strtok, next_token}
use cos.Strings.Token.Words.{
  AllDelimiters, Piece, words, written, IsPiece, ArePieces, left_pieces, left_trail, tail,
  next_token-word, next_token-end,
}

-- A call with the kept position `sp` and the string `str`, and calls with the string `again`, or none,
-- after it, return these words, each with its terminator, and then NULL.
abbrev pub Yields :
    (delimiters : List ℕ) → (sp str again : Option (List ℕ)) → (found : List (List ℕ)) → Type 0
Yields delimiters sp str again [] = strtok sp str delimiters ≡ done (none, none)
Yields delimiters sp str again (w ∷ found) =
    (junk : List ℕ) × (sp' : Option (List ℕ)) × (strtok sp str delimiters
      ≡ done (some (w ++ (0 ∷ junk)), sp'))
    × Yields delimiters sp' again again found

-- The string begins with a delimiter or with a word.
abbrev pub BeginPieces : (delimiters : List ℕ) → List Piece → Type 0
BeginPieces ds [] = Unit
BeginPieces ds (p ∷ ps) = IsPiece ds p × ArePieces ds ps

AllDelimiters-tail : (ds gap : List ℕ) → AllDelimiters ds gap → AllDelimiters ds (tail gap)
AllDelimiters-tail ds [] all = tt
AllDelimiters-tail ds (g ∷ gap) all = all.1

take-before : (cs rest : List ℕ) → take (length cs) (cs ++ rest) ≡ cs
take-before [] rest = refl
take-before (c ∷ cs) rest = ap (λ z. c ∷ z) (take-before cs rest)

module _ (ds spare : List ℕ) (t : IsText ds) where
  strtok-next_token :
      (text : List ℕ) (str : Option (List ℕ))
      → strtok (some text) str (ds ++ (0 ∷ spare)) ≡ next_token ds text
  unfolding strtok
  strtok-next_token text str = rw (strlen-length ds spare t, take-before ds (0 ∷ spare))

  strtok-first : (text : List ℕ) → strtok none (some text) (ds ++ (0 ∷ spare)) ≡ next_token ds text
  unfolding strtok
  strtok-first text = rw (strlen-length ds spare t, take-before ds (0 ∷ spare))

  left-Yields :
      (ps : List Piece) (trail rest : List ℕ) (str : Option (List ℕ))
      → ArePieces ds ps
      → AllDelimiters ds trail
      → Yields
          (ds ++ (0 ∷ spare))
          (some (written (left_pieces ps) (left_trail ps trail) rest))
          str
          str
          (words ps)
  left-Yields [] trail rest str pieces all =
      strtok-next_token (written [] (tail trail) rest) str
      ∙ next_token-end ds t (tail trail) rest (AllDelimiters-tail ds trail all)
  left-Yields (p ∷ ps) trail rest str ((gap, wordly), some_gap, more) all =
      let p' : Piece = record p { gap = tail p.gap } in
      let (junk, e) =
        next_token-word ds t p' ps trail rest (AllDelimiters-tail ds p.gap gap, wordly) more all in
      (
        junk,
        some (written (left_pieces ps) (left_trail ps trail) rest),
        strtok-next_token (written (p' ∷ ps) trail rest) str ∙ e,
        left-Yields ps trail rest str more all,
      )

  -- Calls of `strtok` on a string, the first without a kept position, return its words.
  pub strtok-Yields :
      (ps : List Piece) (trail rest : List ℕ) (again : Option (List ℕ))
      → BeginPieces ds ps
      → AllDelimiters ds trail
      → Yields (ds ++ (0 ∷ spare)) none (some (written ps trail rest)) again (words ps)
  strtok-Yields [] trail rest again pieces all =
      strtok-first (written [] trail rest) ∙ next_token-end ds t trail rest all
  strtok-Yields (p ∷ ps) trail rest again (piece, more) all =
      let (junk, e) = next_token-word ds t p ps trail rest piece more all in
      (
        junk,
        some (written (left_pieces ps) (left_trail ps trail) rest),
        strtok-first (written (p ∷ ps) trail rest) ∙ e,
        left-Yields ps trail rest again more all,
      )
