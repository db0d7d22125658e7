-- ===== src/Strings/Tests.antt =====
-- Runs of the string functions, and the theorems at them.
use cos.Prelude.{ℕ, ◌≡◌, refl, none, some, List, [], ◌∷◌, ◌++◌, arith, drop, take, replicate, done}
use mathlib.Core.List.{map}
use cos.Strings.{strlen, strncpy, strcmp, istrncmp, tolower}
use cos.Strings.Copy.{IsText, copied, strncpy-copied}
use cos.Strings.Token.{is_delimiter, skip_delimiters, find_end, next_token, strtok, basename}
use cos.Strings.Token.Words.{AllDelimiters, IsPiece, Piece, words, written}
use cos.Strings.Token.Calls.{Yields, strtok-Yields}
use cos.Strings.Token.Basename.{slash, basename-last}
use cos.Strings.Compare.{Decides, strcmp-Decides, istrncmp-Decides}

-- "bin" and "BIN".
abbrev bin : List ℕ
bin = 98 ∷ 105 ∷ 110 ∷ []

abbrev upper_bin : List ℕ
upper_bin = 66 ∷ 73 ∷ 78 ∷ []

bin-IsText : IsText bin
bin-IsText = (omega arith, (omega arith, (omega arith, tt)))

upper_bin-IsText : IsText upper_bin
upper_bin-IsText = (omega arith, (omega arith, (omega arith, tt)))

strncpy-copied_test :
    strncpy (9 ∷ 9 ∷ 9 ∷ []) (bin ++ (0 ∷ [])) 2 ≡ done (copied (9 ∷ 9 ∷ 9 ∷ []) bin 2)
strncpy-copied_test = strncpy-copied (9 ∷ 9 ∷ 9 ∷ []) bin [] 2 bin-IsText (omega arith)

strcmp-Decides_test : Decides (strcmp (bin ++ (0 ∷ [])) (upper_bin ++ (0 ∷ []))) (bin ≡ upper_bin)
strcmp-Decides_test = strcmp-Decides bin upper_bin [] [] bin-IsText upper_bin-IsText

istrncmp-Decides_test :
    Decides
      (istrncmp (bin ++ (0 ∷ [])) (upper_bin ++ (0 ∷ [])) 3)
      (map tolower (take 3 bin) ≡ map tolower (take 3 upper_bin))
istrncmp-Decides_test = istrncmp-Decides bin upper_bin [] [] 3 bin-IsText upper_bin-IsText

-- "/bin//ls/"
abbrev bin_piece : Piece
bin_piece = record { gap = slash; first = 98; more = 105 ∷ 110 ∷ [] }

abbrev ls_piece : Piece
ls_piece = record { gap = 47 ∷ 47 ∷ []; first = 108; more = 115 ∷ [] }

abbrev pieces : List Piece
pieces = bin_piece ∷ ls_piece ∷ []

abbrev bin_ls : List ℕ
bin_ls = 47 ∷ 98 ∷ 105 ∷ 110 ∷ 47 ∷ 47 ∷ 108 ∷ 115 ∷ 47 ∷ 0 ∷ 9 ∷ []

bin_ls-written : bin_ls ≡ written pieces slash (9 ∷ [])
bin_ls-written = refl

-- The delimiter behind "bin" is overwritten, and the next call starts behind it.
strtok-run :
    strtok none (some bin_ls) (47 ∷ 0 ∷ [])
    ≡ done (
      some (98 ∷ 105 ∷ 110 ∷ 0 ∷ 47 ∷ 108 ∷ 115 ∷ 47 ∷ 0 ∷ 9 ∷ []),
      some (47 ∷ 108 ∷ 115 ∷ 47 ∷ 0 ∷ 9 ∷ []),
    )
unfolding strtok strlen next_token skip_delimiters is_delimiter find_end
strtok-run = refl

slash-AllDelimiters : AllDelimiters slash slash
unfolding is_delimiter
slash-AllDelimiters = (refl, tt)

bin_piece-IsPiece : IsPiece slash bin_piece
unfolding is_delimiter
bin_piece-IsPiece =
    (slash-AllDelimiters, (omega arith, refl, (omega arith, refl, (omega arith, refl, tt))))

ls_piece-IsPiece : IsPiece slash ls_piece
unfolding is_delimiter
ls_piece-IsPiece = ((refl, (refl, tt)), (omega arith, refl, (omega arith, refl, tt)))

strtok-Yields_example :
    Yields (slash ++ (0 ∷ [])) none (some (written pieces slash (9 ∷ []))) none (words pieces)
strtok-Yields_example =
    strtok-Yields slash [] (omega arith, tt) pieces slash (9 ∷ []) none
      (bin_piece-IsPiece, (ls_piece-IsPiece, omega arith, tt)) slash-AllDelimiters

basename-last_example :
    basename 3 none (replicate 16 1) (written pieces slash (9 ∷ [])) (replicate 16 7) 16
    ≡ some (done (108 ∷ 115 ∷ 0 ∷ drop 3 (replicate 16 7)))
basename-last_example =
    basename-last bin_piece (ls_piece ∷ []) slash (9 ∷ []) (replicate 16 1) (replicate 16 7) 3 16
      bin_piece-IsPiece (ls_piece-IsPiece, omega arith, tt) slash-AllDelimiters (omega arith)
      (omega arith) (omega arith) (omega arith)
