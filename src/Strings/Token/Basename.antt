-- ===== src/Strings/Token/Basename.antt =====
-- `basename` copies the last word of its path.
use cos.Prelude.{
  ℕ, zero, suc, ◌≤◌, ◌<◌, ◌≡◌, ◌≢◌, refl, true, sym, ap, ◌∙◌, arith, Option, none, some, List, [],
  ◌∷◌, ◌++◌, append_assoc, length, length-append, drop, done, ltb,
}
use cos.Strings.{strncpy}
use cos.Strings.Copy.{IsText, strncpy-copied}
use cos.Strings.Token.{is_delimiter, last_loop, basename}
use cos.Strings.Token.Words.{
  AllDelimiters, IsWordly, Piece, word, words, written, IsPiece, ArePieces,
}
use cos.Strings.Token.Calls.{Yields, strtok-Yields}

abbrev pub slash : List ℕ
slash = 47 ∷ []

abbrev pub last_of : (w : List ℕ) → (found : List (List ℕ)) → List ℕ
last_of w [] = w
last_of w (v ∷ found) = last_of v found

last_loop-last :
    (k : ℕ) (sp : Option (List ℕ)) (buf w junk : List ℕ) (last : Option (List ℕ))
    (found : List (List ℕ))
    → Yields (slash ++ (0 ∷ [])) sp (some buf) (some buf) found
    → length found < k
    → (junk' : List ℕ) × (last_loop (suc k) sp buf (some (w ++ (0 ∷ junk))) last
        ≡ some (done (some (last_of w found ++ (0 ∷ junk')))))
unfolding last_loop
last_loop-last zero sp buf w junk last found yields fuel = absurd (omega arith)
last_loop-last (suc k) sp buf w junk last [] yields fuel = (junk, rw (last_loop, yields))
last_loop-last (suc k) sp buf w junk last (v ∷ found) (junk', sp', e, yields) fuel =
    let (junk'', rest) =
      last_loop-last k sp' buf v junk' (some (w ++ (0 ∷ junk))) found yields (omega arith) in
    (junk'', rw (last_loop, e, rest))

-- The text of the pieces.
abbrev pub plain : List Piece → (trail : List ℕ) → List ℕ
plain [] trail = trail
plain (p ∷ ps) trail = p.gap ++ (word p ++ plain ps trail)

written-plain :
    (ps : List Piece) (trail rest : List ℕ) → written ps trail rest ≡ plain ps trail ++ (0 ∷ rest)
written-plain [] trail rest = refl
written-plain (p ∷ ps) trail rest =
    ap (λ z. p.gap ++ (word p ++ z)) (written-plain ps trail rest)
    ∙ ap (λ z. p.gap ++ z) (sym (append_assoc (word p) (plain ps trail) (0 ∷ rest)))
    ∙ sym (append_assoc p.gap (word p ++ plain ps trail) (0 ∷ rest))

IsText-append : (cs ds : List ℕ) → IsText cs → IsText ds → IsText (cs ++ ds)
IsText-append [] ds c d = d
IsText-append (x ∷ cs) ds (nz, c) d = (nz, IsText-append cs ds c d)

IsWordly-IsText : (w : List ℕ) → IsWordly slash w → IsText w
IsWordly-IsText [] h = tt
IsWordly-IsText (c ∷ w) (nz, no_delimiter, h) = (nz, IsWordly-IsText w h)

AllDelimiters-IsText : (gap : List ℕ) → AllDelimiters slash gap → IsText gap
unfolding is_delimiter
AllDelimiters-IsText [] h = tt
AllDelimiters-IsText (c ∷ gap) (d, h) =
    let nz : c ≢ 0 = λ z. ground arith in (nz, AllDelimiters-IsText gap h)

piece-IsText :
    (p : Piece) (behind : List ℕ)
    → IsPiece slash p
    → IsText behind
    → IsText (p.gap ++ (word p ++ behind))
piece-IsText p behind (gap, wordly) t =
    IsText-append p.gap (word p ++ behind) (AllDelimiters-IsText p.gap gap)
      (IsText-append (word p) behind (IsWordly-IsText (word p) wordly) t)

plain-IsText :
    (ps : List Piece) (trail : List ℕ)
    → ArePieces slash ps
    → AllDelimiters slash trail
    → IsText (plain ps trail)
plain-IsText [] trail pieces all = AllDelimiters-IsText trail all
plain-IsText (p ∷ ps) trail (piece, some_gap, more) all =
    piece-IsText p (plain ps trail) piece (plain-IsText ps trail more all)

last_of-IsText :
    (p : Piece) (ps : List Piece)
    → IsPiece slash p
    → ArePieces slash ps
    → IsText (last_of (word p) (words ps))
last_of-IsText p [] piece pieces = IsWordly-IsText (word p) piece.1
last_of-IsText p (q ∷ ps) piece (next, some_gap, more) = last_of-IsText q ps next more

last_of-length :
    (p : Piece) (ps : List Piece) (trail : List ℕ)
    → length (last_of (word p) (words ps)) ≤ length (plain (p ∷ ps) trail)
last_of-length p [] trail =
    let e = length-append p.gap (word p ++ trail) in
    let e' = length-append p.more trail in omega arith
last_of-length p (q ∷ ps) trail =
    let le = last_of-length q ps trail in
    let e = length-append p.gap (word p ++ plain (q ∷ ps) trail) in
    let e' = length-append p.more (plain (q ∷ ps) trail) in omega arith

-- A path of words with slashes between them, and before and behind them if there are any, that fits the
-- buffers: while no position of `strtok` is kept, `basename` ends for fuel above the number of words and
-- copies the last word with a terminator; the bytes behind it stay.
pub basename-last :
    (p : Piece) (ps : List Piece) (trail rest stack out_filename : List ℕ) (fuel max_len : ℕ)
    → IsPiece slash p
    → ArePieces slash ps
    → AllDelimiters slash trail
    → length (plain (p ∷ ps) trail) < max_len
    → max_len ≤ length stack
    → max_len ≤ length out_filename
    → length (words (p ∷ ps)) < fuel
    → basename fuel none stack (written (p ∷ ps) trail rest) out_filename max_len
      ≡ some (
          done (
            last_of (word p) (words ps)
            ++ (0 ∷ drop (suc (length (last_of (word p) (words ps)))) out_filename)))
unfolding basename
basename-last p ps trail rest stack out zero max_len piece more all short fits fits_out enough =
    absurd (omega arith)
basename-last p ps trail rest stack out (suc zero) max_len piece more all short fits fits_out
      enough =
    absurd (omega arith)
basename-last p ps trail rest stack out (suc (suc k)) max_len piece more all short fits fits_out
      enough =
    let path : List ℕ = plain (p ∷ ps) trail in
    let path-IsText : IsText path =
      piece-IsText p (plain ps trail) piece (plain-IsText ps trail more all) in
    let behind : List ℕ = drop (suc (length path)) stack in
    let t : ltb (length path) max_len ≡ true = ground arith in
    let copy : strncpy stack (written (p ∷ ps) trail rest) max_len
        ≡ done (written (p ∷ ps) trail behind) =
      ap (λ z. strncpy stack z max_len) (written-plain (p ∷ ps) trail rest)
      ∙ strncpy-copied stack path rest max_len path-IsText fits
      ∙ ap done (rw t)
      ∙ sym (ap done (written-plain (p ∷ ps) trail behind)) in
    let (junk, sp', e, yields) =
      strtok-Yields slash [] (omega arith, tt) (p ∷ ps) trail behind
        (some (written (p ∷ ps) trail behind)) (piece, more) all in
    let (junk', last) =
      last_loop-last (suc k) sp' (written (p ∷ ps) trail behind) (word p) junk
        (some (word p ++ (0 ∷ junk))) (words ps) yields (omega arith) in
    let out_copied =
      strncpy-copied out (last_of (word p) (words ps)) junk' max_len
        (last_of-IsText p ps piece more) fits_out in
    let le = last_of-length p ps trail in
    let t' : ltb (length (last_of (word p) (words ps))) max_len ≡ true = ground arith in
    rw (basename, copy, e, last, out_copied, t')
