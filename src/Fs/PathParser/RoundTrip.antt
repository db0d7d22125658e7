-- ===== src/Fs/PathParser/RoundTrip.antt =====
-- A path that is written out parses to itself.
use cos.Prelude.{
  ℕ, ◌+◌, ◌-◌, ◌<◌, ◌≡◌, ◌≢◌, refl, ap, ◌∙◌, true, false, ◌&&◌, some, List, [], ◌∷◌, ◌++◌, arith,
  leb, ◌==◌, length, done,
}
use cos.Strings.{isdigit, tonumericdigit}
use cos.Strings.Copy.{IsText}
use cos.Fs.PathParser.{PathRoot, slash, max_path, pathparser_parse}
use cos.Fs.PathParser.Spec.{All, split, leading, meaning, join, IsPart, IsRoot, render}
use cos.Fs.PathParser.Parse.{parse-meaning}

abbrev Plain : List ℕ → Type 0
Plain p = All (λ c. (c ≢ 0) × (c ≢ slash)) p

split_no_slash : (p : List ℕ) → Plain p → split p ≡ p ∷ []
unfolding split
split_no_slash [] h = refl
split_no_slash (c ∷ p) h =
    let e : (c == slash) ≡ false = let ne = h.0.1 in ground arith in rw (e, split_no_slash p h.1)

split-slash : (p qs : List ℕ) → Plain p → split (p ++ (slash ∷ qs)) ≡ p ∷ split qs
unfolding split
split-slash [] qs h = refl
split-slash (c ∷ p) qs h =
    let e : (c == slash) ≡ false = let ne = h.0.1 in ground arith in rw (e, split-slash p qs h.1)

leading-cons : (p : List ℕ) (ps : List (List ℕ)) → p ≢ [] → leading (p ∷ ps) ≡ p ∷ leading ps
leading-cons [] ps ne = absurd (ne refl)
leading-cons (c ∷ p) ps ne = refl

leading-join : (ps : List (List ℕ)) → All IsPart ps → leading (split (join ps)) ≡ ps
leading-join [] h = unfold split in refl
leading-join (p ∷ []) h = ap leading (split_no_slash p h.0.1) ∙ leading-cons p [] h.0.0
leading-join (p ∷ q ∷ ps) h =
    ap leading (split-slash p (join (q ∷ ps)) h.0.1)
    ∙ leading-cons p (split (join (q ∷ ps))) h.0.0
    ∙ ap (λ (l : List (List ℕ)). p ∷ l) (leading-join (q ∷ ps) h.1)

IsText-append : (p q : List ℕ) → IsText p → IsText q → IsText (p ++ q)
IsText-append [] q hp hq = hq
IsText-append (c ∷ p) q hp hq = (hp.0, IsText-append p q hp.1 hq)

Plain-IsText : (p : List ℕ) → Plain p → IsText p
Plain-IsText [] h = tt
Plain-IsText (c ∷ p) h = (h.0.0, Plain-IsText p h.1)

join-IsText : (ps : List (List ℕ)) → All IsPart ps → IsText (join ps)
join-IsText [] h = tt
join-IsText (p ∷ []) h = Plain-IsText p h.0.1
join-IsText (p ∷ q ∷ ps) h =
    IsText-append p (slash ∷ join (q ∷ ps)) (Plain-IsText p h.0.1)
      ((λ e. omega arith), join-IsText (q ∷ ps) h.1)

meaning-render : (r : PathRoot) → IsRoot r → meaning (render r) ≡ some r
unfolding meaning render isdigit tonumericdigit
meaning-render r h =
    let d = h.drive in
    let digit : (leb 48 (48 + r.drive_no) && leb (48 + r.drive_no) 57) ≡ true = ground arith in
    let n : 48 + r.drive_no - 48 ≡ r.drive_no = omega arith in
    rw (digit, n, leading-join r.parts h.parts)

render-IsText : (r : PathRoot) → IsRoot r → IsText (render r)
unfolding render
render-IsText r h = (omega arith, (omega arith, (omega arith, join-IsText r.parts h.parts)))

-- `pathparser_parse` gives back the root that a path was written out from, if the path is shorter
-- than the limit, the drive is a digit, and no part is empty or holds a slash or a terminator.
pub parse-render :
    (r : PathRoot) (rest : List ℕ)
    → IsRoot r
    → length (render r) < max_path
    → pathparser_parse (render r ++ (0 ∷ rest)) ≡ done (some r)
parse-render r rest h lt =
    parse-meaning (render r) rest (render-IsText r h) lt ∙ ap done (meaning-render r h)
