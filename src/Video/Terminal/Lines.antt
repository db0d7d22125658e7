-- ===== src/Video/Terminal/Lines.antt =====
-- The lines of a terminal on its rectangle.
use cos.Prelude.{
  ℕ, zero, suc, ◌+◌, ◌/◌, ◌<◌, ◌≡◌, ◌≢◌, refl, sym, ap, subst, ◌∙◌, arith, true, false, some, List,
  [], ◌∷◌, ◌++◌, ltb, ◌==◌, if◌then◌else◌, length, length-append, done, wild, pos,
}
use native.Mathlib.Decide.{ℕ_discrete}
use cos.Strings.Copy.{IsText, strlen-length}
use cos.Video.Rectangle.{Rectangle}
use cos.Video.Font.{Font}
use cos.Video.Font.Glyphs.{HasGlyphs, video_font_draw-glyphs}
use cos.Video.Terminal.{line_loop, video_terminal_get_next_line, draw_line, paste_loop}

-- How a text begins: with a line of `max` characters at most, and then a newline, or with `max`
-- characters, none of them a newline, or it ends.
abbrev pub NoNewline : List ℕ → Type 0
NoNewline [] = Unit
NoNewline (c ∷ cs) = (c ≢ 10) × NoNewline cs

pub data FirstLine (max : ℕ) : (text line left : List ℕ) → Type 0 where
  broken :
      (line left : List ℕ)
      → NoNewline line
      → length line < max
      → FirstLine max (line ++ (10 ∷ left)) line left
  wrapped :
      (line left : List ℕ)
      → NoNewline line
      → length line ≡ max
      → FirstLine max (line ++ left) line left
  last : (line : List ℕ) → NoNewline line → length line < max → FirstLine max line line []

-- The characters looked at.
abbrev limit : (max slen : ℕ) → ℕ
limit max slen = if ltb max slen then max else slen

-- How many characters are before what is left, and that.
abbrev Splits : (max i : ℕ) → (text rest : List ℕ) → Type 0
Splits max i text rest =
    (line : List ℕ) × (left : List ℕ) × FirstLine max text line left
    × (line_loop (limit max (length text)) i (text ++ (0 ∷ rest))
        ≡ (i + length line, left ++ (0 ∷ rest)))

longer :
    {max c : ℕ} {text line left : List ℕ}
    → c ≢ 10
    → FirstLine max text line left
    → FirstLine (suc max) (c ∷ text) (c ∷ line) left
longer {c} ne (broken line left n lt) = broken (c ∷ line) left (ne, n) (omega arith)
longer {c} ne (wrapped line left n e) = wrapped (c ∷ line) left (ne, n) (ap suc e)
longer {c} ne (last line n lt) = last (c ∷ line) (ne, n) (omega arith)

line_loop-Splits : (max i : ℕ) (text rest : List ℕ) → Splits max i text rest
unfolding line_loop
line_loop-Splits zero i text rest =
    let z : limit 0 (length text) ≡ 0 = ground arith in
    ([], text, wrapped [] text tt refl, rw z (ap (λ k. (k, text ++ (0 ∷ rest))) (omega arith)))
line_loop-Splits (suc max) i [] rest =
    let z : limit (suc max) 0 ≡ 0 = ground arith in
    ([], [], last [] tt (omega arith), rw z (ap (λ k. (k, 0 ∷ rest)) (omega arith)))
line_loop-Splits (suc max) i (c ∷ text) rest =
    let n : limit (suc max) (suc (length text)) ≡ suc (limit max (length text)) = ground arith in
    elim (ℕ_discrete c 10) [
      | yes e ↦
          let t : (c == 10) ≡ true = ground arith in
          (
            [],
            text,
            subst (λ d. FirstLine (suc max) (d ∷ text) [] text) (sym e)
                (broken [] text tt (omega arith)),
            rw (n, t) (ap (λ k. (k, text ++ (0 ∷ rest))) (omega arith)),
          )
      | no ne ↦
          let t : (c == 10) ≡ false = ground arith in
          let (line, left, first, run) = line_loop-Splits max (i + 1) text rest in
          (
            c ∷ line,
            left,
            longer ne first,
            rw (n, t) (run ∙ ap (λ k. (k, left ++ (0 ∷ rest))) (omega arith)),
          )
    ]

-- The next line of a text that is not empty, on a rectangle `w` wide with characters `c_width` wide: its
-- length, and what is left, where the text begins with a line of at most as many characters as fit
-- beside each other.
pub video_terminal_get_next_line-FirstLine :
    (rect : Rectangle) (font : Font) (w : ℕ) (text rest : List ℕ)
    → rect.width ≡ pos w
    → 0 < font.c_width
    → IsText text
    → 0 < length text
    → (line : List ℕ) × (left : List ℕ) × FirstLine (w / font.c_width) text line left
      × (video_terminal_get_next_line rect font (text ++ (0 ∷ rest))
          ≡ done (some (length line, left ++ (0 ∷ rest))))
unfolding video_terminal_get_next_line
video_terminal_get_next_line-FirstLine rect font w text rest wide some_width t some_text =
    let (line, left, first, run) = line_loop-Splits (w / font.c_width) 0 text rest in
    let a : (length text == 0) ≡ false = ground arith in
    let b : (font.c_width == 0) ≡ false = ground arith in
    (
      line,
      left,
      first,
      rw (strlen-length text rest t, a, b, wide)
          (ap (λ r. done (some r)) (run ∙ ap (λ k. (k, left ++ (0 ∷ rest))) (omega arith))),
    )

shorter :
    {max : ℕ} {text line left : List ℕ}
    → FirstLine max text line left
    → max < length text
    → length line < length text
shorter (broken line left n lt) long = let e = length-append line (10 ∷ left) in omega arith
shorter (wrapped line left n e) long = omega arith
shorter (last line n lt) long = absurd (omega arith)

-- A text longer than a line is drawn over the end of the buffer for its first line, where every
-- character of it has a glyph.
pub paste_loop-overflow :
    (k : ℕ) (rect : Rectangle) (font : Font) (w : ℕ) (text rest : List ℕ) (y : ℕ)
    → rect.width ≡ pos w
    → 0 < font.c_width
    → font.c_height ≡ font.c_bytes
    → 0 < font.c_bytes
    → IsText text
    → HasGlyphs font text
    → w / font.c_width < length text
    → paste_loop (suc k) rect font (text ++ (0 ∷ rest)) 0 y ≡ some wild
unfolding paste_loop draw_line
paste_loop-overflow k rect font w text rest y wide some_width fits some_rows t glyphs long =
    let (line, left, first, run) =
      video_terminal_get_next_line-FirstLine rect font w text rest wide some_width t
        (omega arith) in
    let (whole, over) =
      video_font_draw-glyphs font fits (length line) text rest t glyphs some_rows
        (shorter first long) in
    rw (run, over)
