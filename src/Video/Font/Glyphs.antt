-- ===== src/Video/Font/Glyphs.antt =====
-- What is drawn of a text.
use cos.Prelude.{
  ℕ, zero, suc, ◌+◌, ◌*◌, ◌≤◌, ◌<◌, ◌≡◌, refl, sym, ap, ap₂, ◌∙◌, arith, false, List, [], ◌∷◌, ◌++◌,
  leb, length, take, drop, replicate, length-replicate, Run, done, wild, ◌>>=◌,
}
use cos.Strings.Copy.{IsText, strlen-length}
use cos.Video.Font.{
  Font, draw_rows, video_font_draw_character, draw_text, video_font_draw,
  video_font_make_empty_string,
}

-- The character has a glyph of the font: as many bytes as there are rows.
abbrev pub HasGlyph : Font → ℕ → Type 0
HasGlyph font c =
    (c < 128)
    × (c * font.c_bytes < font.datasize)
    × (font.c_height ≤ length (drop (c * font.c_bytes) font.data_bytes))

abbrev pub HasGlyphs : Font → List ℕ → Type 0
HasGlyphs font [] = Unit
HasGlyphs font (c ∷ cs) = HasGlyph font c × HasGlyphs font cs

abbrev pub glyph : Font → ℕ → List ℕ
glyph font c = take font.c_height (drop (c * font.c_bytes) font.data_bytes)

-- The glyphs one behind the other.
abbrev pub glyphs : Font → List ℕ → List ℕ
glyphs font [] = []
glyphs font (c ∷ cs) = glyph font c ++ glyphs font cs

draw_rows-take :
    (n : ℕ) (out rows : List ℕ)
    → n ≤ length out
    → n ≤ length rows
    → draw_rows n out rows ≡ done (take n rows ++ drop n out)
unfolding draw_rows
draw_rows-take zero out rows lo lr = refl
draw_rows-take (suc n) [] rows lo lr = absurd (omega arith)
draw_rows-take (suc n) (d ∷ out) [] lo lr = absurd (omega arith)
draw_rows-take (suc n) (d ∷ out) (r ∷ rows) lo lr =
    ap (λ x. x >>= λ drawn. done (r ∷ drawn))
      (draw_rows-take n out rows (omega arith) (omega arith))

draw_rows-short : (n : ℕ) (out rows : List ℕ) → length out < n → draw_rows n out rows ≡ wild
unfolding draw_rows
draw_rows-short zero out rows lt = absurd (omega arith)
draw_rows-short (suc n) [] rows lt = refl
draw_rows-short (suc n) (d ∷ out) [] lt = refl
draw_rows-short (suc n) (d ∷ out) (r ∷ rows) lt =
    ap (λ x. x >>= λ drawn. done (r ∷ drawn)) (draw_rows-short n out rows (omega arith))

draw_character-rows :
    (font : Font) (out : List ℕ) (c : ℕ)
    → HasGlyph font c
    → video_font_draw_character font out c
      ≡ draw_rows font.c_height out (drop (c * font.c_bytes) font.data_bytes)
unfolding video_font_draw_character
draw_character-rows font out c (low, inside, whole) =
    let a : leb 128 c ≡ false = ground arith in
    let b : leb font.datasize (c * font.c_bytes) ≡ false = ground arith in rw (a, b)

length-take : (n : ℕ) (xs : List ℕ) → n ≤ length xs → length (take n xs) ≡ n
length-take zero xs le = refl
length-take (suc n) [] le = absurd (omega arith)
length-take (suc n) (x ∷ xs) le = ap suc (length-take n xs (omega arith))

take-append : (xs ys : List ℕ) → take (length xs) (xs ++ ys) ≡ xs
take-append [] ys = refl
take-append (x ∷ xs) ys = ap (λ (t : List ℕ). x ∷ t) (take-append xs ys)

drop-append : (xs ys : List ℕ) → drop (length xs) (xs ++ ys) ≡ ys
drop-append [] ys = refl
drop-append (x ∷ xs) ys = drop-append xs ys

length-drop : (n k : ℕ) (xs : List ℕ) → length xs ≡ n + k → length (drop n xs) ≡ k
length-drop zero k xs e = omega arith
length-drop (suc n) k [] e = absurd (omega arith)
length-drop (suc n) k (x ∷ xs) e = length-drop n k xs (omega arith)

module _ (font : Font) (fits : font.c_height ≡ font.c_bytes) where
  -- One character, and the text behind it.
  draw_text-step :
      (c : ℕ) (text out : List ℕ)
      → HasGlyph font c
      → font.c_bytes ≤ length out
      → draw_text font (c ∷ text) out
        ≡ (draw_text font text (drop font.c_bytes out) >>= λ rest. done (glyph font c ++ rest))
  unfolding draw_text
  draw_text-step c text out g le =
      let n : font.c_height ≤ length out = omega arith in
      let left = drop font.c_height out in
      let size : font.c_bytes ≡ length (glyph font c) =
        sym (length-take font.c_height _ g.2 ∙ fits) in
      ap
        (λ (x : Run (List ℕ)). x >>= λ drawn.
          draw_text font text (drop font.c_bytes drawn) >>= λ rest.
          done (take font.c_bytes drawn ++ rest))
        (draw_character-rows font out c g ∙ draw_rows-take font.c_height out _ n g.2)
      ∙ ap₂ (λ (t d : List ℕ). draw_text font text d >>= λ rest. done (t ++ rest))
          (ap (λ k. take k (glyph font c ++ left)) size ∙ take-append (glyph font c) left)
          (ap (λ k. drop k (glyph font c ++ left)) size
            ∙ drop-append (glyph font c) left
            ∙ ap (λ k. drop k out) fits)

  draw_text-glyphs :
      (text out : List ℕ)
      → HasGlyphs font text
      → length out ≡ length text * font.c_bytes
      → draw_text font text out ≡ done (glyphs font text)
  unfolding draw_text
  draw_text-glyphs [] [] g e = refl
  draw_text-glyphs [] (o ∷ out) g e = absurd (omega arith)
  draw_text-glyphs (c ∷ text) out (g, gs) e =
      let left = length-drop font.c_bytes (length text * font.c_bytes) out (omega arith) in
      draw_text-step c text out g (omega arith)
      ∙ ap (λ x. x >>= λ rest. done (glyph font c ++ rest))
          (draw_text-glyphs text (drop font.c_bytes out) gs left)

  draw_text-short :
      (k : ℕ) (text out : List ℕ)
      → HasGlyphs font text
      → 0 < font.c_bytes
      → length out ≡ k * font.c_bytes
      → k < length text
      → draw_text font text out ≡ wild
  unfolding draw_text
  draw_text-short k [] out g some_rows e lt = absurd (omega arith)
  draw_text-short zero (c ∷ text) out (g, gs) some_rows e lt =
      ap
        (λ (x : Run (List ℕ)). x >>= λ drawn.
          draw_text font text (drop font.c_bytes drawn) >>= λ rest.
          done (take font.c_bytes drawn ++ rest))
        (draw_character-rows font out c g ∙ draw_rows-short font.c_height out _ (omega arith))
  draw_text-short (suc k) (c ∷ text) out (g, gs) some_rows e lt =
      let left = length-drop font.c_bytes (k * font.c_bytes) out (omega arith) in
      draw_text-step c text out g (omega arith)
      ∙ ap (λ x. x >>= λ rest. done (glyph font c ++ rest))
          (draw_text-short k text (drop font.c_bytes out) gs some_rows left (omega arith))

  draw-text :
      (out text rest : List ℕ)
      → IsText text
      → video_font_draw font out (text ++ (0 ∷ rest)) ≡ draw_text font text out
  unfolding video_font_draw
  draw-text out text rest t =
      ap (λ r. r >>= λ len. draw_text font (take len (text ++ (0 ∷ rest))) out)
        (strlen-length text rest t)
      ∙ ap (λ cs. draw_text font cs out) (take-append text (0 ∷ rest))

  -- A text whose characters have glyphs, of as many bytes as the font has for one, is drawn to a buffer
  -- made for its length: the glyphs one behind the other. To a buffer made for fewer characters, `k`,
  -- it is drawn over the end.
  pub video_font_draw-glyphs :
      (k : ℕ) (text rest : List ℕ)
      → IsText text
      → HasGlyphs font text
      → 0 < font.c_bytes
      → k < length text
      → (video_font_draw font (video_font_make_empty_string font (length text)) (text ++ (0 ∷ rest))
          ≡ done (glyphs font text))
        × (video_font_draw font (video_font_make_empty_string font k) (text ++ (0 ∷ rest)) ≡ wild)
  unfolding video_font_make_empty_string
  video_font_draw-glyphs k text rest t g some_rows lt = (
    draw-text (replicate (font.c_bytes * length text) 0) text rest t
        ∙ draw_text-glyphs text (replicate (font.c_bytes * length text) 0) g
            (length-replicate (font.c_bytes * length text) 0 ∙ omega arith),
    draw-text (replicate (font.c_bytes * k) 0) text rest t
        ∙ draw_text-short k text (replicate (font.c_bytes * k) 0) g some_rows
            (length-replicate (font.c_bytes * k) 0 ∙ omega arith) lt,
  )
