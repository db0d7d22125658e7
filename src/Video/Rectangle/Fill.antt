-- ===== src/Video/Rectangle/Fill.antt =====
-- The fill of a rectangle, and single pixels.
use cos.Prelude.{
  ℕ, zero, suc, ◌+◌, ◌%◌, ◌≤◌, ◌<◌, ◌≡◌, refl, sym, ap, ◌∙◌, Bool, true, false, ◌&&◌, ◌||◌, arith,
  ltb, leb, ◌==◌, if◌then◌else◌, Result, ok, err, Run, done, ◌>>=◌, ℤ, pos,
}
use cos.Video.Rectangle.{
  Rectangle, rounds, column_loop, fill_loop, video_rectangle_fill, video_rectangle_set_pixel,
  video_rectangle_get_pixel,
}
use cos.Video.Rectangle.Block.{done-if}
use cos.Video.Rectangle.Pixels.{
  IsRectangle, pixel, is_at, plotted, status_of, set_pixel-plotted, get_pixel-pixel,
  plotted-IsRectangle, pixel-plotted,
}

-- Pixels coloured at row `y`, and then from the next row on, or column by column.
one_more :
    (a b q : Bool) (c o : ℕ)
    → (if q then c else if a && b then c else o) ≡ (if (a && b) || q then c else o)
one_more true true true c o = refl
one_more true true false c o = refl
one_more true false q c o = refl
one_more false b q c o = refl

-- One round of the inner loop, from its write on.
abbrev column_rest :
    (n y x colour : ℕ) → Result (Unit {0}) × Rectangle → Run (Result (Unit {0}) × Rectangle)
column_rest n y x colour (res, rect) = elim res [
  | err e ↦ done (err e, rect)
  | ok u ↦ column_loop n (y + 1) (ok u) rect x colour
]

module _ (w h : ℕ) where
  -- What a loop leaves: it succeeds, and `marked` tells the pixels that have the colour.
  abbrev Fills :
      Rectangle → (colour : ℕ) → Run (Result (Unit {0}) × Rectangle) → ((px py : ℕ) → Bool) → Type 0
  Fills rect colour run marked =
      (rect' : Rectangle) × (run ≡ done (ok tt, rect'))
      × IsRectangle rect' w h
      × ((px py : ℕ)
          → px < w
          → py < h
          → pixel rect' w px py ≡ (if marked px py then colour else pixel rect w px py))

  column_loop-Fills :
      (n y : ℕ) (rect : Rectangle) (x colour : ℕ)
      → IsRectangle rect w h
      → x < w
      → y + n ≤ h
      → Fills rect colour
          (column_loop n y (ok tt) rect x colour)
          (λ px py. (x == px) && (leb y py && ltb py (y + n)))
  unfolding column_loop
  column_loop-Fills zero y rect x colour is lx le = (
    rect,
    refl,
    is,
    λ px py _ _. let e : (x == px) && (leb y py && ltb py (y + 0)) ≡ false = ground arith in rw e,
  )
  column_loop-Fills (suc n) y rect x colour is lx le =
      let within : ltb x w && ltb y h ≡ true = ground arith in
      let drawn = plotted rect w h (pos x) (pos y) colour in
      let (rect', run, is', marks) =
        column_loop-Fills n (y + 1) drawn x colour
          (plotted-IsRectangle rect w h is (pos x) (pos y) colour) lx (omega arith) in
      (
        rect',
        ap (λ r. r >>= column_rest n y x colour)
              (set_pixel-plotted rect w h is (pos x) (pos y) colour)
            ∙ ap (λ b. column_rest n y x colour (if b then ok tt else err 6, drawn)) within
            ∙ run,
        is',
        λ px py lp lq.
            marks px py lp lq
            ∙ ap (λ o. if (x == px) && (leb (y + 1) py && ltb py (y + 1 + n)) then colour else o)
                (pixel-plotted rect w h is (pos x) (pos y) colour px py lp lq)
            ∙ ground arith,
      )

  fill_loop-Fills :
      (n x : ℕ) (rect : Rectangle) (colour : ℕ)
      → IsRectangle rect w h
      → x + n ≤ w
      → Fills rect colour (fill_loop n x (ok tt) rect colour) (λ px py. leb x px && ltb px (x + n))
  unfolding fill_loop
  fill_loop-Fills zero x rect colour is le = (
    rect,
    refl,
    is,
    λ px py _ _. let e : leb x px && ltb px (x + 0) ≡ false = ground arith in rw e,
  )
  fill_loop-Fills (suc n) x rect colour is le =
      let (drawn, column, is1, first) =
        column_loop-Fills h 0 rect x colour is (omega arith) (omega arith) in
      let (rect', run, is', marks) = fill_loop-Fills n (x + 1) drawn colour is1 (omega arith) in
      (
        rect',
        ap
              (λ k.
                column_loop (rounds k) 0 (ok tt) rect x colour
                >>= λ (r : Result (Unit {0}) × Rectangle). fill_loop n (x + 1) r.0 r.1 colour)
              is.height
            ∙ ap
                (λ r.
                  r >>= λ (r : Result (Unit {0}) × Rectangle). fill_loop n (x + 1) r.0 r.1 colour)
                column
            ∙ run,
        is',
        λ px py lp lq.
            marks px py lp lq
            ∙ ap (λ o. if leb (x + 1) px && ltb px (x + 1 + n) then colour else o)
                (first px py lp lq)
            ∙ ground arith,
      )

  -- A fill succeeds, whatever the rectangle holds, and then every pixel has the colour.
  pub video_rectangle_fill-everywhere :
      (rect : Rectangle) (colour px py : ℕ)
      → IsRectangle rect w h
      → px < w
      → py < h
      → (rect' : Rectangle) × (video_rectangle_fill rect colour ≡ done (ok tt, rect'))
        × IsRectangle rect' w h
        × (video_rectangle_get_pixel rect' (pos px) (pos py) ≡ done (colour % 256))
  unfolding video_rectangle_fill
  video_rectangle_fill-everywhere rect colour px py is lx ly =
      let (rect', run, is', marks) = fill_loop-Fills w 0 rect (colour % 256) is (omega arith) in
      let t : ltb px w && ltb py h ≡ true = ground arith in
      let u : leb 0 px && ltb px (0 + w) ≡ true = ground arith in
      (
        rect',
        ap (λ k. fill_loop (rounds k) 0 (ok tt) rect (colour % 256)) is.width ∙ run,
        is',
        get_pixel-pixel rect' w h is' px py
            ∙ ap (λ b. done (if b then pixel rect' w px py else 250)) t
            ∙ ap done
                (marks px py lx ly ∙ ap (λ b. if b then colour % 256 else pixel rect w px py) u),
      )

  -- A write to any position keeps the size, reports whether it names a pixel of the rectangle, and
  -- changes this pixel alone: the others are read as before.
  pub video_rectangle_set_pixel-get :
      (rect : Rectangle) (x y : ℤ) (colour px py : ℕ)
      → IsRectangle rect w h
      → px < w
      → py < h
      → (rect' : Rectangle) × (video_rectangle_set_pixel rect x y colour
          ≡ done (status_of w h x y, rect'))
        × IsRectangle rect' w h
        × (video_rectangle_get_pixel rect' (pos px) (pos py) ≡ (
            if is_at x px && is_at y py
            then done colour
            else video_rectangle_get_pixel rect (pos px) (pos py)))
  video_rectangle_set_pixel-get rect x y colour px py is lx ly =
      let t : ltb px w && ltb py h ≡ true = ground arith in
      let is' = plotted-IsRectangle rect w h is x y colour in
      let read : (r : Rectangle)
          → IsRectangle r w h
          → video_rectangle_get_pixel r (pos px) (pos py) ≡ done (pixel r w px py) =
        λ r i.
          get_pixel-pixel r w h i px py ∙ ap (λ b. done (if b then pixel r w px py else 250)) t in
      (
        plotted rect w h x y colour,
        set_pixel-plotted rect w h is x y colour,
        is',
        read _ is'
            ∙ ap done (pixel-plotted rect w h is x y colour px py lx ly)
            ∙ done-if (is_at x px && is_at y py) colour (pixel rect w px py)
            ∙ ap (λ r. if is_at x px && is_at y py then done colour else r) (sym (read rect is)),
      )
