-- ===== src/Video/Screen/Draw.antt =====
-- What `video_rectangle_draw` leaves in the back buffer.
use native.Mathlib.Decide.{ℕ_discrete}
use cos.Prelude.{
  ℕ, zero, suc, ◌+◌, ◌-◌, ◌*◌, ◌≤◌, ◌<◌, ◌≡◌, refl, sym, ap, ap₂, ◌∙◌, Bool, true, false, ◌&&◌,
  arith, List, ltb, leb, ◌==◌, if◌then◌else◌, length, get_or, set, length-set, get_or-set_self,
  get_or-set_ne, Run, done, ◌>>=◌, pos,
}
use cos.Video.Rectangle.{Rectangle, rounds, add_ℕ}
use cos.Video.Rectangle.Pixels.{IsRectangle, pixel, get_pixel-pixel}
use cos.Video.Screen.{
  vga_width, vga_memory_size, Video, with_rectangle, video_rectangle_vga_320_200_plot_pixel,
  draw_column, draw_columns, video_rectangle_draw,
}

abbrev vga_height : ℕ
vga_height = 200

-- The pixel of the screen at (x, y).
abbrev pub on_screen : List ℕ → (x y : ℕ) → ℕ
on_screen buffer x y = get_or buffer (y * vga_width + x) 0

plot-set :
    (buffer : List ℕ) (x y colour : ℕ)
    → length buffer ≡ vga_memory_size
    → x < vga_width
    → y < vga_height
    → video_rectangle_vga_320_200_plot_pixel buffer (pos x) (pos y) colour
      ≡ done (set buffer (y * vga_width + x) colour)
unfolding video_rectangle_vga_320_200_plot_pixel
plot-set buffer x y colour size lx ly =
    let t : ltb (y * vga_width + x) (length buffer) ≡ true = ground arith in rw t

on_screen-set :
    (buffer : List ℕ) (x y colour px py : ℕ)
    → length buffer ≡ vga_memory_size
    → x < vga_width
    → y < vga_height
    → px < vga_width
    → on_screen (set buffer (y * vga_width + x) colour) px py
      ≡ (if (x == px) && (y == py) then colour else on_screen buffer px py)
on_screen-set buffer x y colour px py size lx ly lp =
    elim (ℕ_discrete (y * vga_width + x) (py * vga_width + px)) [
      | yes same ↦
          let t : ((x == px) && (y == py)) ≡ true = ground arith in
          rw t (
            ap (λ i. get_or (set buffer (y * vga_width + x) colour) i 0) (sym same)
            ∙ get_or-set_self buffer (y * vga_width + x) colour 0 (omega arith))
      | no other ↦
          let f : ((x == px) && (y == py)) ≡ false = ground arith in
          rw f (get_or-set_ne buffer (y * vga_width + x) (py * vga_width + px) colour 0 other)
    ]

-- The row `y`, or one of the `n` rows from the next one, `y'`, on.
this_or_later :
    (x px y y' py n p c old : ℕ)
    → y' ≡ y + 1
    → (x ≡ px → y ≡ py → p ≡ c)
    → (if (x == px) && (leb y' py && ltb py (y' + n))
        then p
        else if (x == px) && (y == py)
        then c
        else old)
      ≡ (if (x == px) && (leb y py && ltb py (y + suc n)) then p else old)
this_or_later x px y y' py n p c old next same = elim (ℕ_discrete x px) [
  | no ne ↦ let f : (x == px) ≡ false = ground arith in rw f
  | yes ex ↦ elim (ℕ_discrete y py) [
    | no ne ↦ ground arith
    | yes ey ↦ let e = same ex ey in ground arith
  ]
]

-- A rectangle that is on the screen as a whole.
pub record IsOnScreen (rect : Rectangle) (w h a o : ℕ) : Type 0 where
  pub is : IsRectangle rect w h
  pub left : rect.x ≡ pos a
  pub top : rect.y ≡ pos o
  pub fits_width : a + w ≤ vga_width
  pub fits_height : o + h ≤ vga_height

module _ (rect : Rectangle) (w h a o : ℕ) (on : IsOnScreen rect w h a o) where
  -- What a loop leaves: a buffer of the same size, with the pixels that `marked` tells.
  abbrev Copies : List ℕ → Run (List ℕ) → (marked : (px py : ℕ) → Bool) → Type 0
  Copies buffer run marked =
      (buffer' : List ℕ) × (run ≡ done buffer')
      × (length buffer' ≡ vga_memory_size)
      × ((px py : ℕ)
          → px < vga_width
          → py < vga_height
          → on_screen buffer' px py
            ≡ (if marked px py then pixel rect w (px - a) (py - o) else on_screen buffer px py))

  abbrev column_rest : (n y x : ℕ) → List ℕ → ℕ → Run (List ℕ)
  column_rest n y x buffer colour =
      video_rectangle_vga_320_200_plot_pixel buffer (add_ℕ rect.x x) (add_ℕ rect.y y) colour
      >>= draw_column n (y + 1) rect x

  plot_here :
      (buffer : List ℕ) (x y colour : ℕ)
      → length buffer ≡ vga_memory_size
      → x < w
      → y < h
      → video_rectangle_vga_320_200_plot_pixel buffer (add_ℕ rect.x x) (add_ℕ rect.y y) colour
        ≡ done (set buffer ((o + y) * vga_width + (a + x)) colour)
  plot_here buffer x y colour size lx ly =
      let fw = on.fits_width in
      let fh = on.fits_height in
      ap₂ (λ s t. video_rectangle_vga_320_200_plot_pixel buffer (add_ℕ s x) (add_ℕ t y) colour)
        on.left on.top
      ∙ plot-set buffer (a + x) (o + y) colour size (omega arith) (omega arith)

  draw_column-Copies :
      (n y x : ℕ) (buffer : List ℕ)
      → length buffer ≡ vga_memory_size
      → x < w
      → y + n ≤ h
      → Copies buffer
          (draw_column n y rect x buffer)
          (λ px py. (a + x == px) && (leb (o + y) py && ltb py (o + y + n)))
  unfolding draw_column
  draw_column-Copies zero y x buffer size lx le = (
    buffer,
    refl,
    size,
    λ px py lp lq.
        let e : ((a + x == px) && (leb (o + y) py && ltb py (o + y + 0))) ≡ false = ground arith in
        rw e,
  )
  draw_column-Copies (suc n) y x buffer size lx le =
      let fw = on.fits_width in
      let fh = on.fits_height in
      let colour = pixel rect w x y in
      let t : (ltb x w && ltb y h) ≡ true = ground arith in
      let spot = (o + y) * vga_width + (a + x) in
      let (buffer', run, size', marks) =
        draw_column-Copies n (y + 1) x (set buffer spot colour)
          (length-set buffer spot colour ∙ size) lx (omega arith) in
      (
        buffer',
        ap (λ r. r >>= column_rest n y x buffer)
              (get_pixel-pixel rect w h on.is x y ∙ ap (λ b. done (if b then colour else 250)) t)
            ∙ ap (λ r. r >>= draw_column n (y + 1) rect x)
                (plot_here buffer x y colour size lx (omega arith))
            ∙ run,
        size',
        λ px py lp lq.
            marks px py lp lq
            ∙ ap
                (λ v.
                  if (a + x == px) && (leb (o + (y + 1)) py && ltb py (o + (y + 1) + n))
                  then pixel rect w (px - a) (py - o)
                  else v)
                (on_screen-set buffer (a + x) (o + y) colour px py size (omega arith) (omega arith)
                  lp)
            ∙ this_or_later (a + x) px (o + y) (o + (y + 1)) py n (pixel rect w (px - a) (py - o))
                colour (on_screen buffer px py) (omega arith)
                (λ ex ey. ap₂ (pixel rect w) (omega arith) (omega arith)),
      )

  draw_columns-Copies :
      (n x : ℕ) (buffer : List ℕ)
      → length buffer ≡ vga_memory_size
      → x + n ≤ w
      → Copies buffer
          (draw_columns n x rect buffer)
          (λ px py. (leb (a + x) px && ltb px (a + x + n)) && (leb o py && ltb py (o + h)))
  unfolding draw_columns
  draw_columns-Copies zero x buffer size le = (
    buffer,
    refl,
    size,
    λ px py lp lq. let e : (leb (a + x) px && ltb px (a + x + 0)) ≡ false = ground arith in rw e,
  )
  draw_columns-Copies (suc n) x buffer size le =
      let (drawn, column, size1, first) =
        draw_column-Copies h 0 x buffer size (omega arith) (omega arith) in
      let (buffer', run, size', marks) = draw_columns-Copies n (x + 1) drawn size1 (omega arith) in
      (
        buffer',
        ap (λ k. draw_column (rounds k) 0 rect x buffer >>= draw_columns n (x + 1) rect)
              on.is.height
            ∙ ap (λ r. r >>= draw_columns n (x + 1) rect) column
            ∙ run,
        size',
        λ px py lp lq.
            marks px py lp lq
            ∙ ap
                (λ v.
                  if (leb (a + (x + 1)) px && ltb px (a + (x + 1) + n))
                    && (leb o py && ltb py (o + h))
                  then pixel rect w (px - a) (py - o)
                  else v)
                (first px py lp lq)
            ∙ ground arith,
      )

  -- A rectangle that is on the screen as a whole is drawn to its place in the back buffer: there each
  -- pixel of the buffer is that of the rectangle, and everywhere else what it was.
  pub video_rectangle_draw-copied :
      (v : Video) (p px py : ℕ)
      → v.rectangle p ≡ rect
      → length v.backbuffer ≡ vga_memory_size
      → px < vga_width
      → py < vga_height
      → (v' : Video) × (video_rectangle_draw v p ≡ done v')
        × (length v'.backbuffer ≡ vga_memory_size)
        × (on_screen v'.backbuffer px py ≡ (
            if (leb a px && ltb px (a + w)) && (leb o py && ltb py (o + h))
            then pixel rect w (px - a) (py - o)
            else on_screen v.backbuffer px py))
  unfolding video_rectangle_draw
  video_rectangle_draw-copied v p px py e size lp lq =
      let (buffer', run, size', marks) = draw_columns-Copies w 0 v.backbuffer size (omega arith) in
      let finish : List ℕ → Run Video = λ drawn. done (
        with_rectangle (record v { backbuffer = drawn }) p
          (record (v.rectangle p) { redraw = false })) in
      let z : a + 0 ≡ a = omega arith in
      (
        with_rectangle (record v { backbuffer = buffer' }) p
            (record (v.rectangle p) { redraw = false }),
        ap (λ r. draw_columns (rounds r.width) 0 r v.backbuffer >>= finish) e
            ∙ ap (λ k. draw_columns (rounds k) 0 rect v.backbuffer >>= finish) on.is.width
            ∙ ap (λ r. r >>= finish) run,
        size',
        marks px py lp lq
            ∙ ap
                (λ s.
                  if (leb s px && ltb px (s + w)) && (leb o py && ltb py (o + h))
                  then pixel rect w (px - a) (py - o)
                  else on_screen v.backbuffer px py)
                z,
      )
