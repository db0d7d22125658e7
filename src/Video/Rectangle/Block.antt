-- ===== src/Video/Rectangle/Block.antt =====
-- What a block of pixels and a fill leave in a rectangle.
use native.Mathlib.Decide.{ℕ_discrete}
use cos.Prelude.{
  ℕ, zero, suc, ◌+◌, ◌-◌, ◌≤◌, ◌<◌, ◌≡◌, refl, sym, ap, ◌∙◌, Bool, true, false, ◌||◌, ◌&&◌, arith,
  List, [], ◌∷◌, ltb, leb, ◌==◌, if◌then◌else◌, length, get_or, Run, done, ℤ, pos, negsuc,
  Bool-cases, inl, inr,
}
use cos.Video.Rectangle.{
  Rectangle, add_ℕ, rounds, bit_set, row_loop, block_loop, video_rectangle_get_pixel,
  video_rectangle_draw_block,
}
use cos.Video.Rectangle.Pixels.{
  IsRectangle, pixel, is_at, plotted, set_pixel-plotted, get_pixel-pixel, plotted-IsRectangle,
  pixel-plotted,
}

-- Where `x` stands behind `start`, and how far.
abbrev pub is_behind : (start : ℤ) → (x : ℕ) → Bool
is_behind (pos a) x = leb a x
is_behind (negsuc a) x = true

abbrev pub distance : (start : ℤ) → (x : ℕ) → ℕ
distance (pos a) x = x - a
distance (negsuc a) x = x + suc a

-- `x` is within the `n` places from place `i` behind `start` on.
abbrev pub within : (start : ℤ) → (i n x : ℕ) → Bool
within start i n x =
    is_behind start x && (leb i (distance start x) && ltb (distance start x) (i + n))

abbrev pub painted : (start : ℤ) → (i n c x : ℕ) → Bool
painted start i n c x = within start i n x && bit_set c (distance start x)

within-none : (start : ℤ) (i x : ℕ) → within start i 0 x ≡ false
within-none (pos a) i x = ground arith
within-none (negsuc a) i x = ground arith

is_at-distance :
    (start : ℤ) (i x : ℕ) → is_at (add_ℕ start i) x ≡ (is_behind start x && (distance start x == i))
is_at-distance (pos a) i x = ground arith
is_at-distance (negsuc a) i x = ground arith

within-step :
    (start : ℤ) (i n x : ℕ)
    → within start i (suc n) x
      ≡ (is_behind start x && (distance start x == i)) || within start (i + 1) n x
within-step (pos a) i n x = ground arith
within-step (negsuc a) i n x = ground arith

-- `g` and `d` say that the place is this one, `w` that it is a later one.
one_more_place :
    (g d w b b' : Bool) → (d ≡ true → b' ≡ b) → ((g && d || w) && b') ≡ (b && (g && d) || w && b')
one_more_place g false w b b' h = ground arith
one_more_place g true w b b' h = let e = h refl in ground arith

painted-step :
    (start : ℤ) (i n c x : ℕ)
    → painted start i (suc n) c x
      ≡ (bit_set c i && is_at (add_ℕ start i) x) || painted start (i + 1) n c x
painted-step start i n c x =
    let d = distance start x in
    let same : (d == i) ≡ true → bit_set c d ≡ bit_set c i =
      λ t. ap (bit_set c) (let e : d ≡ i = ground arith in e) in
    ap (λ t. t && bit_set c d) (within-step start i n x)
    ∙ one_more_place (is_behind start x) (d == i) (within start (i + 1) n x) (bit_set c i)
        (bit_set c d) same
    ∙ ap (λ t. bit_set c i && t || painted start (i + 1) n c x) (sym (is_at-distance start i x))

-- The pixels after one that is drawn, and then others.
draws :
    (p q v : Bool) (o : ℕ)
    → (if q && v then 1 else if p && v then 1 else o) ≡ (if (p || q) && v then 1 else o)
draws true true true o = refl
draws true true false o = refl
draws true false true o = refl
draws true false false o = refl
draws false q v o = refl

either : (p q : Bool) (o : ℕ) → (if q then 1 else if p then 1 else o) ≡ (if p || q then 1 else o)
either true true o = refl
either true false o = refl
either false q o = refl

-- `g` says that the row is not before the block, `p` and `q` that the column is painted in it.
here_only : (g p : Bool) → ((g && true || false) && p) ≡ (p && (g && true) || false)
here_only true true = refl
here_only true false = refl
here_only false true = refl
here_only false false = refl

nowhere : (g p q : Bool) → ((g && false || false) && p) ≡ (q && (g && false) || false)
nowhere true p true = refl
nowhere true p false = refl
nowhere false p true = refl
nowhere false p false = refl

further_on : (g p q : Bool) → ((g && false || true) && p) ≡ (q && (g && false) || p)
further_on true p true = refl
further_on true p false = refl
further_on false p true = refl
further_on false p false = refl

pub done-if : (b : Bool) (x y : ℕ) → done (if b then x else y) ≡ (if b then done x else done y)
done-if true x y = refl
done-if false x y = refl

module _ (w h : ℕ) where
  -- What a loop leaves: a rectangle of the same size, in which `marked` tells the pixels that are set.
  abbrev Draws : Rectangle → Run Rectangle → (marked : (px py : ℕ) → Bool) → Type 0
  Draws rect run marked =
      (rect' : Rectangle) × (run ≡ done rect')
      × IsRectangle rect' w h
      × ((px py : ℕ)
          → px < w
          → py < h
          → pixel rect' w px py ≡ (if marked px py then 1 else pixel rect w px py))

  row_loop-painted :
      (n i : ℕ) (rect : Rectangle) (c : ℕ) (absx ry : ℤ)
      → IsRectangle rect w h
      → i + n ≤ 32
      → Draws rect (row_loop n i rect c absx ry) (λ px py. painted absx i n c px && is_at ry py)
  unfolding row_loop
  row_loop-painted zero i rect c absx ry is le =
      (rect, refl, is, λ px py lx ly. let e = within-none absx i px in rw e)
  row_loop-painted (suc n) i rect c absx ry is le =
      let small : leb 32 i ≡ false = ground arith in
      elim (Bool-cases (bit_set c i)) [
        | inr clear ↦
            let (rect', run, is', marks) =
              row_loop-painted n (i + 1) rect c absx ry is (omega arith) in
            (
              rect',
              rw (small, clear) run,
              is',
              λ px py lx ly.
                  marks px py lx ly
                  ∙ sym (
                      ap (λ t. if t && is_at ry py then 1 else pixel rect w px py)
                        (painted-step absx i n c px
                          ∙ ap (λ b. b && is_at (add_ℕ absx i) px || painted absx (i + 1) n c px)
                              clear)),
            )
        | inl bit ↦
            let drawn = plotted rect w h (add_ℕ absx i) ry 1 in
            let (rect', run, is', marks) =
              row_loop-painted n (i + 1) drawn c absx ry
                (plotted-IsRectangle rect w h is (add_ℕ absx i) ry 1) (omega arith) in
            (
              rect',
              rw (small, bit, set_pixel-plotted rect w h is (add_ℕ absx i) ry 1) run,
              is',
              λ px py lx ly.
                  marks px py lx ly
                  ∙ ap (λ o. if painted absx (i + 1) n c px && is_at ry py then 1 else o)
                      (pixel-plotted rect w h is (add_ℕ absx i) ry 1 px py lx ly)
                  ∙ draws (is_at (add_ℕ absx i) px) (painted absx (i + 1) n c px) (is_at ry py) _
                  ∙ sym (
                      ap (λ t. if t && is_at ry py then 1 else pixel rect w px py)
                        (painted-step absx i n c px
                          ∙ ap (λ b. b && is_at (add_ℕ absx i) px || painted absx (i + 1) n c px)
                              bit)),
            )
      ]

  -- The pixels of `n` rows from row `y` on.
  abbrev pub covered : (absx absy : ℤ) → (ppr n y : ℕ) → (ptr : List ℕ) → (px py : ℕ) → Bool
  covered absx absy ppr n y ptr px py =
      within absy y n py && painted absx 0 ppr (get_or ptr (distance absy py - y) 0) px

  first_or_later :
      (absx absy : ℤ) (ppr n y c : ℕ) (ptr : List ℕ) (px py : ℕ)
      → ((is_behind absy py && (distance absy py == y) || within absy (y + 1) n py)
          && painted absx 0 ppr (get_or (c ∷ ptr) (distance absy py - y) 0) px)
        ≡ (painted absx 0 ppr c px && (is_behind absy py && (distance absy py == y))
            || covered absx absy ppr n (y + 1) ptr px py)
  first_or_later absx absy ppr n y c ptr px py = elim (ℕ_discrete (distance absy py) y) [
    | yes here ↦
        let t : (distance absy py == y) ≡ true = ground arith in
        let z : distance absy py - y ≡ 0 = omega arith in
        let w0 : within absy (y + 1) n py ≡ false = ground arith in
        rw (t, z, w0) (here_only (is_behind absy py) (painted absx 0 ppr c px))
    | no later ↦
        let t : (distance absy py == y) ≡ false = ground arith in
        elim (Bool-cases (within absy (y + 1) n py)) [
          | inr out ↦ rw (t, out) (nowhere (is_behind absy py) _ (painted absx 0 ppr c px))
          | inl further ↦
              let k : distance absy py - y ≡ suc (distance absy py - (y + 1)) = ground arith in
              rw (t, further, k) (further_on (is_behind absy py) _ (painted absx 0 ppr c px))
        ]
  ]

  covered-step :
      (absx absy : ℤ) (ppr n y c : ℕ) (ptr : List ℕ) (px py : ℕ)
      → covered absx absy ppr (suc n) y (c ∷ ptr) px py
        ≡ (painted absx 0 ppr c px && is_at (add_ℕ absy y) py)
          || covered absx absy ppr n (y + 1) ptr px py
  covered-step absx absy ppr n y c ptr px py =
      ap (λ t. t && painted absx 0 ppr (get_or (c ∷ ptr) (distance absy py - y) 0) px)
        (within-step absy y n py)
      ∙ first_or_later absx absy ppr n y c ptr px py
      ∙ ap (λ t. painted absx 0 ppr c px && t || covered absx absy ppr n (y + 1) ptr px py)
          (sym (is_at-distance absy y py))

  block_loop-covered :
      (n y : ℕ) (rect : Rectangle) (ptr : List ℕ) (absx absy pixels_per_row : ℤ)
      → IsRectangle rect w h
      → n ≤ length ptr
      → rounds pixels_per_row ≤ 32
      → Draws rect
          (block_loop n y rect ptr absx absy pixels_per_row)
          (covered absx absy (rounds pixels_per_row) n y ptr)
  unfolding block_loop
  block_loop-covered zero y rect ptr absx absy pixels_per_row is le narrow =
      (rect, refl, is, λ px py lx ly. let e = within-none absy y py in rw e)
  block_loop-covered (suc n) y rect [] absx absy pixels_per_row is le narrow = absurd (omega arith)
  block_loop-covered (suc n) y rect (c ∷ ptr) absx absy pixels_per_row is le narrow =
      let ppr = rounds pixels_per_row in
      let (drawn, row, is1, first) =
        row_loop-painted ppr 0 rect c absx (add_ℕ absy y) is (omega arith) in
      let (rect', run, is', marks) =
        block_loop-covered n (y + 1) drawn ptr absx absy pixels_per_row is1 (omega arith) narrow in
      (
        rect',
        rw row run,
        is',
        λ px py lx ly.
            marks px py lx ly
            ∙ ap (λ o. if covered absx absy ppr n (y + 1) ptr px py then 1 else o)
                (first px py lx ly)
            ∙ either (painted absx 0 ppr c px && is_at (add_ℕ absy y) py)
                (covered absx absy ppr n (y + 1) ptr px py) _
            ∙ sym (
                ap (λ t. if t then 1 else pixel rect w px py)
                  (covered-step absx absy ppr n y c ptr px py)),
      )

  -- A block of at most 32 pixels a row, whose bytes hold all of its rows, is drawn to a rectangle at any position, also one partly
  -- or wholly outside: a pixel of the rectangle is then 1 if it is within the block and its bit is
  -- set in the byte of its row, the highest bit first, and else what it was.
  pub video_rectangle_draw_block-covered :
      (rect : Rectangle) (ptr : List ℕ) (absx absy total_rows pixels_per_row : ℤ) (px py : ℕ)
      → IsRectangle rect w h
      → rounds total_rows ≤ length ptr
      → rounds pixels_per_row ≤ 32
      → px < w
      → py < h
      → (rect' : Rectangle) × (video_rectangle_draw_block rect ptr absx absy total_rows
            pixels_per_row
          ≡ done rect')
        × (video_rectangle_get_pixel rect' (pos px) (pos py) ≡ (
            if covered absx absy (rounds pixels_per_row) (rounds total_rows) 0 ptr px py
            then done 1
            else video_rectangle_get_pixel rect (pos px) (pos py)))
  unfolding video_rectangle_draw_block
  video_rectangle_draw_block-covered rect ptr absx absy total_rows pixels_per_row px py is le narrow
        lx ly =
      let (rect', run, is', marks) =
        block_loop-covered (rounds total_rows) 0 rect ptr absx absy pixels_per_row is le narrow in
      let t : ltb px w && ltb py h ≡ true = ground arith in
      let read : (r : Rectangle)
          → IsRectangle r w h
          → video_rectangle_get_pixel r (pos px) (pos py) ≡ done (pixel r w px py) =
        λ r i.
          get_pixel-pixel r w h i px py ∙ ap (λ b. done (if b then pixel r w px py else 250)) t in
      (
        rect',
        run,
        read rect' is'
            ∙ ap done (marks px py lx ly)
            ∙ done-if (covered absx absy (rounds pixels_per_row) (rounds total_rows) 0 ptr px py) 1
                (pixel rect w px py)
            ∙ ap
                (λ r.
                  if covered absx absy (rounds pixels_per_row) (rounds total_rows) 0 ptr px py
                  then done 1
                  else r)
                (sym (read rect is)),
      )
