-- ===== src/Video/Rectangle/Pixels.antt =====
-- The pixels of a rectangle: what the writes do to the reads.
use native.Mathlib.Nat.{mul-add-div_right, div-eq_of_lt, mul-le-mul_right}
use cos.Prelude.{
  ℕ, suc, ◌+◌, ◌*◌, ◌/◌, ◌^◌, ◌≤◌, ◌<◌, ◌≡◌, ◌≢◌, refl, sym, ap, ap₂, ◌∙◌, Bool, true, false, not,
  ◌||◌, ◌&&◌, arith, ltb, ◌==◌, if◌then◌else◌, length, get_or, set, length-set, get_or-set_self,
  get_or-set_ne, Result, ok, err, done, ℤ, pos, negsuc, einvarg, Bool-cases, if-both, inl, inr,
}
use cos.Video.Rectangle.{
  Rectangle, rounds, ge_int, is_negative, index_of, is_outside, video_rectangle_pixel_in_bounds,
  video_rectangle_get_pixel, video_rectangle_set_pixel,
}

-- A rectangle of `w` by `h` pixels.
pub record IsRectangle (rect : Rectangle) (w h : ℕ) : Type 0 where
  pub width : rect.width ≡ pos w
  pub height : rect.height ≡ pos h
  pub size : length rect.pixels ≡ w * h
  pub small : w * h < 2 ^ 31

-- The pixel at (x, y), read row by row.
abbrev pub pixel : Rectangle → (w x y : ℕ) → ℕ
pixel rect w x y = get_or rect.pixels (y * w + x) 0

abbrev pub is_at : ℤ → ℕ → Bool
is_at (pos a) x = a == x
is_at (negsuc a) x = false

-- A pixel has an index of its own.
pub index_lt : (w h x y : ℕ) → x < w → y < h → y * w + x < w * h
index_lt w h x y lx ly = let le : suc y * w ≤ h * w = mul-le-mul_right w ly in omega arith

pub index_inj : (w x y x' y' : ℕ) → x < w → x' < w → y * w + x ≡ y' * w + x' → (x ≡ x') × (y ≡ y')
index_inj w x y x' y' lx lx' e =
    let row : y ≡ y' =
      let l : (y * w + x) / w ≡ y + x / w = mul-add-div_right (omega arith) y x in
      let r : (y' * w + x') / w ≡ y' + x' / w = mul-add-div_right (omega arith) y' x' in
      let z : x / w ≡ 0 = div-eq_of_lt lx in
      let z' : x' / w ≡ 0 = div-eq_of_lt lx' in let d = ap (λ i. i / w) e in omega arith in
    (let m = ap (λ i. i * w) row in omega arith, row)

-- What a write leaves.
abbrev pub plotted : Rectangle → (w h : ℕ) → (x y : ℤ) → (colour : ℕ) → Rectangle
plotted rect w h (pos x) (pos y) colour =
    if ltb x w && ltb y h
    then record rect { pixels = set rect.pixels (y * w + x) colour; redraw = true }
    else rect
plotted rect w h (negsuc x) y colour = rect
plotted rect w h (pos x) (negsuc y) colour = rect

abbrev pub status_of : (w h : ℕ) → (x y : ℤ) → Result (Unit {0})
status_of w h (pos x) (pos y) = if ltb x w && ltb y h then ok tt else err einvarg
status_of w h (negsuc x) y = err einvarg
status_of w h (pos x) (negsuc y) = err einvarg

module _ (rect : Rectangle) (w h : ℕ) (is : IsRectangle rect w h) where
  bounds_lem :
      (x y : ℤ)
      → video_rectangle_pixel_in_bounds rect x y
        ≡ not (ge_int x (pos w) || ge_int y (pos h) || is_negative x || is_negative y)
  unfolding video_rectangle_pixel_in_bounds
  bounds_lem x y =
      ap₂ (λ a b. not (ge_int x a || ge_int y b || is_negative x || is_negative y)) is.width
        is.height

  out_left : (x : ℕ) (y : ℤ) → video_rectangle_pixel_in_bounds rect (negsuc x) y ≡ false
  out_left x (pos y) = bounds_lem (negsuc x) (pos y) ∙ ground arith
  out_left x (negsuc y) = bounds_lem (negsuc x) (negsuc y) ∙ ground arith

  out_above : (x y : ℕ) → video_rectangle_pixel_in_bounds rect (pos x) (negsuc y) ≡ false
  out_above x y = bounds_lem (pos x) (negsuc y) ∙ ground arith

  in_bounds_iff :
      (x y : ℕ) → video_rectangle_pixel_in_bounds rect (pos x) (pos y) ≡ ltb x w && ltb y h
  in_bounds_iff x y = bounds_lem (pos x) (pos y) ∙ ground arith

  index_lem : (x y : ℕ) → index_of rect (pos x) (pos y) ≡ y * w + x
  index_lem x y = ap (λ k. y * rounds k + x) is.width

  inside_lem : (x y : ℕ) → x < w → y < h → is_outside rect (index_of rect (pos x) (pos y)) ≡ false
  inside_lem x y lx ly =
      let lt = index_lt w h x y lx ly in
      let size = is.size in let small = is.small in rw (index_lem x y) (ground arith)

  pub set_pixel-plotted :
      (x y : ℤ) (colour : ℕ)
      → video_rectangle_set_pixel rect x y colour
        ≡ done (status_of w h x y, plotted rect w h x y colour)
  unfolding video_rectangle_set_pixel
  set_pixel-plotted (negsuc x) y colour = rw (out_left x y)
  set_pixel-plotted (pos x) (negsuc y) colour = rw (out_above x y)
  set_pixel-plotted (pos x) (pos y) colour = elim (Bool-cases (ltb x w && ltb y h)) [
    | inr out ↦ rw (in_bounds_iff x y, out)
    | inl within ↦
        let lx : x < w = ground arith in
        let ly : y < h = ground arith in
        rw (in_bounds_iff x y, within, inside_lem x y lx ly, index_lem x y)
  ]

  pub get_pixel-pixel :
      (x y : ℕ)
      → video_rectangle_get_pixel rect (pos x) (pos y)
        ≡ done (if ltb x w && ltb y h then pixel rect w x y else 250)
  unfolding video_rectangle_get_pixel
  get_pixel-pixel x y = elim (Bool-cases (ltb x w && ltb y h)) [
    | inr out ↦ rw (in_bounds_iff x y, out)
    | inl within ↦
        let lx : x < w = ground arith in
        let ly : y < h = ground arith in
        rw (in_bounds_iff x y, within, inside_lem x y lx ly, index_lem x y)
  ]

  pub plotted-IsRectangle : (x y : ℤ) (colour : ℕ) → IsRectangle (plotted rect w h x y colour) w h
  plotted-IsRectangle (negsuc x) y colour = is
  plotted-IsRectangle (pos x) (negsuc y) colour = is
  plotted-IsRectangle (pos x) (pos y) colour =
      if-both (λ r. IsRectangle r w h) (ltb x w && ltb y h) _ _
        (record {
          width = is.width;
          height = is.height;
          size = length-set rect.pixels (y * w + x) colour ∙ is.size;
          small = is.small;
        })
        is

  -- A write changes the pixel that it names, if the rectangle has one there, and no other.
  pub pixel-plotted :
      (x y : ℤ) (colour px py : ℕ)
      → px < w
      → py < h
      → pixel (plotted rect w h x y colour) w px py
        ≡ (if is_at x px && is_at y py then colour else pixel rect w px py)
  pixel-plotted (negsuc x) y colour px py lx ly = refl
  pixel-plotted (pos x) (negsuc y) colour px py lx ly =
      let t : (x == px) && false ≡ false = ground arith in rw t
  pixel-plotted (pos x) (pos y) colour px py lx ly = elim (Bool-cases (ltb x w && ltb y h)) [
    | inr out ↦ let t : (x == px) && (y == py) ≡ false = ground arith in rw (out, t)
    | inl within ↦
        let lx' : x < w = ground arith in
        let ly' : y < h = ground arith in
        let size = is.size in
        elim (Bool-cases ((x == px) && (y == py))) [
          | inl same ↦
              let ex : x ≡ px = ground arith in
              let ey : y ≡ py = ground arith in
              rw (within, same)
                (ap₂ (λ a b. get_or (set rect.pixels (y * w + x) colour) (b * w + a) 0) (sym ex)
                    (sym ey)
                  ∙ get_or-set_self rect.pixels (y * w + x) colour 0
                      (let lt = index_lt w h x y lx' ly' in omega arith))
          | inr other ↦
              let ne : y * w + x ≢ py * w + px =
                λ e. let (ex, ey) = index_inj w x y px py lx' lx e in absurd (ground arith) in
              rw (within, other) (get_or-set_ne rect.pixels (y * w + x) (py * w + px) colour 0 ne)
        ]
  ]
