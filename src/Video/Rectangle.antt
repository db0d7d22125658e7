-- ===== src/Video/Rectangle.antt =====
-- video/rectangle.c: rectangles of pixels, a byte each, and the table of those that are published. The
-- scale, a float that nothing reads, is left out. A sum of coordinates is not wrapped: one above an
-- `int` is out of bounds in either reading.
pub mod Pixels
pub mod Block
pub mod Fill
use cos.Prelude.{
  ℕ, zero, suc, ◌+◌, ◌-◌, ◌*◌, ◌/◌, ◌%◌, ◌^◌, Bool, true, false, not, ◌||◌, List, [], ◌∷◌, leb,
  ◌==◌, if◌then◌else◌, length, get_or, set, drop, Result, ok, err, Run, done, wild, ◌>>=◌, ℤ, pos,
  negsuc, einvarg,
}

-- `struct video_rectangle` without the scale.
pub record Rectangle : Type 0 where
  pub name : List ℕ
  pub width : ℤ
  pub height : ℤ
  pub x : ℤ
  pub y : ℤ
  pub redraw : Bool
  pub pixels : List ℕ
  pub shared : ℤ
  pub flags : ℕ

-- `a >= b`.
abbrev pub ge_int : ℤ → ℤ → Bool
ge_int (pos a) (pos b) = leb b a
ge_int (pos a) (negsuc b) = true
ge_int (negsuc a) (pos b) = false
ge_int (negsuc a) (negsuc b) = leb a b

abbrev pub is_negative : ℤ → Bool
is_negative (pos a) = false
is_negative (negsuc a) = true

-- The rounds of a loop up to `n`, and an index that is not negative.
abbrev pub rounds : ℤ → ℕ
rounds (pos a) = a
rounds (negsuc a) = 0

abbrev pub add_ℕ : ℤ → ℕ → ℤ
add_ℕ (pos a) n = pos (a + n)
add_ℕ (negsuc a) n = if leb n a then negsuc (a - n) else pos (n - a - 1)

unfoldable pub video_rectangle_pixel_in_bounds : Rectangle → (x y : ℤ) → Bool
video_rectangle_pixel_in_bounds rect x y =
    not (ge_int x rect.width || ge_int y rect.height || is_negative x || is_negative y)

-- `y * width + x` of a pixel in bounds.
abbrev pub index_of : Rectangle → (x y : ℤ) → ℕ
index_of rect x y = rounds y * rounds rect.width + rounds x

-- An index that is no `int`, or is behind the pixels.
abbrev pub is_outside : Rectangle → ℕ → Bool
is_outside rect index = leb (2 ^ 31) index || leb (length rect.pixels) index

-- The bits of the `char` that is returned: `-EINVARG` is 250.
unfoldable pub video_rectangle_get_pixel : Rectangle → (x y : ℤ) → Run ℕ
unfolding video_rectangle_pixel_in_bounds
video_rectangle_get_pixel rect x y =
    if not (video_rectangle_pixel_in_bounds rect x y)
    then done (256 - einvarg)
    else if is_outside rect (index_of rect x y)
    then wild
    else done (get_or rect.pixels (index_of rect x y) 0)

unfoldable pub video_rectangle_set_pixel :
    Rectangle → (x y : ℤ) → (colour : ℕ) → Run (Result (Unit {0}) × Rectangle)
unfolding video_rectangle_pixel_in_bounds
video_rectangle_set_pixel rect x y colour =
    if not (video_rectangle_pixel_in_bounds rect x y)
    then done (err einvarg, rect)
    else if is_outside rect (index_of rect x y)
    then wild
    else done
        (ok tt, record rect { pixels = set rect.pixels (index_of rect x y) colour; redraw = true })

-- `(c << i) & 0b10000000`, of a shift below 32.
abbrev pub bit_set : (c i : ℕ) → Bool
bit_set c i = c * 2 ^ i / 128 % 2 == 1

-- The inner loop of `video_rectangle_draw_block`, `n` rounds from index `i` on. A shift of an `int` by 32
-- or more is undefined.
unfoldable pub row_loop : (n i : ℕ) → Rectangle → (c : ℕ) → (absx ry : ℤ) → Run Rectangle
row_loop zero i rect c absx ry = done rect
row_loop (suc n) i rect c absx ry = do
  (status, drawn) ←
      if leb 32 i
      then wild
      else if bit_set c i
      then video_rectangle_set_pixel rect (add_ℕ absx i) ry 1
      else done (ok tt, rect)
  row_loop n (i + 1) drawn c absx ry

-- The outer loop, `n` rounds from row `y` on; `ptr` is what is left of the block.
unfoldable pub block_loop :
    (n y : ℕ) → Rectangle → (ptr : List ℕ) → (absx absy pixels_per_row : ℤ) → Run Rectangle
block_loop zero y rect ptr absx absy pixels_per_row = done rect
block_loop (suc n) y rect [] absx absy pixels_per_row =
    if rounds pixels_per_row == 0 then done rect else wild
block_loop (suc n) y rect (c ∷ ptr) absx absy pixels_per_row = do
  drawn ← row_loop (rounds pixels_per_row) 0 rect c absx (add_ℕ absy y)
  block_loop n (y + 1) drawn ptr absx absy pixels_per_row

unfoldable pub video_rectangle_draw_block :
    Rectangle → (ptr : List ℕ) → (absx absy total_rows pixels_per_row : ℤ) → Run Rectangle
video_rectangle_draw_block rect ptr absx absy total_rows pixels_per_row =
    block_loop (rounds total_rows) 0 rect ptr absx absy pixels_per_row

-- The loop of `video_rectangle_draw_blocks`; a width or a height below zero draws nothing.
unfoldable pub blocks_loop :
    (slen : ℕ)
    → Rectangle
    → (ptr : List ℕ) → (absx absy : ℤ) → (total_rows pixels_per_row : ℕ) → Run Rectangle
blocks_loop zero rect ptr absx absy total_rows pixels_per_row = done rect
blocks_loop (suc n) rect ptr absx absy total_rows pixels_per_row = do
  drawn ← video_rectangle_draw_block rect ptr absx absy (pos total_rows) (pos pixels_per_row)
  blocks_loop n drawn (drop total_rows ptr) (add_ℕ absx pixels_per_row) absy total_rows
      pixels_per_row

unfoldable pub video_rectangle_draw_blocks :
    Rectangle → (ptr : List ℕ) → (absx absy total_rows pixels_per_row slen : ℤ) → Run Rectangle
video_rectangle_draw_blocks rect ptr absx absy total_rows pixels_per_row slen =
    blocks_loop (rounds slen) rect ptr absx absy (rounds total_rows) (rounds pixels_per_row)

-- The inner loop of `video_rectangle_fill`: down the column `x` from row `y` on, with `n` rounds left.
-- An error leaves it.
unfoldable pub column_loop :
    (n y : ℕ) → Result (Unit {0}) → Rectangle → (x colour : ℕ) → Run (Result (Unit {0}) × Rectangle)
column_loop zero y res rect x colour = done (res, rect)
column_loop (suc n) y res rect x colour = do
  (res', rect') ← video_rectangle_set_pixel rect (pos x) (pos y) colour
  elim res' [ err e ↦ done (err e, rect') | ok u ↦ column_loop n (y + 1) (ok u) rect' x colour ]

unfoldable pub fill_loop :
    (n x : ℕ) → Result (Unit {0}) → Rectangle → (colour : ℕ) → Run (Result (Unit {0}) × Rectangle)
fill_loop zero x res rect colour = done (res, rect)
fill_loop (suc n) x res rect colour = do
  (res', rect') ← column_loop (rounds rect.height) 0 res rect x colour
  fill_loop n (x + 1) res' rect' colour

-- The colour becomes a `char`.
unfoldable pub video_rectangle_fill : Rectangle → (colour : ℕ) → Run (Result (Unit {0}) × Rectangle)
video_rectangle_fill rect colour = fill_loop (rounds rect.width) 0 (ok tt) rect (colour % 256)
